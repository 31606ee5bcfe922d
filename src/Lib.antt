-- ===== src/Lib.antt =====
-- Verification of the digital circuit simulator. A circuit is a list of components whose pins are
-- joined by nets. The host code checks the circuit, sorts its combinational components and emits a
-- C function for each component; one tick of the simulation calls these functions in stages: clock
-- sources and combinational components in their sorted order, the resolution of tri-state buses,
-- and then the sequential components. The models are of the host's algorithms and of the behaviour
-- of the emitted C functions, one call of a function for each tick; a component's pins are given
-- by the values that its function reads from them and writes to them.
--
-- Prelude.antt: shared names, Boolean tests, lists with native indices, and the bit operations of
--   C as arithmetic (Prelude/Bits.antt).
-- LoopCheck.antt: the search for combinational loops, src/core/Circuit.cpp (`Circuit::check`,
--   `Circuit::dfsCycle`), with the explicit stack, the three colours and the report. Its fuel is
--   the number of nets and edges; each round of the loop finishes a net or consumes an edge.
-- TopoSort.antt: the order in which components are evaluated, src/core/CodeGen.cpp (`topoOrder`).
--   Its fuel is the number of components, each of which is placed at most once.
-- Bus.antt: the resolution of a tri-state bus, src/core/CodeGen.cpp (`emitBusResolution`).
-- Fifo.antt: src/components/memory/FIFO.cpp. Dma.antt: src/components/platform/DMA.cpp.
-- Plic.antt: src/components/platform/PLIC.cpp, an interrupt controller with two contexts.
-- Rvc.antt: include/dcs/util/RvcDecode.h, the expansion of compressed RISC-V instructions; the
--   cases of `expand` are in Rvc/Quadrants.antt, and the encodings that the architecture defines
--   in Rvc/Encoding.antt.
-- Check.antt: the whole of `Circuit::check`, src/core/Circuit.cpp, and `getCombinationalDeps`,
--   src/core/Component.cpp: the nets of the pins, the drivers of a net, the buses and the
--   dependency graph, which it hands to LoopCheck.antt. `checkTopology` only collects warnings and
--   is left out.
-- Watchdog.antt: src/components/io/Watchdog.cpp.
-- FlipFlop.antt: the dff, tff and jkff components of src/components/sequential/Sequential.cpp, as
--   bytes and as registers of their width.
-- Netlist.antt: the editing of a circuit, src/core/Circuit.cpp: `createNet`, `addComponent`,
--   `connect`, `disconnect` (Netlist/Edit.antt), `removeComponent` and `removeNet`
--   (Netlist/Remove.antt). The search for a free name tries one name more than there are nets.
-- Clint.antt: src/components/platform/CLINT.cpp, the timer and software interrupt.
-- Registers.antt and Clock.antt: the registers, counters, shift registers and clocks of
--   src/components/sequential/Sequential.cpp.
-- Tick.antt: what the stages of a tick run, src/core/CodeGen.cpp: `topologicalSortWithClocks`,
--   `computeTriAffected` and the loops `circuit_tick_batch` and `circuit_tick_forever`, with one
--   tick as a parameter. The queue of `computeTriAffected` takes each component once, so its fuel
--   is the number of components; the fuel of `circuit_tick_forever` is a number of ticks.
-- AsyncFifo.antt: src/components/sequential/AsyncFifo.cpp, the fifo between two clocks. The loop
--   that counts the address bits halves the depth, which is its fuel.
-- Interconnect.antt: the sequential part of src/components/platform/WishboneInterconnect.cpp.
--
-- Words of w bits are natural numbers with `% 2 ^ w` where the code wraps around. Strings, the
-- text of the emitted C and messages are not modelled; neither are the JIT compiler, JSON, files,
-- sockets, terminals and the RISC-V processor, which are interfaces to other programs or are left
-- for later.
pub mod Prelude
pub mod AsyncFifo
pub mod Bus
pub mod Check
pub mod Clint
pub mod Clock
pub mod Dma
pub mod Fifo
pub mod FlipFlop
pub mod Interconnect
pub mod LoopCheck
pub mod Netlist
pub mod Plic
pub mod Registers
pub mod Rvc
pub mod Tick
pub mod TopoSort
pub mod Watchdog
