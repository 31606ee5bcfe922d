-- ===== src/Dma/Tests.antt =====
-- A run of a transfer against a memory, and the theorem at it.
use digital_circuit_simulati.Prelude.{◌+◌, refl, true, false, replicate, arith}
use digital_circuit_simulati.Dma.{Dma}
use digital_circuit_simulati.Dma.Transfer.{Memory, Event, System, step, Moved}
use digital_circuit_simulati.Dma.Copy.{run_busy, Idle, Starts, transfer_copies}

abbrev ready : Dma
ready = record {
  src = 8;
  dst = 16;
  len = 8;
  remain = 0;
  rd_val = 0;
  latched = 0;
  m_adr = 0;
  m_dat = 0;
  busy = false;
  done = false;
  m_we = false;
  m_stb = false;
  m_cyc = false;
  st = 0;
  prev_stb = false;
}

abbrev numbered : Memory
numbered = λ a. a + 100

abbrev go : Event
go = record {
  cfg_adr = 0x0C;
  cfg_dat = 1;
  cfg_we = true;
  cfg_stb = true;
  cfg_cyc = true;
  answers = false;
}

abbrev answering : Event
answering = record {
  cfg_adr = 0;
  cfg_dat = 0;
  cfg_we = false;
  cfg_stb = false;
  cfg_cyc = false;
  answers = true;
}

abbrev start : System
start = record { dma = ready; mem = numbered }

ready-Idle : Idle 2 ready
ready-Idle = record {
  busy = refl;
  m_stb = refl;
  released = refl;
  some_words = omega arith;
  len_at = refl;
  src_word = omega arith;
  dst_word = omega arith;
}

go-Starts : Starts go
go-Starts = record { ctrl = refl; go = refl; we = refl; stb = refl; cyc = refl }

transfer_copies_example : Moved 8 16 2 numbered (run_busy (replicate 7 answering) (step go start))
transfer_copies_example =
    transfer_copies 2 go (replicate 7 answering) start ready-Idle go-Starts (omega arith)
