-- ===== src/Interconnect/Select.antt =====
-- Which slave an address selects, which lines it sees, and which masters own the bus, said without
-- the scans of the code.
use digital_circuit_simulati.Prelude.{
  ℕ, zero, suc, ◌+◌, ◌≤◌, ◌<◌, ◌≡◌, ◌≢◌, refl, sym, ap, subst, ◌∙◌, ◌⊎◌, inl, inr, Bool, true,
  false, not, ◌&&◌, Option, none, some, List, [], ◌∷◌, arith,
}
use digital_circuit_simulati.Prelude.{
  length, get_elem?, ltb, leb, if◌then◌else◌, Bool-cases, Option-cases,
}
use digital_circuit_simulati.Interconnect.{
  Lines, Segment, Interconnect, requests, wrapped, any_request, pick, arbitrate, decode_from,
  holds_bus, changes_owner,
}
use digital_circuit_simulati.Interconnect.Arbiter.{arbitrate-fair}

abbrev pub Contains : Segment → ℕ → Type 0
Contains x adr = (x.base ≤ adr) × (adr < x.base + x.size)

abbrev pub NoHit : List Segment → ℕ → Type 0
NoHit segments adr = (j : ℕ) (x : Segment) → get_elem? segments j ≡ some x → ¬ Contains x adr

-- The segment at a position contains the address, and no earlier one does.
pub record FirstHit (segments : List Segment) (adr si : ℕ) : Type 0 where
  pub segment : Segment
  pub found : get_elem? segments si ≡ some segment
  pub hit : Contains segment adr
  pub earlier : (j : ℕ) (x : Segment) → j < si → get_elem? segments j ≡ some x → ¬ Contains x adr

-- An address outside all segments selects slave 0.
abbrev pub Selects : List Segment → ℕ → ℕ → Type 0
Selects segments adr si = FirstHit segments adr si ⊎ NoHit segments adr × (si ≡ 0)

decode_from-Selects :
    (i : ℕ) (segments : List Segment) (adr : ℕ)
    → ((k : ℕ) × (decode_from i segments adr ≡ i + k) × FirstHit segments adr k)
      ⊎ NoHit segments adr × (decode_from i segments adr ≡ 0)
unfolding decode_from
decode_from-Selects i [] adr = inr (λ j x e. cc, refl)
decode_from-Selects i (x ∷ segments) adr =
    elim (Bool-cases (leb x.base adr && ltb adr (x.base + x.size))) [
      | inl hit ↦ rw hit (
          inl (
            0,
            omega arith,
            record {
              segment = x;
              found = refl;
              hit = (ground arith, ground arith);
              earlier = λ j y lt. absurd (omega (arith, lt));
            },
          ))
      | inr miss ↦
          let out : ¬ Contains x adr = λ c. let (low, high) = c in ground arith in
          rw miss (elim (decode_from-Selects (suc i) segments adr) [
            | inl (k, e, h) ↦ inl (
              suc k,
              omega (arith, e),
              record {
                segment = h.segment;
                found = h.found;
                hit = h.hit;
                earlier = before out k h.earlier;
              },
            )
            | inr (nobody, e) ↦ inr (nowhere out nobody, e)
          ])
    ]
  where
    before :
        ¬ Contains x adr
        → (k : ℕ)
        → ((j : ℕ) (y : Segment) → j < k → get_elem? segments j ≡ some y → ¬ Contains y adr)
        → (j : ℕ) (y : Segment) → j < suc k
        → get_elem? (x ∷ segments) j ≡ some y
        → ¬ Contains y adr
    before out k h zero y lt e =
        let same : x ≡ y = ground (arith, e) in subst (λ t. ¬ Contains t adr) same out
    before out k h (suc j) y lt e = h j y (omega (arith, lt)) e

    nowhere : ¬ Contains x adr → NoHit segments adr → NoHit (x ∷ segments) adr
    nowhere out h zero y e =
        let same : x ≡ y = ground (arith, e) in subst (λ t. ¬ Contains t adr) same out
    nowhere out h (suc j) y e = h j y e

pub decode-Selects :
    (segments : List Segment) (adr : ℕ) → Selects segments adr (decode_from 0 segments adr)
decode-Selects segments adr = elim (decode_from-Selects 0 segments adr) [
  | inl (k, e, h) ↦
      let same : k ≡ decode_from 0 segments adr = omega (arith, e) in
      inl (subst (FirstHit segments adr) same h)
  | inr (nobody, e) ↦ inr (nobody, e)
]

-- The lines `r` that a slave sees of the master `g`, after the bus was last owned by `last`: those
-- of the master, but in the tick in which another master takes over there is no request.
pub record Seen (last : Option ℕ) (g : ℕ) (l r : Lines) : Type 0 where
  pub first : last ≡ none → r ≡ l
  pub same_owner : last ≡ some g → r ≡ l
  pub new_owner : (x : ℕ) → last ≡ some x → x ≢ g → r ≡ record l { stb = false; cyc = false }

-- The lines in a gap, as the code writes them.
abbrev pub gated : Bool → Lines → Lines
gated gap l = record l { stb = l.stb && not gap; cyc = l.cyc && not gap }

open_gap : (l : Lines) → gated false l ≡ l
open_gap l =
    let strobe : (l.stb && true) ≡ l.stb = ground arith in
    let cycle : (l.cyc && true) ≡ l.cyc = ground arith in
    ap (λ t. record l { stb = t; cyc = l.cyc && true }) strobe
    ∙ ap (λ t. record l { cyc = t }) cycle

closed_gap : (l : Lines) → gated true l ≡ record l { stb = false; cyc = false }
closed_gap l =
    let strobe : (l.stb && false) ≡ false = ground arith in
    let cycle : (l.cyc && false) ≡ false = ground arith in
    ap (λ t. record l { stb = t; cyc = l.cyc && false }) strobe
    ∙ ap (λ t. record l { stb = false; cyc = t }) cycle

pub gated-Seen :
    (last : Option ℕ) (g : ℕ) (l : Lines) → Seen last g l (gated (changes_owner last g) l)
gated-Seen last g l = record {
  first = λ e. ap (λ t. gated (changes_owner t g) l) e ∙ open_gap l;
  same_owner = λ e.
      let reflexive : changes_owner (some g) g ≡ false = ground arith in
      ap (λ t. gated (changes_owner t g) l) e ∙ ap (λ t. gated t l) reflexive ∙ open_gap l;
  new_owner = λ x e ne.
      let differs : changes_owner (some x) g ≡ true = ground (arith, ne) in
      ap (λ t. gated (changes_owner t g) l) e ∙ ap (λ t. gated t l) differs ∙ closed_gap l;
}

any_request_at :
    (masters : List Lines) (m : ℕ) → requests masters m ≡ true → any_request masters ≡ true
unfolding any_request
any_request_at [] m asks = cc
any_request_at (l ∷ masters) zero asks = ground (arith, asks)
any_request_at (l ∷ masters) (suc m) asks =
    let rest = any_request_at masters m asks in ground (arith, rest)

pick-requests :
    (masters : List Lines) (count g k todo m : ℕ)
    → pick masters count g k todo ≡ some m
    → requests masters m ≡ true
unfolding pick
pick-requests masters count g k zero m e = cc
pick-requests masters count g k (suc todo) m e =
    elim (Bool-cases (requests masters (wrapped count (g + k)))) [
      | inl here ↦
          let same : wrapped count (g + k) ≡ m = ground (arith, here, e) in
          subst (λ t. requests masters t ≡ true) same here
      | inr not_here ↦ pick-requests masters count g (suc k) todo m (ground (arith, not_here, e))
    ]

pub arbitrate-requests :
    (masters : List Lines) (next g : ℕ)
    → arbitrate masters next ≡ some g
    → requests masters g ≡ true
unfolding arbitrate
arbitrate-requests masters next g e =
    pick-requests masters (length masters) (if leb (length masters) next then 0 else next) 0
      (length masters) g e

-- With a request, the arbiter chooses a master.
arbitrate-some :
    (masters : List Lines) (next m : ℕ)
    → m < length masters
    → requests masters m ≡ true
    → (g : ℕ) × (arbitrate masters next ≡ some g)
unfolding arbitrate
arbitrate-some masters next m asked asks = elim (Bool-cases (leb (length masters) next)) [
  | inl out ↦
      let (g, e, below, rest) = arbitrate-fair masters 0 m (omega (arith, asked)) asked asks in
      let start : leb (length masters) 0 ≡ false = ground (arith, asked) in
      (g, rw out (rw start at e))
  | inr in_range ↦
      let (g, e, below, rest) = arbitrate-fair masters next m (ground arith) asked asks in (g, e)
]

pub arbitrate-none :
    (masters : List Lines) (next m : ℕ)
    → arbitrate masters next ≡ none
    → m < length masters
    → requests masters m ≢ true
arbitrate-none masters next m e asked asks =
    let (g, found) = arbitrate-some masters next m asked asks in
    let clash : some g ≡ none = sym found ∙ e in cc

pub no_request :
    (masters : List Lines) (m : ℕ) → any_request masters ≡ false → requests masters m ≢ true
no_request masters m quiet asks =
    let clash : true ≡ false = sym (any_request_at masters m asks) ∙ quiet in cc

-- The owner of the bus, as the test of the code finds it.
pub holder :
    (masters : List Lines) (s : Interconnect)
    → holds_bus masters s ≡ true
    → (s.busy ≡ true) × (g : ℕ) × (s.grant ≡ some g) × (requests masters g ≡ true)
holder masters s h = elim (Option-cases s.grant) [
  | inl free ↦ let impossible : ⊥ = ground arith in elim impossible [ ]
  | inr (g, owner) ↦ (ground arith, g, owner, ground arith)
]

pub not_held :
    (masters : List Lines) (s : Interconnect) (g : ℕ)
    → holds_bus masters s ≡ false
    → s.busy ≡ true
    → s.grant ≡ some g
    → requests masters g ≢ true
not_held masters s g lost busy owner asks = ground arith
