-- ===== src/Logisim/Counter.antt =====
-- The circuit counts modulo 3 and shows its count on seven segments.
use jyyos.Prelude.{ℕ, zero, suc, ◌+◌, ◌≡◌, refl, ◌∙◌, ap, arith, Bool, true, false, List, [], ◌∷◌}
use jyyos.Logisim.{Wires, Display, cycle, run}

-- The count that the wires stand for: XY in binary, where 11 goes on like 2.
pub data Count : Type 0 where
  nought one two : Count

abbrev pub next : Count → Count
next nought = one
next one = two
next two = nought

abbrev pub wires : Count → Wires
wires nought = record { x = false; y = false }
wires one = record { x = false; y = true }
wires two = record { x = true; y = false }

-- The segments of the digits 0, 1 and 2.
abbrev pub digit : Count → Display
digit nought = record { a = true; b = true; c = true; d = true; e = true; f = true; g = false }
digit one = record { a = false; b = true; c = true; d = false; e = false; f = false; g = false }
digit two = record { a = true; b = true; c = false; d = true; e = true; f = false; g = true }

-- The digits from a count on.
abbrev pub digits : ℕ → Count → List Display
digits zero k = []
digits (suc n) k = digit k ∷ digits n (next k)

cycle-wires : (k : Count) → cycle (wires k) ≡ (wires (next k), digit k)
unfolding cycle
cycle-wires nought = refl
cycle-wires one = refl
cycle-wires two = refl

-- From the wires of a count on, each cycle shows the segments of the count's digit, and the counts
-- follow one another modulo 3.
pub run-digits : (n : ℕ) (k : Count) → run n (wires k) ≡ digits n k
unfolding run
run-digits zero k = refl
run-digits (suc n) k =
    ap (λ p. p.1 ∷ run n p.0) (cycle-wires k) ∙ ap (λ ds. digit k ∷ ds) (run-digits n (next k))

cycle-counts : (x y : Bool) → (k : Count) × ((cycle (record { x = x; y = y })).0 ≡ wires k)
unfolding cycle
cycle-counts false false = (one, refl)
cycle-counts false true = (two, refl)
cycle-counts true false = (nought, refl)
cycle-counts true true = (nought, refl)

-- From all wires, even those of no count, the circuit shows digits that follow one another modulo 3
-- from its second cycle on.
pub run-settles : (n : ℕ) (w : Wires) → (k : Count) × (run (n + 1) w ≡ (cycle w).1 ∷ digits n k)
unfolding run
run-settles n w =
    let (k, e) = cycle-counts w.x w.y in
    let more : n + 1 ≡ suc n = omega arith in
    (
      k,
      ap (λ i. run i w) more
          ∙ ap (λ v. (cycle w).1 ∷ run n v) e
          ∙ ap (λ ds. (cycle w).1 ∷ ds) (run-digits n k),
    )
