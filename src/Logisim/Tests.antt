-- ===== src/Logisim/Tests.antt =====
-- The circuit: a run from the reset wires, and the theorems at concrete wires.
use jyyos.Prelude.{◌+◌, ◌≡◌, refl, true, false, [], ◌∷◌}
use jyyos.Logisim.{Wires, cycle, run}
use jyyos.Logisim.Counter.{Count, nought, one, two, wires, digits, digit, run-digits, run-settles}

abbrev reset : Wires
reset = record { x = false; y = false }

-- X and Y both high, which no count stands for.
abbrev astray : Wires
astray = record { x = true; y = true }

four_cycles : run 4 reset ≡ digit nought ∷ digit one ∷ digit two ∷ digit nought ∷ []
unfolding run cycle
four_cycles = refl

run-digits_example : run 4 (wires one) ≡ digits 4 one
run-digits_example = run-digits 4 one

run-settles_example : (k : Count) × (run (3 + 1) astray ≡ (cycle astray).1 ∷ digits 3 k)
run-settles_example = run-settles 3 astray
