-- ===== src/Logisim.antt =====
-- course_code/lecture_1/logisim: gates, two registers, and the clock cycle of the circuit.
pub mod Counter
mod Tests
use jyyos.Prelude.{ℕ, zero, suc, Bool, true, false, not, ◌&&◌, List, [], ◌∷◌}

-- The gates, all from NAND.
abbrev pub nand : Bool → Bool → Bool
nand x y = not (x && y)

abbrev pub not_gate : Bool → Bool
not_gate x = nand x true

abbrev pub and_gate : Bool → Bool → Bool
and_gate x y = not_gate (nand x y)

abbrev pub or_gate : Bool → Bool → Bool
or_gate x y = nand (not_gate x) (not_gate y)

-- The wires that the registers b1 and b0 drive.
pub record Wires : Type 0 where
  pub x : Bool
  pub y : Bool

-- The wires A to G that a cycle prints.
pub record Display : Type 0 where
  pub a : Bool
  pub b : Bool
  pub c : Bool
  pub d : Bool
  pub e : Bool
  pub f : Bool
  pub g : Bool

-- X1 and Y1.
abbrev pub next_x : Wires → Bool
next_x w = and_gate (not_gate w.x) w.y

abbrev pub next_y : Wires → Bool
next_y w = not_gate (or_gate w.x w.y)

-- One cycle: the wires behind the registers after the edge, and what is printed.
unfoldable pub cycle : Wires → Wires × Display
cycle w = (
  record { x = next_x w; y = next_y w },
  record {
    a = not_gate w.y;
    b = true;
    c = not_gate w.x;
    d = not_gate w.y;
    e = not_gate w.y;
    f = next_y w;
    g = w.x;
  },
)

-- What the first n cycles print, from some wires on.
unfoldable pub run : ℕ → Wires → List Display
run zero w = []
run (suc n) w = (cycle w).1 ∷ run n (cycle w).0
