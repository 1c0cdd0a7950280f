-- ===== src/Labyrinth/Find.antt =====
-- labyrinth.c, findPlayer and findFirstEmptySpace: the row-major search of the map.
pub mod First
use jyyos.Prelude.{ℕ, zero, suc, ◌+◌, Bool, ◌==◌, Option, none, some, if◌then◌else◌}
use jyyos.Labyrinth.{Labyrinth, Position, nowhere, here}

-- The inner loop at column j with `left` columns to go: the column of the first hit.
unfoldable pub scan_row : (ℕ → Bool) → ℕ → ℕ → Option ℕ
scan_row test j zero = none
scan_row test j (suc left) =
    let rest = scan_row test (j + 1) left in if test j then some j else rest

-- The outer loop at row i with `left` rows to go.
unfoldable pub scan_rows : (ℕ → ℕ → Bool) → ℕ → ℕ → ℕ → Position
scan_rows test cols i zero = nowhere
scan_rows test cols i (suc left) =
    let rest = scan_rows test cols (i + 1) left in
    elim (scan_row (test i) 0 cols) [ some j ↦ here i j | none ↦ rest ]

unfoldable pub find_player : Labyrinth → ℕ → Position
unfolding scan_row scan_rows
find_player lab id = scan_rows (λ i j. lab.map i j == id) lab.cols 0 lab.rows

unfoldable pub find_first_empty_space : Labyrinth → Position
unfolding scan_row scan_rows
find_first_empty_space lab = scan_rows (λ i j. lab.map i j == b'.') lab.cols 0 lab.rows
