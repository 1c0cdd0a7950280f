-- ===== src/Labyrinth/Connected.antt =====
-- labyrinth.c, dfs and isConnected: the flood over open cells, and the check that it met them all.
pub mod Reach
pub mod Measure
pub mod Explore
pub mod Decide
use jyyos.Prelude.{ℕ, zero, suc, ◌*◌, Bool, true, false, not, ◌&&◌, ◌==◌, if◌then◌else◌}
use jyyos.Prelude.{Option, none, some, List, [], ◌∷◌}
use jyyos.Prelude.Int.{ℤ, pos, negsuc, to_ℕ, is_neg, ◌+ℤ◌}
use jyyos.Labyrinth.{Labyrinth, Position, is_empty_space_or_user, is_open_cell}
use jyyos.Labyrinth.Find.{scan_row, scan_rows, find_first_empty_space}

-- `bool visited[MAX_ROWS][MAX_COLS]`.
abbrev pub Visited : Type 0
Visited = ℕ → ℕ → Bool

abbrev pub mark : Visited → ℕ → ℕ → Visited
mark vis r c = λ i j. if i == r && j == c then true else vis i j

-- Up, down, left, right.
abbrev pub directions : List (ℤ × ℤ)
directions = (negsuc 0, pos 0) ∷ (pos 1, pos 0) ∷ (pos 0, negsuc 0) ∷ (pos 0, pos 1) ∷ []

-- The loop of `dfs` over the directions that are left; `visit` is the recursive call.
pub visit_each :
    (ℤ → ℤ → Visited → Option Visited) → Labyrinth → ℤ → ℤ → List (ℤ × ℤ) → Visited → Option Visited
unfolding is_empty_space_or_user
visit_each visit lab row col [] vis = some vis
visit_each visit lab row col ((dr, dc) ∷ ds) vis =
    let new_row = row +ℤ dr in
    let new_col = col +ℤ dc in
    let skip = visit_each visit lab row col ds vis in
    elim (is_empty_space_or_user lab new_row new_col && not (vis (to_ℕ new_row) (to_ℕ new_col))) [
      | true ↦ elim (visit new_row new_col vis) [
        | some vis' ↦ visit_each visit lab row col ds vis'
        | none ↦ none
      ]
      | false ↦ skip
    ]

-- `none` is the fuel running out; the program recurs on its stack.
pub dfs : ℕ → Labyrinth → ℤ → ℤ → Visited → Option Visited
unfolding visit_each
dfs zero lab row col vis = none
dfs (suc fuel) lab row col vis =
    visit_each (dfs fuel lab) lab row col directions (mark vis (to_ℕ row) (to_ℕ col))

abbrev pub is_minus_one : ℤ → Bool
is_minus_one (negsuc n) = n == 0
is_minus_one (pos n) = false

-- row == -1 && col == -1.
abbrev pub is_nowhere : Position → Bool
is_nowhere p = is_minus_one p.row && is_minus_one p.col

-- The nested loops after the flood: no open cell is left unvisited.
pub all_visited : Labyrinth → Visited → Bool
unfolding scan_row scan_rows
all_visited lab vis =
    is_nowhere (scan_rows (λ i j. is_open_cell (lab.map i j) && not (vis i j)) lab.cols 0 lab.rows)

unfoldable pub is_connected : Labyrinth → Option Bool
unfolding find_first_empty_space dfs all_visited
is_connected lab =
    let start = find_first_empty_space lab in
    elim (is_nowhere start) [
      | true ↦ some true
      | false ↦ elim (dfs (lab.rows * lab.cols) lab start.row start.col (λ i j. false)) [
        | some vis ↦ some (all_visited lab vis)
        | none ↦ none
      ]
    ]
