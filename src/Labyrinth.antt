-- ===== src/Labyrinth.antt =====
-- minilab/labyrinth/labyrinth.h and labyrinth.c: the data of the labyrinth game and its cell tests.
pub mod Find
pub mod Connected
pub mod Move
pub mod Storage
pub mod Main
mod Tests
use jyyos.Prelude.{ℕ, ◌+◌, ◌*◌, Bool, true, false, ◌&&◌, ◌||◌, ltb, leb, ◌==◌, if◌then◌else◌}
use jyyos.Prelude.Int.{ℤ, pos, negsuc, is_neg, geb_ℕ, to_ℕ}

-- MAX_ROWS and MAX_COLS.
abbrev pub max_rows : ℕ
max_rows = 100

abbrev pub max_cols : ℕ
max_cols = 100

-- `char map[MAX_ROWS][MAX_COLS]`, read by row and column. Whoever writes to it checks the bounds.
abbrev pub Grid : Type 0
Grid = ℕ → ℕ → ℕ

pub record Labyrinth : Type 0 where
  pub map : Grid
  pub rows : ℕ
  pub cols : ℕ

pub record Position : Type 0 where
  pub row : ℤ
  pub col : ℤ

-- The position (-1, -1), which says that nothing was found.
abbrev pub nowhere : Position
nowhere = record { row = negsuc 0; col = negsuc 0 }

abbrev pub here : ℕ → ℕ → Position
here i j = record { row = pos i; col = pos j }

-- `map[r][c] = v` on the contents of the array.
abbrev pub write : Grid → ℕ → ℕ → ℕ → Grid
write m r c v = λ i j. if i == r && j == c then v else m i j

abbrev pub is_valid_player : ℕ → Bool
is_valid_player id = leb b'0' id && leb id b'9'

-- The guard of both cell tests: row < 0 || row >= rows || col < 0 || col >= cols.
abbrev pub is_outside : Labyrinth → ℤ → ℤ → Bool
is_outside lab row col = is_neg row || geb_ℕ row lab.rows || is_neg col || geb_ℕ col lab.cols

unfoldable pub is_empty_space : Labyrinth → ℤ → ℤ → Bool
is_empty_space lab row col =
    if is_outside lab row col then false else lab.map (to_ℕ row) (to_ℕ col) == b'.'

-- '.' or a player.
abbrev pub is_open_cell : ℕ → Bool
is_open_cell c = c == b'.' || is_valid_player c

unfoldable pub is_empty_space_or_user : Labyrinth → ℤ → ℤ → Bool
is_empty_space_or_user lab row col =
    if is_outside lab row col then false else is_open_cell (lab.map (to_ℕ row) (to_ℕ col))
