-- ===== src/Labyrinth/Storage.antt =====
-- labyrinth.c, loadMap and saveMap: the map file, as bytes, and the map in memory.
pub mod Lines
pub mod Total
pub mod Load
pub mod Overflow
pub mod RoundTrip
use jyyos.Prelude.{ℕ, zero, suc, ◌+◌, Bool, true, false, ◌&&◌, ◌||◌, ltb, leb, ◌==◌, if◌then◌else◌}
use jyyos.Prelude.{Option, none, some, List, [], ◌∷◌, ◌++◌, length, get_or}
use jyyos.Prelude.CText.{Bytes, newline, until_nul, fgets, chop_newline}
use jyyos.Labyrinth.{Labyrinth, Grid, write, max_rows, max_cols}

-- `fault` is a write outside the row of the array that the code indexes; `stuck` is a loop of the
-- model that ran out of rounds.
pub data Result {ℓ} (A : Type ℓ) : Type ℓ where
  ok : A → Result A
  fault stuck : Result A

-- The map in memory and the two counters of the loop.
pub record Loading : Type 0 where
  pub map : Grid
  pub rows : ℕ
  pub cols : ℕ

-- strncpy(map[r], text, strlen(text)).
abbrev pub copy_text : Grid → ℕ → Bytes → Grid
copy_text m r text = λ i j. if i == r && ltb j (length text) then get_or text j 0 else m i j

-- The body of the loop, for the text of one line: the copy and the NUL behind it stay in the row
-- only if the text is shorter than MAX_COLS.
unfoldable pub add_line : Loading → Bytes → Result Loading
add_line s text =
    if leb max_cols (length text)
    then fault
    else ok (record {
      map = write (copy_text s.map s.rows text) s.rows (length text) 0;
      rows = s.rows + 1;
      cols = if ltb s.cols (length text) then length text else s.cols;
    })

-- `while (fgets(buffer, sizeof(buffer), file) && rows < MAX_ROWS)`.
unfoldable pub load_lines : ℕ → Bytes → Loading → Result Loading
load_lines zero file s = stuck
load_lines (suc rounds) file s = elim (fgets (max_cols + 2) file) [
  | none ↦ ok s
  | some (buffer, rest) ↦ elim (ltb s.rows max_rows) [
    | true ↦ elim (add_line s (chop_newline (until_nul buffer))) [
      | ok s' ↦ load_lines rounds rest s'
      | fault ↦ fault
      | stuck ↦ stuck
    ]
    | false ↦ ok s
  ]
]

-- The tests after the loop.
unfoldable pub finish_load : Labyrinth → Loading → Bool × Labyrinth
finish_load lab s =
    if s.rows == 0 || s.cols == 0
    then (false, record lab { map = s.map })
    else if ltb max_rows s.rows || ltb max_cols s.cols
    then (false, record lab { map = s.map })
    else (true, record { map = s.map; rows = s.rows; cols = s.cols })

-- `none` is a file that cannot be opened; `lab` holds what the memory held before.
unfoldable pub load_map : Labyrinth → Option Bytes → Result (Bool × Labyrinth)
unfolding finish_load
load_map lab none = ok (false, lab)
load_map lab (some file) =
    elim (load_lines (max_rows + 1) file (record { map = lab.map; rows = 0; cols = 0 })) [
      | ok s ↦ ok (finish_load lab s)
      | fault ↦ fault
      | stuck ↦ stuck
    ]

-- The inner loop of `saveMap`, at column j with `left` columns to go.
unfoldable pub save_row : (ℕ → ℕ) → ℕ → ℕ → Bytes
save_row cells j zero = []
save_row cells j (suc left) = cells j ∷ save_row cells (j + 1) left

unfoldable pub save_rows : Grid → ℕ → ℕ → ℕ → Bytes
unfolding save_row
save_rows m cols i zero = []
save_rows m cols i (suc left) = save_row (m i) 0 cols ++ newline ∷ save_rows m cols (i + 1) left

-- The new contents of the file, if it can be opened for writing.
unfoldable pub save_map : Labyrinth → Bool → Option Bytes
unfolding save_rows
save_map lab true = some (save_rows lab.map lab.cols 0 lab.rows)
save_map lab false = none
