-- ===== src/Labyrinth/Storage/Overflow.antt =====
-- labyrinth.c, loadMap: a line that fills a row of the array, or more, is written past its end.
use jyyos.Prelude.{ℕ, zero, suc, ◌+◌, ◌-◌, ◌<◌, ◌≤◌, ◌≡◌, ◌≢◌, refl, ◌∙◌, ap, ◌⊎◌, inl, inr, false}
use jyyos.Prelude.{◌==◌, lt→ltb, arith, some, List, [], ◌∷◌, ◌++◌, length, get_or, take}
use jyyos.Prelude.{length-take}
use jyyos.Prelude.CText.{Bytes, newline, IsLine, until_nul, take_line, fgets, chop_newline}
use jyyos.Prelude.CText.{fgets-line, until_nul-line, chop_newline-line}
use jyyos.Labyrinth.{Labyrinth, max_rows, max_cols}
use jyyos.Labyrinth.Storage.{fault, Loading, add_line, load_lines, load_map}
use jyyos.Labyrinth.Storage.Lines.{AllFit, load_lines-suc, put_line}

take-IsLine : (n : ℕ) (l : Bytes) → IsLine l → IsLine (take n l)
take-IsLine zero l h = tt
take-IsLine (suc n) [] h = tt
take-IsLine (suc n) (b ∷ l) (z, nl, h) = (z, nl, take-IsLine n l h)

take_line-long :
    (n : ℕ) (l rest : Bytes) → IsLine l → n ≤ length l → (take_line n (l ++ rest)).0 ≡ take n l
unfolding take_line
take_line-long zero l rest h k = refl
take_line-long (suc n) [] rest h k = elim k [ ]
take_line-long (suc n) (b ∷ l) rest (z, nl, h) k = ground (arith, take_line-long n l rest h)

until_nul_self : (l : Bytes) → IsLine l → until_nul l ≡ l
unfolding until_nul
until_nul_self [] h = refl
until_nul_self (b ∷ l) (z, nl, h) = ground (arith, until_nul_self l h)

get_or-IsLine : (l : Bytes) (i : ℕ) → IsLine l → i < length l → get_or l i 0 ≢ newline
get_or-IsLine [] i h k = absurd (omega arith)
get_or-IsLine (b ∷ l) zero (z, nl, h) k = nl
get_or-IsLine (b ∷ l) (suc i) (z, nl, h) k = get_or-IsLine l i h (omega arith)

chop_newline_self : (l : Bytes) → IsLine l → chop_newline l ≡ l
unfolding chop_newline
chop_newline_self [] h = refl
chop_newline_self (b ∷ l) h =
    let kept : (get_or (b ∷ l) (length (b ∷ l) - 1) 0 == newline) ≡ false =
      ground (arith, get_or-IsLine (b ∷ l) (length (b ∷ l) - 1) h) in
    rw (kept, lt→ltb 0 (length (b ∷ l)) (omega arith))

-- A file with these lines and then a tail.
abbrev pub lines_then : List Bytes → Bytes → Bytes
lines_then [] tail = tail
lines_then (l ∷ ls) tail = l ++ newline ∷ lines_then ls tail

add_line-fault : (s : Loading) (text : Bytes) → max_cols ≤ length text → add_line s text ≡ fault
unfolding add_line
add_line-fault s text h = ground arith

load_lines-fault :
    (rounds : ℕ) (s : Loading) (file buffer rest : Bytes)
    → fgets (max_cols + 2) file ≡ some (buffer, rest)
    → s.rows < max_rows
    → max_cols ≤ length (chop_newline (until_nul buffer))
    → load_lines (suc rounds) file s ≡ fault
unfolding load_lines
load_lines-fault rounds s file buffer rest e room long =
    rw (e, lt→ltb s.rows max_rows room, add_line-fault s _ long, load_lines)

-- The line fills the row exactly.
load_lines-full_row :
    (rounds : ℕ) (s : Loading) (bad rest : Bytes)
    → IsLine bad
    → length bad ≡ max_cols
    → s.rows < max_rows
    → load_lines (suc rounds) (bad ++ newline ∷ rest) s ≡ fault
load_lines-full_row rounds s bad rest h e room =
    load_lines-fault rounds s (bad ++ newline ∷ rest) (bad ++ newline ∷ []) rest
      (fgets-line 102 bad rest h (omega arith)) room
      (rw (until_nul-line bad h, chop_newline-line bad) (omega arith))

fgets-long :
    (l rest : Bytes)
    → IsLine l
    → max_cols < length l
    → fgets (max_cols + 2) (l ++ rest) ≡ some (take 101 l, (take_line 101 (l ++ rest)).1)
unfolding fgets
fgets-long [] rest h k = absurd (omega arith)
fgets-long (b ∷ l) rest h k =
    ap (λ t. some (t, (take_line 101 (b ∷ l ++ rest)).1)) (take_line-long 101 (b ∷ l) rest h k)

-- The buffer holds only the first bytes of the line, which do not fit in the row either.
load_lines-long_row :
    (rounds : ℕ) (s : Loading) (bad rest : Bytes)
    → IsLine bad
    → max_cols < length bad
    → s.rows < max_rows
    → load_lines (suc rounds) (bad ++ newline ∷ rest) s ≡ fault
load_lines-long_row rounds s bad rest h k room =
    let part = take-IsLine 101 bad h in
    load_lines-fault rounds s (bad ++ newline ∷ rest) (take 101 bad)
      (take_line 101 (bad ++ newline ∷ rest)).1 (fgets-long bad (newline ∷ rest) h k) room
      (rw (until_nul_self (take 101 bad) part, chop_newline_self (take 101 bad) part)
        (omega (arith, length-take 101 bad)))

load_lines-overflow :
    (rounds : ℕ) (s : Loading) (ls : List Bytes) (bad rest : Bytes)
    → AllFit ls
    → IsLine bad
    → max_cols ≤ length bad
    → s.rows + length ls < max_rows
    → length ls < rounds
    → load_lines rounds (lines_then ls (bad ++ newline ∷ rest)) s ≡ fault
load_lines-overflow zero s ls bad rest fits h k room enough = absurd (omega arith)
load_lines-overflow (suc rounds) s [] bad rest fits h k room enough =
    elim (exact_or_more (length bad) k) [
      | inl e ↦ load_lines-full_row rounds s bad rest h e (omega arith)
      | inr more ↦ load_lines-long_row rounds s bad rest h more (omega arith)
    ]
  where
    exact_or_more : (n : ℕ) → max_cols ≤ n → (n ≡ max_cols) ⊎ (max_cols < n)
    exact_or_more n h = omega arith
load_lines-overflow (suc rounds) s (l ∷ ls) bad rest (fit, fits) h k room enough =
    load_lines-suc rounds s l (lines_then ls (bad ++ newline ∷ rest)) fit (omega arith)
    ∙ load_lines-overflow rounds (put_line s l) ls bad rest fits h k (omega arith) (omega arith)

-- If one of the first MAX_ROWS lines has MAX_COLS characters or more, and those before it fit, then
-- loadMap writes past the end of that line's row; this includes a line of exactly MAX_COLS
-- characters, which the test on the size of the map would let pass.
pub load_map_overflow :
    (lab : Labyrinth) (ls : List Bytes) (bad rest : Bytes)
    → AllFit ls
    → length ls < max_rows
    → IsLine bad
    → max_cols ≤ length bad
    → load_map lab (some (lines_then ls (bad ++ newline ∷ rest))) ≡ fault
unfolding load_map
load_map_overflow lab ls bad rest fits room h k = rw (
  load_lines-overflow (max_rows + 1) (record { map = lab.map; rows = 0; cols = 0 }) ls bad rest fits
      h k (omega arith) (omega arith),
  load_map,
)
