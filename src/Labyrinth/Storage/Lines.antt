-- ===== src/Labyrinth/Storage/Lines.antt =====
-- labyrinth.c, loadMap: the loop on a file that is a list of lines.
use jyyos.Prelude.{ℕ, zero, suc, ◌+◌, ◌-◌, ◌<◌, ◌≤◌, ◌≡◌, refl, ◌∙◌, ◌⊎◌, inl, inr, false}
use jyyos.Prelude.{ltb, lt→ltb, if◌then◌else◌, arith, Bool-cases}
use jyyos.Prelude.{List, [], ◌∷◌, ◌++◌, length, get_or}
use jyyos.Prelude.CText.{Bytes, newline, IsLine, fgets}
use jyyos.Prelude.CText.{fgets-line, until_nul-line, chop_newline-line}
pub use jyyos.Prelude.CText.{unlines}
use jyyos.Labyrinth.{Grid, write, max_rows, max_cols}
use jyyos.Labyrinth.Storage.{Result, ok, Loading, copy_text, add_line, load_lines}

-- A line that fits in a row of the array with the NUL behind it.
abbrev pub IsFitting : Bytes → Type 0
IsFitting l = IsLine l × (length l < max_cols)

abbrev pub AllFit : List Bytes → Type 0
AllFit [] = Unit {0}
AllFit (l ∷ ls) = IsFitting l × AllFit ls

-- The row i of the array starts with the text l and a NUL.
abbrev pub RowHolds : Grid → ℕ → Bytes → Type 0
RowHolds m i l = ((j : ℕ) → j < length l → m i j ≡ get_or l j 0) × (m i (length l) ≡ 0)

-- The rows from i on hold the lines, up to the last row of the array.
abbrev pub Holds : Grid → ℕ → List Bytes → Type 0
Holds m i [] = Unit {0}
Holds m i (l ∷ ls) = (i < max_rows → RowHolds m i l) × Holds m (i + 1) ls

-- The length of the longest of the first n lines, or w if that is more.
abbrev pub widest : ℕ → ℕ → List Bytes → ℕ
widest w zero ls = w
widest w (suc n) [] = w
widest w (suc n) (l ∷ ls) = widest (if ltb w (length l) then length l else w) n ls

widest-nil : (w n : ℕ) → w ≡ widest w n []
widest-nil w zero = refl
widest-nil w (suc n) = refl

-- What the loop makes of the state s and the lines that are left.
pub record Loads (s : Loading) (ls : List Bytes) (result : Result Loading) : Type 0 where
  pub out : Loading
  pub returns : result ≡ ok out
  pub earlier : (i j : ℕ) → i < s.rows → out.map i j ≡ s.map i j
  pub holds : Holds out.map s.rows ls
  pub rows :
      (out.rows ≡ s.rows + length ls) ⊎ (max_rows ≤ s.rows + length ls) × (out.rows ≡ max_rows)
  pub small : out.rows ≤ max_rows
  pub cols : out.cols ≡ widest s.cols (max_rows - s.rows) ls

-- The state after a line that fits.
abbrev pub put_line : Loading → Bytes → Loading
put_line s l = record {
  map = write (copy_text s.map s.rows l) s.rows (length l) 0;
  rows = s.rows + 1;
  cols = if ltb s.cols (length l) then length l else s.cols;
}

add_line-put_line :
    (s : Loading) (l : Bytes) → length l < max_cols → add_line s l ≡ ok (put_line s l)
unfolding add_line
add_line-put_line s l h = ground arith

put_line-RowHolds : (s : Loading) (l : Bytes) → RowHolds (put_line s l).map s.rows l
put_line-RowHolds s l = (λ j h. ground arith, ground arith)

put_line-earlier :
    (s : Loading) (l : Bytes) (i j : ℕ) → i < s.rows → (put_line s l).map i j ≡ s.map i j
put_line-earlier s l i j h = ground arith

-- One round of the loop.
pub load_lines-suc :
    (rounds : ℕ) (s : Loading) (l rest : Bytes)
    → IsFitting l
    → s.rows < max_rows
    → load_lines (suc rounds) (l ++ newline ∷ rest) s ≡ load_lines rounds rest (put_line s l)
unfolding load_lines
load_lines-suc rounds s l rest (h, k) room = rw (
  fgets-line 102 l rest h (omega arith),
  lt→ltb s.rows max_rows room,
  until_nul-line l h,
  chop_newline-line l,
  add_line-put_line s l k,
  load_lines,
)

-- The round that finds the array full.
load_lines-full :
    (rounds : ℕ) (s : Loading) (l rest : Bytes)
    → IsFitting l
    → max_rows ≤ s.rows
    → load_lines (suc rounds) (l ++ newline ∷ rest) s ≡ ok s
unfolding load_lines
load_lines-full rounds s l rest (h, k) full =
    let no_room : ltb s.rows max_rows ≡ false = ground arith in
    rw (fgets-line 102 l rest h (omega arith), no_room, load_lines)

Holds-full : (m : Grid) (i : ℕ) (ls : List Bytes) → max_rows ≤ i → Holds m i ls
Holds-full m i [] h = tt
Holds-full m i (l ∷ ls) h = (λ k. absurd (omega arith), Holds-full m (i + 1) ls (omega arith))

Loads-full :
    (s : Loading) (l : Bytes) (ls : List Bytes) → s.rows ≡ max_rows → Loads s (l ∷ ls) (ok s)
Loads-full s l ls full = record {
  out = s;
  returns = refl;
  earlier = λ i j h. refl;
  holds = Holds-full s.map s.rows (l ∷ ls) (omega arith);
  rows = inr (omega arith, full);
  small = omega arith;
  cols = rw full;
}

Loads-put :
    (s : Loading) (l : Bytes) (ls : List Bytes) {result : Result Loading}
    → s.rows < max_rows
    → Loads (put_line s l) ls result
    → Loads s (l ∷ ls) result
Loads-put s l ls room rest = record {
  out = rest.out;
  returns = rest.returns;
  earlier = λ i j h. rest.earlier i j (omega arith) ∙ put_line-earlier s l i j h;
  holds = (λ _. (first.0, first.1), rest.holds);
  rows = ground (arith, rest.rows);
  small = rest.small;
  cols = rw left rest.cols;
}
  where
    first : RowHolds rest.out.map s.rows l
    first = (
      λ j h. rest.earlier s.rows j (omega arith) ∙ (put_line-RowHolds s l).0 j h,
      rest.earlier s.rows (length l) (omega arith) ∙ (put_line-RowHolds s l).1,
    )

    left : max_rows - s.rows ≡ suc (max_rows - (s.rows + 1))
    left = omega arith

-- On a file of lines that fit the loop ends by its own tests, with its rows and columns counted,
-- and with the first lines of the file in the rows of the array.
pub load_lines-Loads :
    (rounds : ℕ) (s : Loading) (ls : List Bytes)
    → AllFit ls
    → s.rows ≤ max_rows
    → max_rows < rounds + s.rows
    → Loads s ls (load_lines rounds (unlines ls) s)
unfolding load_lines fgets
load_lines-Loads zero s ls fit small enough = absurd (omega arith)
load_lines-Loads (suc rounds) s [] fit small enough = record {
  out = s;
  returns = refl;
  earlier = λ i j h. refl;
  holds = tt;
  rows = inl (omega arith);
  small = small;
  cols = widest-nil s.cols (max_rows - s.rows);
}
load_lines-Loads (suc rounds) s (l ∷ ls) (fit, fits) small enough =
    elim (Bool-cases (ltb s.rows max_rows)) [
      | inl room ↦
          let r : s.rows < max_rows = ground arith in
          rw (load_lines-suc rounds s l (unlines ls) fit r) (
            Loads-put s l ls r
              (load_lines-Loads rounds (put_line s l) ls fits (omega arith) (omega arith)))
      | inr full ↦
          let f : s.rows ≡ max_rows = ground arith in
          rw (load_lines-full rounds s l (unlines ls) fit (omega arith)) (Loads-full s l ls f)
    ]
