-- ===== src/Labyrinth/Storage/RoundTrip.antt =====
-- labyrinth.c, saveMap and then loadMap: the map comes back.
use jyyos.Prelude.{ℕ, zero, suc, ◌+◌, ◌<◌, ◌≤◌, ◌≡◌, ◌≢◌, refl, ◌∙◌, ap, ◌⊎◌, Bool, true, arith}
use jyyos.Prelude.{inl, inr, subst, if◌then◌else◌, ltb, some, List, [], ◌∷◌, ◌++◌, length, get_or}
use jyyos.Prelude.CText.{Bytes, newline, IsLine}
use jyyos.Labyrinth.{Labyrinth, Grid, max_rows, max_cols}
use jyyos.Labyrinth.Storage.{Result, ok, save_row, save_rows, save_map, load_map}
use jyyos.Labyrinth.Storage.Lines.{unlines, AllFit, Holds, widest}
use jyyos.Labyrinth.Storage.Load.{LoadedMap, load_map-LoadedMap}

-- The lines that saveMap writes, from row i on.
abbrev text_rows : Grid → ℕ → ℕ → ℕ → List Bytes
text_rows m cols i zero = []
text_rows m cols i (suc left) = save_row (m i) 0 cols ∷ text_rows m cols (i + 1) left

save_rows-unlines :
    (m : Grid) (cols i left : ℕ) → save_rows m cols i left ≡ unlines (text_rows m cols i left)
unfolding save_rows
save_rows-unlines m cols i zero = refl
save_rows-unlines m cols i (suc left) =
    ap (λ t. save_row (m i) 0 cols ++ newline ∷ t) (save_rows-unlines m cols (i + 1) left)

length-text_rows : (m : Grid) (cols i left : ℕ) → length (text_rows m cols i left) ≡ left
length-text_rows m cols i zero = refl
length-text_rows m cols i (suc left) = ap suc (length-text_rows m cols (i + 1) left)

length-save_row : (cells : ℕ → ℕ) (j left : ℕ) → length (save_row cells j left) ≡ left
unfolding save_row
length-save_row cells j zero = refl
length-save_row cells j (suc left) = ap suc (length-save_row cells (j + 1) left)

get_or-save_row :
    (cells : ℕ → ℕ) (j left k : ℕ) → k < left → get_or (save_row cells j left) k 0 ≡ cells (j + k)
unfolding save_row
get_or-save_row cells j zero k h = absurd (omega arith)
get_or-save_row cells j (suc left) zero h = ap cells (omega arith)
get_or-save_row cells j (suc left) (suc k) h =
    get_or-save_row cells (j + 1) left k (omega arith) ∙ ap cells (omega arith)

save_row-IsLine :
    (cells : ℕ → ℕ) (j left : ℕ)
    → ((k : ℕ) → k < j + left → (cells k ≢ 0) × (cells k ≢ newline))
    → IsLine (save_row cells j left)
unfolding save_row
save_row-IsLine cells j zero h = tt
save_row-IsLine cells j (suc left) h = (
  (h j (omega arith)).0,
  (h j (omega arith)).1,
  save_row-IsLine cells (j + 1) left (λ k l. h k (omega arith)),
)

-- A map that can be written as lines: not empty, no wider than a row less its NUL, and with no NUL
-- or newline in its cells.
pub record IsSavable (lab : Labyrinth) : Type 0 where
  pub some_rows : 0 < lab.rows
  pub rows_fit : lab.rows ≤ max_rows
  pub some_cols : 0 < lab.cols
  pub cols_fit : lab.cols < max_cols
  pub cells : (i j : ℕ) → i < lab.rows → j < lab.cols → (lab.map i j ≢ 0) × (lab.map i j ≢ newline)

text_rows-AllFit :
    (m : Grid) (cols i left : ℕ)
    → cols < max_cols
    → ((a j : ℕ) → a < i + left → j < cols → (m a j ≢ 0) × (m a j ≢ newline))
    → AllFit (text_rows m cols i left)
text_rows-AllFit m cols i zero c h = tt
text_rows-AllFit m cols i (suc left) c h = (
  (
    save_row-IsLine (m i) 0 cols (λ k l. h i k (omega arith) (omega arith)),
    omega (arith, length-save_row (m i) 0 cols),
  ),
  text_rows-AllFit m cols (i + 1) left c (λ a j l. h a j (omega arith)),
)

wider_self : (w : ℕ) → (if ltb w w then w else w) ≡ w
wider_self w = ground arith

wider_zero : (w : ℕ) → (if ltb 0 w then w else 0) ≡ w
wider_zero w = ground arith

widest-text_rows : (m : Grid) (cols i n left : ℕ) → widest cols n (text_rows m cols i left) ≡ cols
widest-text_rows m cols i zero left = refl
widest-text_rows m cols i (suc n) zero = refl
widest-text_rows m cols i (suc n) (suc left) =
    rw (length-save_row (m i) 0 cols, wider_self cols) (widest-text_rows m cols (i + 1) n left)

widest-text_rows_first :
    (m : Grid) (cols n left : ℕ) → 0 < left → 0 < n → widest 0 n (text_rows m cols 0 left) ≡ cols
widest-text_rows_first m cols zero left h k = elim k [ ]
widest-text_rows_first m cols (suc n) zero h k = elim h [ ]
widest-text_rows_first m cols (suc n) (suc left) h k =
    rw (length-save_row (m 0) 0 cols, wider_zero cols) (widest-text_rows m cols 1 n left)

Holds-text_rows :
    (m m' : Grid) (cols i left : ℕ)
    → Holds m' i (text_rows m cols i left)
    → i + left ≤ max_rows
    → (a j : ℕ) → i ≤ a
    → a < i + left
    → j < cols
    → m' a j ≡ m a j
Holds-text_rows m m' cols i zero h r a j lo hi k = absurd (omega arith)
Holds-text_rows m m' cols i (suc left) (row, rest) r a j lo hi k = elim (first_or_later i a lo) [
  | inl e ↦ subst (λ b. m' b j ≡ m b j) e first
  | inr later ↦ Holds-text_rows m m' cols (i + 1) left rest (omega arith) a j later (omega arith) k
]
  where
    first : m' i j ≡ m i j
    first =
        (row (omega arith)).0 j (rw (length-save_row (m i) 0 cols) k)
        ∙ get_or-save_row (m i) 0 cols j k
        ∙ ap (m i) (omega arith)

    first_or_later : (i a : ℕ) → i ≤ a → (i ≡ a) ⊎ (i + 1 ≤ a)
    first_or_later i a h = omega arith

-- Loading gives the map back: it succeeds, with the same rows and columns and the same cells.
pub record Restores (lab : Labyrinth) (result : Result (Bool × Labyrinth)) : Type 0 where
  pub out : Labyrinth
  pub returns : result ≡ ok (true, out)
  pub rows : out.rows ≡ lab.rows
  pub cols : out.cols ≡ lab.cols
  pub cells : (i j : ℕ) → i < lab.rows → j < lab.cols → out.map i j ≡ lab.map i j

save_map-unlines :
    (lab : Labyrinth) → save_map lab true ≡ some (unlines (text_rows lab.map lab.cols 0 lab.rows))
unfolding save_map
save_map-unlines lab = ap some (save_rows-unlines lab.map lab.cols 0 lab.rows)

-- What saveMap writes of a savable map, loadMap reads back as the same map, whatever the memory
-- that it loads into holds.
pub load_map-save_map :
    (lab memory : Labyrinth) → IsSavable lab → Restores lab (load_map memory (save_map lab true))
load_map-save_map lab memory v = rw (save_map-unlines lab) (record {
  out = l.out;
  returns = l.returns;
  rows = omega (arith, l.rows, length-text_rows lab.map lab.cols 0 lab.rows, v.rows_fit);
  cols = l.cols ∙ wide;
  cells = λ i j hi hj.
      Holds-text_rows lab.map l.out.map lab.cols 0 lab.rows l.holds (omega (arith, v.rows_fit)) i j
        (omega arith) (omega arith) hj;
})
  where
    wide : widest 0 max_rows (text_rows lab.map lab.cols 0 lab.rows) ≡ lab.cols
    wide = widest-text_rows_first lab.map lab.cols max_rows lab.rows v.some_rows (omega arith)

    l :
        LoadedMap
          (text_rows lab.map lab.cols 0 lab.rows)
          (load_map memory (some (unlines (text_rows lab.map lab.cols 0 lab.rows))))
    l =
        load_map-LoadedMap memory (text_rows lab.map lab.cols 0 lab.rows)
          (text_rows-AllFit lab.map lab.cols 0 lab.rows v.cols_fit
            (λ a j h k. v.cells a j (omega arith) k))
          (omega (arith, wide, v.some_cols))
