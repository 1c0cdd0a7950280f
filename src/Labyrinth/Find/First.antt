-- ===== src/Labyrinth/Find/First.antt =====
-- labyrinth.c, findPlayer and findFirstEmptySpace: the search returns the first hit in row-major
-- order, and (-1, -1) exactly when there is none.
use jyyos.Prelude.{ℕ, zero, suc, ◌+◌, ◌<◌, ◌≤◌, ◌≡◌, ◌⊎◌, inl, inr, Bool, true, false, ◌==◌}
use jyyos.Prelude.{Option, none, some, arith, Bool-cases}
use jyyos.Labyrinth.{Labyrinth, Position, nowhere, here}
use jyyos.Labyrinth.Find.{scan_row, scan_rows, find_player, find_first_empty_space}

-- p comes before (i, j) in row-major order.
abbrev pub Before : ℕ → ℕ → ℕ → ℕ → Type 0
Before i' j' i j = (i' < i) ⊎ (i' ≡ i) × (j' < j)

-- What a row-major search promises: the first cell that passes, or none passes.
pub data Searched (test : ℕ → ℕ → Bool) (rows cols : ℕ) : Position → Type 0 where
  found :
      (i j : ℕ)
      → i < rows
      → j < cols
      → test i j ≡ true
      → ((i' j' : ℕ) → Before i' j' i j → j' < cols → test i' j' ≡ false)
      → Searched test rows cols (here i j)
  absent : ((i j : ℕ) → i < rows → j < cols → test i j ≡ false) → Searched test rows cols nowhere

pub data RowSearched (test : ℕ → Bool) (from cols : ℕ) : Option ℕ → Type 0 where
  hit :
      (j : ℕ)
      → from ≤ j
      → j < cols
      → test j ≡ true
      → ((j' : ℕ) → from ≤ j' → j' < j → test j' ≡ false)
      → RowSearched test from cols (some j)
  miss : ((j : ℕ) → from ≤ j → j < cols → test j ≡ false) → RowSearched test from cols none

RowSearched-later :
    (test : ℕ → Bool) (j cols : ℕ) {o : Option ℕ}
    → test j ≡ false
    → RowSearched test (j + 1) cols o
    → RowSearched test j cols o
RowSearched-later test j cols f (hit k lo hi t before) =
    hit k (omega arith) hi t (λ k' h l. Step k' h (λ h'. before k' h' l))
  where
    Step : (k' : ℕ) → j ≤ k' → (j + 1 ≤ k' → test k' ≡ false) → test k' ≡ false
    Step k' h rest = grind arith
RowSearched-later test j cols f (miss all) = miss (λ k h l. grind (arith, all))

Clear-suc :
    (test : ℕ → ℕ → Bool) (cols i : ℕ)
    → ((i' j' : ℕ) → i' < i → j' < cols → test i' j' ≡ false)
    → ((j' : ℕ) → 0 ≤ j' → j' < cols → test i j' ≡ false)
    → (i' j' : ℕ) → i' < i + 1
    → j' < cols
    → test i' j' ≡ false
Clear-suc test cols i before clear i' j' hi hj = grind (arith, before, clear)

-- One round of the outer loop.
Searched-row :
    (test : ℕ → ℕ → Bool) (rows cols i : ℕ) (o : Option ℕ) (later : Position)
    → i < rows
    → ((i' j' : ℕ) → i' < i → j' < cols → test i' j' ≡ false)
    → RowSearched (test i) 0 cols o
    → (((j' : ℕ) → 0 ≤ j' → j' < cols → test i j' ≡ false) → Searched test rows cols later)
    → Searched test rows cols (elim o [ some j ↦ here i j | none ↦ later ])
Searched-row test rows cols i (some j) later hi before (hit _ lo hj t first) rest =
    found i j hi hj t (λ i' j' b hj'. grind (arith, before, first))
Searched-row test rows cols i none later hi before (miss all) rest = rest all

scan_row-RowSearched :
    (test : ℕ → Bool) (j left cols : ℕ)
    → j + left ≡ cols
    → RowSearched test j cols (scan_row test j left)
unfolding scan_row
scan_row-RowSearched test j zero cols e = miss (λ k h l. absurd (omega arith))
scan_row-RowSearched test j (suc left) cols e = elim (Bool-cases (test j)) [
  | inl t ↦ rw t (hit j (omega arith) (omega arith) t (λ k h l. absurd (omega arith)))
  | inr f ↦
      rw f (
        RowSearched-later test j cols f (scan_row-RowSearched test (j + 1) left cols (omega arith)))
]

pub scan_rows-Searched :
    (test : ℕ → ℕ → Bool) (cols i left rows : ℕ)
    → i + left ≡ rows
    → ((i' j' : ℕ) → i' < i → j' < cols → test i' j' ≡ false)
    → Searched test rows cols (scan_rows test cols i left)
unfolding scan_rows
scan_rows-Searched test cols i zero rows e before =
    absent (λ i' j' hi hj. before i' j' (omega arith) hj)
scan_rows-Searched test cols i (suc left) rows e before =
    Searched-row test rows cols i (scan_row test' 0 cols) _ (omega arith) before
      (scan_row-RowSearched test' 0 cols cols (omega arith))
      (λ clear.
        scan_rows-Searched test cols (i + 1) left rows (omega arith)
          (Clear-suc test cols i before clear))
  where
    test' : ℕ → Bool
    test' = test i

-- findPlayer returns the first cell of the map that holds the player, in row-major order, and
-- (-1, -1) if no cell does.
pub find_player-Searched :
    (lab : Labyrinth) (id : ℕ)
    → Searched (λ i j. lab.map i j == id) lab.rows lab.cols (find_player lab id)
unfolding find_player
find_player-Searched lab id =
    scan_rows-Searched (λ i j. lab.map i j == id) lab.cols 0 lab.rows lab.rows (omega arith)
      (λ i' j' h. absurd (omega arith))

-- findFirstEmptySpace returns the first '.' of the map in row-major order, and (-1, -1) if the map
-- has none.
pub find_first_empty_space-Searched :
    (lab : Labyrinth)
    → Searched (λ i j. lab.map i j == b'.') lab.rows lab.cols (find_first_empty_space lab)
unfolding find_first_empty_space
find_first_empty_space-Searched lab =
    scan_rows-Searched (λ i j. lab.map i j == b'.') lab.cols 0 lab.rows lab.rows (omega arith)
      (λ i' j' h. absurd (omega arith))
