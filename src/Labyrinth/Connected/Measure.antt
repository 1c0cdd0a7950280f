-- ===== src/Labyrinth/Connected/Measure.antt =====
-- labyrinth.c, dfs: the number of cells not yet visited, which bounds the depth of the recursion.
use jyyos.Prelude.{ℕ, zero, suc, ◌+◌, ◌*◌, ◌<◌, ◌≤◌, ◌≡◌, refl, Bool, true, false}
use jyyos.Prelude.{if◌then◌else◌, arith}

-- How many of the first n places are false.
unfoldable pub count_false : (ℕ → Bool) → ℕ → ℕ
count_false f zero = 0
count_false f (suc n) = (if f n then 0 else 1) + count_false f n

-- The cells of the first `rows` rows and `cols` columns that are not visited.
unfoldable pub unseen : (ℕ → ℕ → Bool) → ℕ → ℕ → ℕ
unseen vis cols zero = 0
unseen vis cols (suc rows) = count_false (vis rows) cols + unseen vis cols rows

abbrev pub Grows : (ℕ → ℕ → Bool) → (ℕ → ℕ → Bool) → Type 0
Grows vis vis' = (i j : ℕ) → vis i j ≡ true → vis' i j ≡ true

count_false_mono :
    (f g : ℕ → Bool) (n : ℕ)
    → ((k : ℕ) → f k ≡ true → g k ≡ true)
    → count_false g n ≤ count_false f n
unfolding count_false
count_false_mono f g zero h = omega arith
count_false_mono f g (suc n) h = ground (arith, h n, count_false_mono f g n h)

count_false_lt :
    (f g : ℕ → Bool) (n k : ℕ)
    → ((k : ℕ) → f k ≡ true → g k ≡ true)
    → k < n
    → f k ≡ false
    → g k ≡ true
    → count_false g n < count_false f n
unfolding count_false
count_false_lt f g zero k h lt a b = absurd (omega arith)
count_false_lt f g (suc n) k h lt a b =
    grind (arith, h n, count_false_mono f g n h, count_false_lt f g n k h)

pub unseen_mono :
    (vis vis' : ℕ → ℕ → Bool) (cols rows : ℕ)
    → Grows vis vis'
    → unseen vis' cols rows ≤ unseen vis cols rows
unfolding unseen
unseen_mono vis vis' cols zero h = omega arith
unseen_mono vis vis' cols (suc rows) h =
    omega (
      arith,
      unseen_mono vis vis' cols rows h,
      count_false_mono (vis rows) (vis' rows) cols (h rows),
    )

pub unseen_lt :
    (vis vis' : ℕ → ℕ → Bool) (cols rows i j : ℕ)
    → Grows vis vis'
    → i < rows
    → j < cols
    → vis i j ≡ false
    → vis' i j ≡ true
    → unseen vis' cols rows < unseen vis cols rows
unfolding unseen
unseen_lt vis vis' cols zero i j h hi hj a b = absurd (omega arith)
unseen_lt vis vis' cols (suc rows) i j h hi hj a b = grind (
  arith,
  unseen_mono vis vis' cols rows h,
  count_false_mono (vis rows) (vis' rows) cols (h rows),
  count_false_lt (vis rows) (vis' rows) cols j (h rows) hj,
  unseen_lt vis vis' cols rows i j h,
)

count_false_none : (n : ℕ) → count_false (λ k. false) n ≡ n
unfolding count_false
count_false_none zero = refl
count_false_none (suc n) = omega (arith, count_false_none n)

-- Before the flood every cell is unseen.
pub unseen_none : (cols rows : ℕ) → unseen (λ i j. false) cols rows ≡ rows * cols
unfolding unseen
unseen_none cols zero = omega arith
unseen_none cols (suc rows) = omega (arith, unseen_none cols rows, count_false_none cols)
