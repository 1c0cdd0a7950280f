-- ===== src/Hanoi/Solution.antt =====
-- hanoi-r.c: the moves of n discs, and how many they are.
pub mod Puzzle
use jyyos.Prelude.{
  ℕ, zero, suc, ◌+◌, ◌-◌, ◌*◌, ◌^◌, ◌≤◌, ◌<◌, ◌≡◌, refl, ◌∙◌, ap, subst, false, lt→ltb, arith, ◌==◌,
  if◌then◌else◌,
}
use jyyos.Prelude.{Option, none, some, List, [], ◌∷◌, ◌++◌, length, length-append}
use native.Mathlib.Nat.{two-pow-succ, pow-le-pow_right}
use jyyos.Hanoi.{Move, move, chain, int_limit, count_of, hanoi}

-- The solution by recursion on the number of discs.
abbrev pub solution : ℕ → ℕ → ℕ → ℕ → List Move
solution zero from to via = []
solution (suc n) from to via = solution n from via to ++ move from to ∷ solution n via to from

-- The number of its moves.
abbrev pub count : ℕ → ℕ
count zero = 0
count (suc n) = count n + count n + 1

pub count_pow : (n : ℕ) → count n + 1 ≡ 2 ^ n
count_pow zero = refl
count_pow (suc n) = omega (arith, count_pow n, two-pow-succ n)

pub length-solution : (n from to via : ℕ) → length (solution n from to via) ≡ count n
length-solution zero from to via = refl
length-solution (suc n) from to via = omega (
  arith,
  length-append (solution n from via to) (move from to ∷ solution n via to from),
  length-solution n from via to,
  length-solution n via to from,
)

hanoi_more :
    (fuel n from to via c1 c c2 : ℕ) (left middle right : List Move)
    → (n == 1) ≡ false
    → hanoi fuel (n - 1) from via to ≡ some (c1, left)
    → hanoi fuel 1 from to via ≡ some (c, middle)
    → hanoi fuel (n - 1) via to from ≡ some (c2, right)
    → c1 + c2 + 1 < int_limit
    → hanoi (suc fuel) n from to via ≡ some (c1 + c2 + 1, left ++ (middle ++ right))
unfolding hanoi
hanoi_more fuel n from to via c1 c c2 left middle right e l m r small =
    rw (e, l, m, r, lt→ltb (c1 + c2 + 1) int_limit small) refl

hanoi_one : (fuel from to via : ℕ) → hanoi (suc fuel) 1 from to via ≡ some (1, move from to ∷ [])
unfolding hanoi
hanoi_one fuel from to via = refl

hanoi-count :
    (k fuel from to via : ℕ)
    → suc k ≤ fuel
    → count (suc k) < int_limit
    → hanoi fuel (suc k) from to via ≡ some (count (suc k), solution (suc k) from to via)
hanoi-count k zero from to via deep small = absurd (omega arith)
hanoi-count zero (suc fuel) from to via deep small = hanoi_one fuel from to via
hanoi-count (suc k) (suc zero) from to via deep small = absurd (omega arith)
hanoi-count (suc k) (suc (suc fuel)) from to via deep small =
    let smaller : suc k ≡ suc (suc k) - 1 = omega arith in
    hanoi_more (suc fuel) (suc (suc k)) from to via (count (suc k)) 1 (count (suc k))
      (solution (suc k) from via to) (move from to ∷ []) (solution (suc k) via to from)
      (ground arith)
      (subst
        (λ n. hanoi (suc fuel) n from via to ≡ some (count (suc k), solution (suc k) from via to))
        smaller (hanoi-count k (suc fuel) from via to (omega arith) (omega arith)))
      (hanoi_one fuel from to via)
      (subst
        (λ n. hanoi (suc fuel) n via to from ≡ some (count (suc k), solution (suc k) via to from))
        smaller (hanoi-count k (suc fuel) via to from (omega arith) (omega arith)))
      small

-- The count of up to 31 discs is an int.
pub count-int : (k : ℕ) → k < 31 → count (suc k) < int_limit
count-int k few = omega (
  arith,
  count_pow (suc k),
  pow-le-pow_right {n = 2} (omega arith) {i = suc k} {j = 31} (omega arith),
)

-- For 1 to 31 discs, with calls as deep as there are discs, hanoi returns 2 ^ n - 1, prints as
-- many moves, and they are the solution by recursion on the number of discs.
pub hanoi-solution :
    (fuel n from to via : ℕ)
    → 0 < n
    → n ≤ fuel
    → n < 32
    → hanoi fuel n from to via ≡ some (2 ^ n - 1, solution n from to via)
hanoi-solution fuel zero from to via pos deep few = absurd (omega arith)
hanoi-solution fuel (suc k) from to via pos deep few =
    hanoi-count k fuel from to via deep (count-int k (omega arith))
    ∙ ap (λ c. some (c, solution (suc k) from to via)) (omega (arith, count_pow (suc k)))
