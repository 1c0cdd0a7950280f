-- ===== src/Hanoi.antt =====
-- course_code/lecture_2/hanoi(not_understand)/hanoi-r.c: the recursive towers of Hanoi. What the
-- program prints is a list of moves.
pub mod Solution
pub mod Frames
pub mod Staged
mod Tests
use jyyos.Prelude.{
  ℕ, zero, suc, ◌+◌, ◌-◌, ◌^◌, ltb, ◌==◌, if◌then◌else◌, Option, none, some, List, [], ◌∷◌, ◌++◌,
}

-- A printed line: the rods that it names.
pub record Move : Type 0 where
  pub from : ℕ
  pub to : ℕ

abbrev pub move : ℕ → ℕ → Move
move a b = record { from = a; to = b }

abbrev pub chain {ℓ κ} : {A : Type ℓ} {B : Type κ} → Option A → (A → Option B) → Option B
chain none f = none
chain (some a) f = f a

-- Above INT_MAX an int has no value.
abbrev pub int_limit : ℕ
int_limit = 2 ^ 31

-- c1 + c2 + 1, if the ints do not overflow.
abbrev pub count_of : ℕ → ℕ → Option ℕ
count_of c1 c2 = if ltb (c1 + c2 + 1) int_limit then some (c1 + c2 + 1) else none

-- The returned count and the printed moves; the fuel is the depth of the calls. None is the fuel
-- running out or the count overflowing.
unfoldable pub hanoi : ℕ → ℕ → ℕ → ℕ → ℕ → Option (ℕ × List Move)
hanoi zero n from to via = none
hanoi (suc fuel) n from to via =
    let rest = chain (hanoi fuel (n - 1) from via to) λ (c1, left).
      chain (hanoi fuel 1 from to via) λ (c, middle).
        chain (hanoi fuel (n - 1) via to from)
          λ (c2, right). chain (count_of c1 c2) λ total. some (total, left ++ (middle ++ right)) in
    if n == 1 then some (1, move from to ∷ []) else rest
