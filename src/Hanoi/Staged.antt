-- ===== src/Hanoi/Staged.antt =====
-- hanoi-o3mini.c: the same moves from a stack of 1000 frames with a stage each.
pub mod Runs
use jyyos.Prelude.{
  ℕ, zero, suc, ◌+◌, ◌-◌, ltb, ◌&&◌, ◌==◌, if◌then◌else◌, List, [], ◌∷◌, ◌++◌, length,
}
use jyyos.Hanoi.{Move, move}

pub record Frame : Type 0 where
  pub n : ℕ
  pub from : ℕ
  pub aux : ℕ
  pub to : ℕ
  pub stage : ℕ

abbrev pub stack_size : ℕ
stack_size = 1000

-- The stack, the top frame first, and what is printed.
pub record Machine : Type 0 where
  pub stack : List Frame
  pub printed : List Move

-- The loop ends; push ends the program with "Stack overflow!"; a round.
pub data Step : Type 0 where
  finished overflowed : Step
  running : Machine → Step

-- push, on the frames that are there.
abbrev pub push : Frame → List Frame → List Move → Step
push f stack printed =
    if ltb (length stack) stack_size
    then running (record { stack = f ∷ stack; printed = printed })
    else overflowed

unfoldable pub step : List Frame → List Move → Step
step [] printed = finished
step (f ∷ rest) printed =
    if f.n == 1 && f.stage == 0
    then running (record { stack = rest; printed = printed ++ move f.from f.to ∷ [] })
    else if f.stage == 0
    then push (record { n = f.n - 1; from = f.from; aux = f.to; to = f.aux; stage = 0 })
        (record f { stage = 1 } ∷ rest) printed
    else if f.stage == 1
    then push (record { n = f.n - 1; from = f.aux; aux = f.from; to = f.to; stage = 0 })
        (record f { stage = 2 } ∷ rest) (printed ++ move f.from f.to ∷ [])
    else running (record { stack = rest; printed = printed })

pub data Result : Type 0 where
  returned : List Move → Result
  overflow stuck : Result

unfoldable pub run : ℕ → Machine → Result
run zero m = stuck
run (suc fuel) m = elim (step m.stack m.printed) [
  | finished ↦ returned m.printed
  | overflowed ↦ overflow
  | running m' ↦ run fuel m'
]

-- hanoi on the empty stack, where the first push fits.
unfoldable pub hanoi_staged : ℕ → ℕ → ℕ → ℕ → ℕ → Result
hanoi_staged fuel n from aux to = run fuel (record {
  stack = record { n = n; from = from; aux = aux; to = to; stage = 0 } ∷ [];
  printed = [];
})
