-- ===== src/Hanoi/Staged/Runs.antt =====
-- hanoi-o3mini.c: the stack machine prints the solution.
use jyyos.Prelude.{
  ℕ, zero, suc, ◌+◌, ◌-◌, ◌*◌, ◌^◌, ◌≤◌, ◌<◌, ◌≡◌, refl, ◌∙◌, ap, subst, arith, lt→ltb, ◌==◌,
}
use jyyos.Prelude.{List, [], ◌∷◌, ◌++◌, length, append_assoc, false}
use native.Mathlib.Nat.{two-pow-succ}
use jyyos.Hanoi.{Move, move}
use jyyos.Hanoi.Solution.{solution}
use jyyos.Hanoi.Staged.{Frame, Machine, running, returned, stack_size, step, run, hanoi_staged}

run-running :
    (fuel : ℕ) (m m' : Machine)
    → step m.stack m.printed ≡ running m'
    → run (suc fuel) m ≡ run fuel m'
unfolding run
run-running fuel m m' e = rw (run, e) refl

-- The rounds of the frames for k + 1 discs and `fuel` more.
abbrev spend : ℕ → ℕ → ℕ
spend zero fuel = suc fuel
spend (suc k) fuel = suc (spend k (suc (spend k (suc fuel))))

abbrev machine : List Frame → List Move → Machine
machine stack printed = record { stack = stack; printed = printed }

abbrev frame : ℕ → ℕ → ℕ → ℕ → ℕ → Frame
frame stage n from aux to = record { n = n; from = from; aux = aux; to = to; stage = stage }

step_one :
    (fuel from aux to : ℕ) (rest : List Frame) (p : List Move)
    → run (suc fuel) (machine (frame 0 1 from aux to ∷ rest) p)
      ≡ run fuel (machine rest (p ++ move from to ∷ []))
unfolding step
step_one fuel from aux to rest p =
    run-running fuel (machine (frame 0 1 from aux to ∷ rest) p)
      (machine rest (p ++ move from to ∷ [])) refl

module _ (n from aux to : ℕ) (rest : List Frame) (fuel : ℕ) (p : List Move) where
  step_end :
      (n == 1) ≡ false
      → run (suc fuel) (machine (frame 2 n from aux to ∷ rest) p) ≡ run fuel (machine rest p)
  unfolding step
  step_end e =
      run-running fuel (machine (frame 2 n from aux to ∷ rest) p) (machine rest p) (rw e refl)

  module _ (m : ℕ) (more : (n == 1) ≡ false) (smaller : n - 1 ≡ m)
      (room : length rest + 1 < stack_size) where
    step_left :
        run (suc fuel) (machine (frame 0 n from aux to ∷ rest) p)
        ≡ run fuel (machine (frame 0 m from to aux ∷ frame 1 n from aux to ∷ rest) p)
    unfolding step
    step_left =
        run-running fuel (machine (frame 0 n from aux to ∷ rest) p)
          (machine (frame 0 m from to aux ∷ frame 1 n from aux to ∷ rest) p)
          (rw
            (
              more,
              lt→ltb (length (frame 1 n from aux to ∷ rest)) stack_size (omega (arith, room)),
              smaller,
            )
            refl)

    step_right :
        run (suc fuel) (machine (frame 1 n from aux to ∷ rest) p)
        ≡ run fuel (
            machine (frame 0 m aux from to ∷ frame 2 n from aux to ∷ rest) (p ++ move from to ∷ []))
    unfolding step
    step_right =
        run-running fuel (machine (frame 1 n from aux to ∷ rest) p)
          (machine (frame 0 m aux from to ∷ frame 2 n from aux to ∷ rest) (p ++ move from to ∷ []))
          (rw
            (
              more,
              lt→ltb (length (frame 2 n from aux to ∷ rest)) stack_size (omega (arith, room)),
              smaller,
            )
            refl)

-- A frame for k + 1 discs, for which the stack has room, is popped after printing their solution.
run-frame :
    (k fuel from aux to : ℕ) (rest : List Frame) (p : List Move)
    → length rest + suc k ≤ stack_size
    → run (spend k fuel) (machine (frame 0 (suc k) from aux to ∷ rest) p)
      ≡ run fuel (machine rest (p ++ solution (suc k) from to aux))
run-frame zero fuel from aux to rest p room = step_one fuel from aux to rest p
run-frame (suc k) fuel from aux to rest p room =
    let n = suc (suc k) in
    let more : (n == 1) ≡ false = ground arith in
    let smaller : n - 1 ≡ suc k = omega arith in
    let fits : length rest + 1 < stack_size = omega (arith, room) in
    let f₁ = suc (spend k (suc fuel)) in
    let p₁ = p ++ solution (suc k) from aux to in
    let p₂ = p₁ ++ move from to ∷ [] in
    let p₃ = p₂ ++ solution (suc k) aux to from in
    step_left n from aux to rest (spend k f₁) p (suc k) more smaller fits
    ∙ run-frame k f₁ from to aux (frame 1 n from aux to ∷ rest) p (omega (arith, room))
    ∙ step_right n from aux to rest (spend k (suc fuel)) p₁ (suc k) more smaller fits
    ∙ run-frame k (suc fuel) aux from to (frame 2 n from aux to ∷ rest) p₂ (omega (arith, room))
    ∙ step_end n from aux to rest fuel p₃ more
    ∙ ap (λ q. run fuel (machine rest q))
        (rw
          (
            append_assoc p₁ (move from to ∷ []) (solution (suc k) aux to from),
            append_assoc p (solution (suc k) from aux to)
                (move from to ∷ solution (suc k) aux to from),
          )
          refl)

spend_total : (k fuel : ℕ) → spend k fuel + 3 ≡ fuel + 4 * 2 ^ k
spend_total zero fuel = omega arith
spend_total (suc k) fuel =
    omega
      (arith, two-pow-succ k, spend_total k (suc fuel), spend_total k (suc (spend k (suc fuel))))

run-finished : (fuel : ℕ) (p : List Move) → run (suc fuel) (machine [] p) ≡ returned p
unfolding run step
run-finished fuel p = refl

-- For 1 to 1000 discs and fuel for 4 * 2 ^ (n - 1) rounds, the loop ends without an overflow of its
-- stack and has printed the solution by recursion on the number of discs.
pub hanoi_staged-solution :
    (fuel n from aux to : ℕ)
    → 0 < n
    → n ≤ stack_size
    → 4 * 2 ^ (n - 1) ≤ fuel
    → hanoi_staged fuel n from aux to ≡ returned (solution n from to aux)
unfolding hanoi_staged
hanoi_staged-solution fuel zero from aux to some_discs few enough = absurd (omega arith)
hanoi_staged-solution fuel (suc k) from aux to some_discs few enough =
    let smaller : suc k - 1 ≡ k = omega arith in
    let g = fuel + 2 - 4 * 2 ^ k in
    let bound : 4 * 2 ^ k ≤ fuel = subst (λ i. 4 * 2 ^ i ≤ fuel) smaller enough in
    let total : fuel ≡ spend k (suc g) = omega (arith, spend_total k (suc g), bound) in
    ap (λ t. run t (machine (frame 0 (suc k) from aux to ∷ []) [])) total
    ∙ run-frame k (suc g) from aux to [] [] (omega arith)
    ∙ run-finished g (solution (suc k) from to aux)
