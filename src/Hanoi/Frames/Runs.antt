-- ===== src/Hanoi/Frames/Runs.antt =====
-- hanoi-nr.c: the machine runs through the calls of the recursion.
use jyyos.Prelude.{
  ℕ, zero, suc, ◌+◌, ◌-◌, ◌*◌, ◌^◌, ◌≤◌, ◌<◌, ◌≡◌, refl, ◌∙◌, ap, subst, arith, lt→ltb, ◌==◌,
}
use jyyos.Prelude.{List, [], ◌∷◌, ◌++◌, length, append_assoc, false}
use jyyos.Hanoi.{Move, move, int_limit}
use native.Mathlib.Nat.{two-pow-succ}
use jyyos.Hanoi.Solution.{solution, count, count_pow, count-int}
use jyyos.Hanoi.Frames.{
  Frame, Machine, running, faulted, returned, fault, max_frames, new_frame, execute, step, run,
  hanoi_frames,
}

run-running :
    (fuel : ℕ) (m m' : Machine) → step m m.stack ≡ running m' → run (suc fuel) m ≡ run fuel m'
unfolding run
run-running fuel m m' e = rw (run, e) refl

-- The rounds of a call with n discs and `fuel` more.
abbrev spend : ℕ → ℕ → ℕ
spend zero fuel = suc fuel
spend (suc k) fuel = suc (suc (spend k (suc (suc (suc (suc (spend k (suc (suc fuel)))))))))

abbrev machine : List Frame → ℕ → List Move → Machine
machine stack retval printed = record { stack = stack; retval = retval; printed = printed }

step_one :
    (from to via r : ℕ) (rest : List Frame) (p : List Move)
    → step (machine (new_frame 1 from to via ∷ rest) r p) (new_frame 1 from to via ∷ rest)
      ≡ running (machine rest 1 (p ++ move from to ∷ []))
unfolding step execute
step_one from to via r rest p = refl

module _ (n from to via : ℕ) (rest : List Frame) where
  -- The frame at a statement.
  abbrev frame : ℕ → ℕ → ℕ → Frame
  frame pc c1 c2 = record { pc = pc; n = n; from = from; to = to; via = via; c1 = c1; c2 = c2 }

  abbrev at_pc : ℕ → ℕ → ℕ → ℕ → List Move → Machine
  at_pc pc c1 c2 r p = machine (frame pc c1 c2 ∷ rest) r p

  step_0 :
      (n == 1) ≡ false
      → (fuel r : ℕ) (p : List Move) → run (suc fuel) (at_pc 0 0 0 r p) ≡ run fuel (at_pc 1 0 0 r p)
  unfolding step execute
  step_0 e fuel r p = run-running fuel (at_pc 0 0 0 r p) (at_pc 1 0 0 r p) (rw e)

  step_save1 :
      (fuel r c1 c2 : ℕ) (p : List Move)
      → run (suc fuel) (at_pc 2 c1 c2 r p) ≡ run fuel (at_pc 3 r c2 r p)
  unfolding step execute
  step_save1 fuel r c1 c2 p = run-running fuel (at_pc 2 c1 c2 r p) (at_pc 3 r c2 r p) refl

  step_save2 :
      (fuel r c1 c2 : ℕ) (p : List Move)
      → run (suc fuel) (at_pc 5 c1 c2 r p) ≡ run fuel (at_pc 6 c1 r r p)
  unfolding step execute
  step_save2 fuel r c1 c2 p = run-running fuel (at_pc 5 c1 c2 r p) (at_pc 6 c1 r r p) refl

  step_ret :
      (fuel r c1 c2 : ℕ) (p : List Move)
      → c1 + c2 + 1 < int_limit
      → run (suc fuel) (at_pc 6 c1 c2 r p) ≡ run fuel (machine rest (c1 + c2 + 1) p)
  unfolding step execute
  step_ret fuel r c1 c2 p small =
      run-running fuel (at_pc 6 c1 c2 r p) (machine rest (c1 + c2 + 1) p)
        (rw (lt→ltb (c1 + c2 + 1) int_limit small) refl)

  module _ (room : length rest + 1 < max_frames) (fuel r c1 c2 : ℕ) (p : List Move) where
    abbrev called : Frame → ℕ → Machine
    called g pc = machine (g ∷ frame pc c1 c2 ∷ rest) r p

    step_left :
        (m : ℕ)
        → n - 1 ≡ m
        → run (suc fuel) (at_pc 1 c1 c2 r p) ≡ run fuel (called (new_frame m from via to) 2)
    unfolding step execute
    step_left m e =
        run-running fuel (at_pc 1 c1 c2 r p) (called (new_frame m from via to) 2)
          (rw (lt→ltb (length (frame 1 c1 c2 ∷ rest)) max_frames (omega (arith, room)), e))

    step_middle : run (suc fuel) (at_pc 3 c1 c2 r p) ≡ run fuel (called (new_frame 1 from to via) 4)
    unfolding step execute
    step_middle =
        run-running fuel (at_pc 3 c1 c2 r p) (called (new_frame 1 from to via) 4)
          (rw (lt→ltb (length (frame 3 c1 c2 ∷ rest)) max_frames (omega (arith, room))))

    step_right :
        (m : ℕ)
        → n - 1 ≡ m
        → run (suc fuel) (at_pc 4 c1 c2 r p) ≡ run fuel (called (new_frame m via to from) 5)
    unfolding step execute
    step_right m e =
        run-running fuel (at_pc 4 c1 c2 r p) (called (new_frame m via to from) 5)
          (rw (lt→ltb (length (frame 4 c1 c2 ∷ rest)) max_frames (omega (arith, room)), e))

-- A call with k + 1 discs, for which the array has room, leaves the frames below it as they are,
-- returns the number of the moves and prints the solution.
run-call :
    (k fuel from to via r : ℕ) (rest : List Frame) (p : List Move)
    → length rest + suc k ≤ max_frames
    → count (suc k) < int_limit
    → run (spend k fuel) (machine (new_frame (suc k) from to via ∷ rest) r p)
      ≡ run fuel (machine rest (count (suc k)) (p ++ solution (suc k) from to via))
run-call zero fuel from to via r rest p room small =
    run-running fuel (machine (new_frame 1 from to via ∷ rest) r p)
      (machine rest 1 (p ++ move from to ∷ [])) (step_one from to via r rest p)
run-call (suc k) fuel from to via r rest p room small =
    let n = suc (suc k) in
    let c = count (suc k) in
    let smaller : n - 1 ≡ suc k = omega arith in
    let fits : length rest + 1 < max_frames = omega (arith, room) in
    let f₃ = suc (suc fuel) in
    let f₂ = suc (suc (suc (suc (spend k f₃)))) in
    let p₁ = p ++ solution (suc k) from via to in
    let p₂ = p₁ ++ move from to ∷ [] in
    let p₃ = p₂ ++ solution (suc k) via to from in
    step_0 n from to via rest (ground arith) (suc (spend k f₂)) r p
    ∙ step_left n from to via rest fits (spend k f₂) r 0 0 p (suc k) smaller
    ∙ run-call k f₂ from via to r (frame n from to via rest 2 0 0 ∷ rest) p (omega (arith, room))
        (omega arith)
    ∙ step_save1 n from to via rest (suc (suc (suc (spend k f₃)))) c 0 0 p₁
    ∙ step_middle n from to via rest fits (suc (suc (spend k f₃))) c c 0 p₁
    ∙ run-running (suc (spend k f₃))
        (machine (new_frame 1 from to via ∷ frame n from to via rest 4 c 0 ∷ rest) c p₁)
        (machine (frame n from to via rest 4 c 0 ∷ rest) 1 p₂)
        (step_one from to via c (frame n from to via rest 4 c 0 ∷ rest) p₁)
    ∙ step_right n from to via rest fits (spend k f₃) 1 c 0 p₂ (suc k) smaller
    ∙ run-call k f₃ via to from 1 (frame n from to via rest 5 c 0 ∷ rest) p₂ (omega (arith, room))
        (omega arith)
    ∙ step_save2 n from to via rest (suc fuel) c c 0 p₃
    ∙ step_ret n from to via rest fuel c c c p₃ small
    ∙ ap (λ q. run fuel (machine rest (c + c + 1) q))
        (rw
          (
            append_assoc p₁ (move from to ∷ []) (solution (suc k) via to from),
            append_assoc p (solution (suc k) from via to)
                (move from to ∷ solution (suc k) via to from),
          )
          refl)

spend_total : (k fuel : ℕ) → spend k fuel + 8 ≡ fuel + 9 * 2 ^ k
spend_total zero fuel = omega arith
spend_total (suc k) fuel = omega (
  arith,
  two-pow-succ k,
  spend_total k (suc (suc fuel)),
  spend_total k (suc (suc (suc (suc (spend k (suc (suc fuel))))))),
)

run-finished : (fuel r : ℕ) (p : List Move) → run (suc fuel) (machine [] r p) ≡ returned r p
unfolding run step
run-finished fuel r p = refl

-- For 1 to 31 discs and fuel for 9 * 2 ^ (n - 1) rounds, the loop ends within its array: it returns
-- 2 ^ n - 1 and prints the solution by recursion on the number of discs.
pub hanoi_frames-solution :
    (fuel n from to via : ℕ)
    → 0 < n
    → n < 32
    → 9 * 2 ^ (n - 1) ≤ fuel
    → hanoi_frames fuel n from to via ≡ returned (2 ^ n - 1) (solution n from to via)
unfolding hanoi_frames
hanoi_frames-solution fuel zero from to via some_discs few enough = absurd (omega arith)
hanoi_frames-solution fuel (suc k) from to via some_discs few enough =
    let smaller : suc k - 1 ≡ k = omega arith in
    let g = fuel + 7 - 9 * 2 ^ k in
    let bound : 9 * 2 ^ k ≤ fuel = subst (λ i. 9 * 2 ^ i ≤ fuel) smaller enough in
    let total : fuel ≡ spend k (suc g) = omega (arith, spend_total k (suc g), bound) in
    ap (λ t. run t (machine (new_frame (suc k) from to via ∷ []) 0 [])) total
    ∙ run-call k (suc g) from to via 0 [] [] (omega arith) (count-int k (omega arith))
    ∙ run-finished g (count (suc k)) (solution (suc k) from to via)
    ∙ ap (λ c. returned c (solution (suc k) from to via)) (omega (arith, count_pow (suc k)))

run-faulted : (fuel : ℕ) (m : Machine) → step m m.stack ≡ faulted → run (suc fuel) m ≡ fault
unfolding run
run-faulted fuel m e = rw (run, e) refl

step_full :
    (n from to via : ℕ) (rest : List Frame) (fuel r : ℕ) (p : List Move)
    → length rest + 1 ≡ max_frames
    → run (suc fuel) (at_pc n from to via rest 1 0 0 r p) ≡ fault
unfolding step execute
step_full n from to via rest fuel r p full =
    let len : length (frame n from to via rest 1 0 0 ∷ rest) ≡ max_frames = omega (arith, full) in
    run-faulted fuel (at_pc n from to via rest 1 0 0 r p) (rw len refl)

-- The rounds of the calls on the left, until l more frames fill the array.
abbrev descend : ℕ → ℕ → ℕ
descend zero fuel = suc (suc fuel)
descend (suc l) fuel = suc (suc (descend l fuel))

descend_total : (l fuel : ℕ) → descend l fuel ≡ fuel + 2 * l + 2
descend_total zero fuel = omega arith
descend_total (suc l) fuel = omega (arith, descend_total l fuel)

run-descend :
    (l fuel n from to via r : ℕ) (rest : List Frame) (p : List Move)
    → length rest + suc l ≡ max_frames
    → l + 1 < n
    → run (descend l fuel) (machine (new_frame n from to via ∷ rest) r p) ≡ fault
run-descend zero fuel n from to via r rest p full many =
    step_0 n from to via rest (ground arith) (suc fuel) r p
    ∙ step_full n from to via rest fuel r p (omega (arith, full))
run-descend (suc l) fuel n from to via r rest p full many =
    step_0 n from to via rest (ground arith) (suc (descend l fuel)) r p
    ∙ step_left n from to via rest (omega (arith, full)) (descend l fuel) r 0 0 p (n - 1) refl
    ∙ run-descend l fuel (n - 1) from via to r (frame n from to via rest 2 0 0 ∷ rest) p
        (omega (arith, full)) (omega arith)

-- For more than 64 discs the loop writes a frame past its array, within 128 rounds.
pub hanoi_frames-fault :
    (fuel n from to via : ℕ) → max_frames < n → 128 ≤ fuel → hanoi_frames fuel n from to via ≡ fault
unfolding hanoi_frames
hanoi_frames-fault fuel n from to via many enough =
    let total : fuel ≡ descend 63 (fuel - 128) = omega (arith, descend_total 63 (fuel - 128)) in
    ap (λ t. run t (machine (new_frame n from to via ∷ []) 0 [])) total
    ∙ run-descend 63 (fuel - 128) n from to via 0 [] [] refl (omega arith)
