-- ===== src/Hanoi/Tests.antt =====
-- The towers of Hanoi: runs with a few discs, and the theorems at such runs.
use jyyos.Prelude.{◌≡◌, refl, arith, ◌==◌, if◌then◌else◌, some, List, [], ◌∷◌, ◌-◌, ◌^◌}
use jyyos.Hanoi.{Move, move, hanoi}
use jyyos.Hanoi.Solution.{solution}
use jyyos.Hanoi.Solution.Puzzle.{Rods, Takes, hanoi-Takes}
use jyyos.Hanoi.Frames
use jyyos.Hanoi.Frames.{hanoi_frames, run, step, execute}
use jyyos.Hanoi.Frames.Runs.{hanoi_frames-solution, hanoi_frames-fault}
use jyyos.Hanoi.Staged
use jyyos.Hanoi.Staged.{hanoi_staged}
use jyyos.Hanoi.Staged.Runs.{hanoi_staged-solution}

abbrev three_moves : List Move
three_moves = move b'A' b'C' ∷ move b'A' b'B' ∷ move b'C' b'B' ∷ []

two_discs : hanoi 2 2 b'A' b'B' b'C' ≡ some (3, three_moves)
unfolding hanoi
two_discs = refl

frames_two_discs : hanoi_frames 11 2 b'A' b'B' b'C' ≡ Frames.returned 3 three_moves
unfolding hanoi_frames run step execute
frames_two_discs = refl

staged_two_discs : hanoi_staged 6 2 b'A' b'C' b'B' ≡ Staged.returned three_moves
unfolding hanoi_staged Staged.run Staged.step
staged_two_discs = refl

-- Two discs on the rod A, and a larger one on B.
abbrev rods : Rods
rods x = if x == b'A' then 0 ∷ 1 ∷ [] else if x == b'B' then 2 ∷ [] else []

hanoi-Takes_example :
    (ms : List Move) × (hanoi 2 2 b'A' b'B' b'C' ≡ some (2 ^ 2 - 1, ms))
    × Takes rods 2 b'A' b'B' [] ms
hanoi-Takes_example =
    hanoi-Takes rods 2 2 b'A' b'B' b'C' [] (omega arith) (omega arith) (omega arith) (omega arith)
      (omega arith) (omega arith) refl tt (omega arith) tt

hanoi_frames-solution_example :
    hanoi_frames 80 4 b'A' b'B' b'C' ≡ Frames.returned (2 ^ 4 - 1) (solution 4 b'A' b'B' b'C')
hanoi_frames-solution_example =
    hanoi_frames-solution 80 4 b'A' b'B' b'C' (omega arith) (omega arith) (omega arith)

hanoi_frames-fault_example : hanoi_frames 200 65 b'A' b'B' b'C' ≡ Frames.fault
hanoi_frames-fault_example = hanoi_frames-fault 200 65 b'A' b'B' b'C' (omega arith) (omega arith)

hanoi_staged-solution_example :
    hanoi_staged 40 4 b'A' b'B' b'C' ≡ Staged.returned (solution 4 b'A' b'C' b'B')
hanoi_staged-solution_example =
    hanoi_staged-solution 40 4 b'A' b'B' b'C' (omega arith) (omega arith) (omega arith)
