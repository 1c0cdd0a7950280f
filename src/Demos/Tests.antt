-- ===== src/Demos/Tests.antt =====
-- The demonstrations: runs, and the theorems at them.
use jyyos.Prelude.{
  ℕ, zero, suc, ◌*◌, ◌^◌, ◌≡◌, refl, arith, inl, inr, ltb, if◌then◌else◌, false, none, some, List,
  [], ◌∷◌, length,
}
use jyyos.Prelude.Int.{pos, negsuc}
use jyyos.Prelude.CText.{Bytes, until_nul}
use jyyos.Prelude.Table.{put, clear, LowestFree}
use jyyos.Demos.{Reply, exit}
use jyyos.Demos.Fork.{Greeting, hello, hello_loop, left, right, done, Writes}
use jyyos.Demos.Fork.Counts.{hello_loop-length}
use jyyos.Demos.Tree.{pstree_demo, create_process_tree}
use jyyos.Demos.Tree.Layers.{Layers, count, width, create_process_tree-count}
use jyyos.Demos.Alloc.{
  allocated, closed, reallocated, allocate, close_odd, reopen_odd, close_all, demo_fd_allocation,
}
use jyyos.Demos.Alloc.Reuse.{Reuses, demo_fd_allocation-Reuses}
use jyyos.Demos.Alloc
use jyyos.Demos.Offset
use jyyos.Demos.Offset.{content, content_after_fork, demo_dup_offset, demo_fork_offset}
use jyyos.Demos.Runs.{Disk, Table, nobody, Runs}
use jyyos.Demos.Offset.Content.{main-content}

abbrev hellos : ℕ → List Greeting
hellos zero = []
hellos (suc n) = hello ∷ hellos n

-- 0, 1 and 2 are open.
abbrev standard : Table
standard m = if ltb m 3 then some m else none

abbrev empty : Disk
empty = record { file = []; offsets = [] }

abbrev got : ℕ → Bytes → Reply
got n bs = record { value = pos n; bytes = bs }

abbrev one_open : ℕ → Table
one_open h = put standard 3 h

lowest_three : LowestFree standard 3
lowest_three = (refl, λ m h. ground arith)

lowest_four : LowestFree (one_open 0) 4
lowest_four = (refl, λ m h. ground arith)

abbrev closed_both : Table
closed_both = clear (clear (put (one_open 0) 4 0) 3) 4

lowest_again : LowestFree closed_both 3
lowest_again = (refl, λ m h. ground arith)

abbrev closed_again : Table
closed_again = clear (put closed_both 3 1) 3

lowest_third : LowestFree closed_again 3
lowest_third = (refl, λ m h. ground arith)

abbrev forked : Table
forked = put closed_again 3 2

lowest_last : LowestFree (clear forked 3) 3
lowest_last = (refl, λ m h. ground arith)

abbrev ab : Bytes
ab = b'A' ∷ b'B' ∷ []

abbrev dc : Bytes
dc = b'D' ∷ b'C' ∷ []

-- The second demonstration, with three files opened before.
fork_run :
    Runs 11
      (record { file = ab; offsets = 2 ∷ 2 ∷ [] })
      (demo_fork_offset (exit 0))
      closed_again
      nobody
      (content_after_fork dc ∷ [])
unfolding demo_fork_offset until_nul
fork_run = inl (
  got 3 [],
  _,
  _,
  (3, lowest_third, refl, refl, refl),
  inl (
    6,
    inr (
      got 1 [],
      _,
      _,
      (2, refl, refl, refl),
      inr (
        got 0 [],
        _,
        _,
        (refl, refl),
        inl (
          got 7 [],
          inl (
            got 1 [],
            _,
            _,
            (2, refl, refl, refl),
            inl (
              got 0 [],
              _,
              _,
              (refl, refl),
              inl (
                got 3 [],
                _,
                _,
                (3, lowest_last, refl, refl, refl),
                inl (
                  got 2 dc,
                  _,
                  _,
                  (3, refl, refl, refl, refl),
                  inl ([], refl, inl (got 0 [], _, _, (refl, refl), refl)),
                ),
              ),
            ),
          ),
        ),
      ),
    ),
  ),
)

main_run : Runs 21 empty Offset.main standard nobody (content ab ∷ content_after_fork dc ∷ [])
unfolding Offset.main demo_dup_offset demo_fork_offset until_nul
main_run = inl (
  got 3 [],
  _,
  _,
  (3, lowest_three, refl, refl, refl),
  inl (
    got 4 [],
    _,
    _,
    (4, 0, refl, lowest_four, refl, refl, refl),
    inl (
      got 1 [],
      _,
      _,
      (0, refl, refl, refl),
      inl (
        got 1 [],
        _,
        _,
        (0, refl, refl, refl),
        inl (
          got 0 [],
          _,
          _,
          (refl, refl),
          inl (
            got 0 [],
            _,
            _,
            (refl, refl),
            inl (
              got 3 [],
              _,
              _,
              (3, lowest_again, refl, refl, refl),
              inl (
                got 2 ab,
                _,
                _,
                (1, refl, refl, refl, refl),
                inl (
                  content_after_fork dc ∷ [],
                  refl,
                  inl (got 0 [], _, _, (refl, refl), fork_run),
                ),
              ),
            ),
          ),
        ),
      ),
    ),
  ),
)

main-content_example :
    content ab ∷ content_after_fork dc ∷ [] ≡ content ab ∷ content_after_fork dc ∷ []
main-content_example =
    main-content 21 empty standard (content ab ∷ content_after_fork dc ∷ []) main_run

-- The second round of demo-2 into a pipe, behind one line in the buffer; and both rounds.
one_round : Writes false (hello_loop 1) (hellos 1) (hellos 4)
unfolding hello_loop
one_round = (9, hellos 2, hellos 2, refl, refl, left (left (right (right done))))

two_rounds : Writes false (hello_loop 2) [] (hellos 8)
unfolding hello_loop
two_rounds = (
  8,
  hellos 4,
  hellos 4,
  one_round,
  one_round,
  left (left (left (left (right (right (right (right done))))))),
)

hello_loop-length_example : length (hellos 8) ≡ 2 * 2 ^ 2
hello_loop-length_example = hello_loop-length 2 false (hellos 8) two_rounds

-- A child without /dev/urandom.
child_stays : Layers pstree_demo 2 (2 ∷ [])
unfolding pstree_demo
child_stays =
    let no_file : Reply = record { value = negsuc 0; bytes = [] } in
    (got 5 [], (got 6 [], (got 0 [], (no_file, (got 0 [], (got 5 [], (got 6 [], refl)))))))

small_tree : Layers (create_process_tree 1 (exit 0)) 1 (2 ∷ 2 ∷ 1 ∷ [])
unfolding create_process_tree
small_tree =
    (6, 2 ∷ [], 2 ∷ 1 ∷ [], child_stays, (7, 2 ∷ [], 1 ∷ [], child_stays, refl, refl), refl)

create_process_tree-count_example : count 2 (2 ∷ 2 ∷ 1 ∷ []) ≡ width 1 1 2
create_process_tree-count_example =
    create_process_tree-count 1 (exit 0) 1 (2 ∷ 2 ∷ 1 ∷ []) 2 (λ l ls e. e) small_tree

abbrev two_lines : List Alloc.Line
two_lines =
    allocated 0 3 ∷ allocated 1 4 ∷ closed 1 4 ∷ reallocated 1 4 ∷ closed 0 3 ∷ closed 1 4 ∷ []

abbrev second_closed : Table
second_closed = clear (put (one_open 0) 4 1) 4

lowest_second : LowestFree second_closed 4
lowest_second = (refl, λ m h. ground arith)

two_descriptors : Runs 12 empty (demo_fd_allocation 1) standard nobody two_lines
unfolding demo_fd_allocation allocate close_odd reopen_odd close_all
two_descriptors = inl (
  got 3 [],
  _,
  _,
  (3, lowest_three, refl, refl, refl),
  inl (
    _,
    refl,
    inl (
      got 4 [],
      _,
      _,
      (4, lowest_four, refl, refl, refl),
      inl (
        _,
        refl,
        inl (
          got 0 [],
          _,
          _,
          (refl, refl),
          inl (
            _,
            refl,
            inl (
              got 4 [],
              _,
              _,
              (4, lowest_second, refl, refl, refl),
              inl (
                _,
                refl,
                inl (
                  got 0 [],
                  _,
                  _,
                  (refl, refl),
                  inl (_, refl, inl (got 0 [], _, _, (refl, refl), inl (_, refl, refl))),
                ),
              ),
            ),
          ),
        ),
      ),
    ),
  ),
)

demo_fd_allocation-Reuses_example : Reuses 1 two_lines
demo_fd_allocation-Reuses_example =
    demo_fd_allocation-Reuses 1 12 empty standard two_lines two_descriptors
