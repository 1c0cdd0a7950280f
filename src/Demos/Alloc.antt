-- ===== src/Demos/Alloc.antt =====
-- course_code/lecture_7/fd/fd-alloc.c: which descriptors open gives out.
pub mod GivenOut
pub mod Reuse
use jyyos.Prelude.{ℕ, zero, suc, ◌+◌, if◌then◌else◌, List, [], ◌∷◌, ◌++◌, get_or, set}
use jyyos.Prelude.Int.{is_neg, to_ℕ}
use jyyos.Prelude.CText.{Bytes}
use jyyos.Prelude.Codes.{codes}
use jyyos.Demos.{open_file, close, Process, exit, print, call, then_do}

-- The three lines that are printed, for the index and the descriptor.
pub data Line : Type 0 where
  allocated closed reallocated : ℕ → ℕ → Line

abbrev pub null_device : Bytes
null_device = codes "/dev/null"

-- O_RDWR
abbrev pub read_write : ℕ
read_write = 2

-- The first loop from i on, for the rounds that are left and the descriptors so far, before the
-- rest.
unfoldable pub allocate : ℕ → ℕ → List ℕ → (List ℕ → Process Line) → Process Line
allocate zero i fds rest = rest fds
allocate (suc left) i fds rest = call (open_file null_device read_write) λ r.
    if is_neg r.value
    then exit 1
    else print (allocated i (to_ℕ r.value)) (allocate left (i + 1) (fds ++ to_ℕ r.value ∷ []) rest)

-- The loops with i += 2.
unfoldable pub close_odd : ℕ → ℕ → List ℕ → Process Line → Process Line
close_odd zero i fds rest = rest
close_odd (suc left) i fds rest =
    then_do (close (get_or fds i 0))
      (print (closed i (get_or fds i 0)) (close_odd left (i + 2) fds rest))

unfoldable pub reopen_odd : ℕ → ℕ → List ℕ → (List ℕ → Process Line) → Process Line
reopen_odd zero i fds rest = rest fds
reopen_odd (suc left) i fds rest = call (open_file null_device read_write) λ r.
    if is_neg r.value
    then exit 1
    else print (reallocated i (to_ℕ r.value))
        (reopen_odd left (i + 2) (set fds i (to_ℕ r.value)) rest)

unfoldable pub close_all : ℕ → ℕ → List ℕ → Process Line → Process Line
close_all zero i fds rest = rest
close_all (suc left) i fds rest =
    then_do (close (get_or fds i 0))
      (print (closed i (get_or fds i 0)) (close_all left (i + 1) fds rest))

-- demo_fd_allocation for NUM_FDS = 2 * half, which is 8 in main.
unfoldable pub demo_fd_allocation : ℕ → Process Line
unfolding allocate close_odd reopen_odd close_all
demo_fd_allocation half = allocate (half + half) 0 [] λ fds.
    close_odd half 1 fds (reopen_odd half 1 fds λ fds'. close_all (half + half) 0 fds' (exit 0))

unfoldable pub main : Process Line
unfolding demo_fd_allocation
main = demo_fd_allocation 4
