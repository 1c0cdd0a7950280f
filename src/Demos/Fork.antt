-- ===== src/Demos/Fork.antt =====
-- course_code/lecture_5/fork-demo/demo-1.c and demo-2.c: printf and fork, and the buffer of stdout
-- that a fork copies.
pub mod Counts
use jyyos.Prelude.{ℕ, zero, suc, ◌≡◌, Bool, true, false, List, [], ◌∷◌, ◌++◌}
use jyyos.Prelude.Int.{ℤ, pos}
use jyyos.Demos.{Reply, Process, exit, print, fork, call, stuck}

-- demo-1: the two values that fork returned.
unfoldable pub demo_1 : Process (ℤ × ℤ)
demo_1 = fork λ x. fork λ y. print (x, y) (exit 0)

-- "Hello\n"
pub data Greeting : Type 0 where
  hello : Greeting

-- demo-2: the loop, for n rounds that are left.
unfoldable pub hello_loop : ℕ → Process Greeting
hello_loop zero = exit 0
hello_loop (suc n) = fork λ x. print hello (hello_loop n)

unfoldable pub demo_2 : Process Greeting
unfolding hello_loop
demo_2 = hello_loop 2

-- The third list is made of the first two, each in its order.
pub data Interleaves {A : Type 0} : List A → List A → List A → Type 0 where
  done : Interleaves [] [] []
  left : {x : A} {xs ys zs : List A} → Interleaves xs ys zs → Interleaves (x ∷ xs) ys (x ∷ zs)
  right : {y : A} {xs ys zs : List A} → Interleaves xs ys zs → Interleaves xs (y ∷ ys) (y ∷ zs)

-- What a process and those behind its forks write to stdout, in some order of theirs, if every fork
-- succeeds and stdout is a terminal or not. On a terminal each line is written when it is printed.
-- Otherwise it goes into the buffer of the process, which fork copies and exit writes.
abbrev pub Writes : {Out : Type 0} → Bool → Process Out → List Out → List Out → Type 0
Writes terminal (exit code) buffer ls = ls ≡ buffer
Writes {Out} true (print o p) buffer ls =
    (rest : List Out) × (ls ≡ buffer ++ o ∷ rest) × Writes true p [] rest
Writes false (print o p) buffer ls = Writes false p (buffer ++ o ∷ []) ls
Writes {Out} terminal (fork k) buffer ls =
    (pid : ℕ) × (child : List Out) × (parent : List Out) × Writes terminal (k (pos 0)) buffer child
    × Writes terminal (k (pos (suc pid))) buffer parent
    × Interleaves child parent ls
Writes terminal (call c k) buffer ls = (r : Reply) × Writes terminal (k r) buffer ls
Writes terminal stuck buffer ls = ⊥
