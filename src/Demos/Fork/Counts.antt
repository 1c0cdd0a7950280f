-- ===== src/Demos/Fork/Counts.antt =====
-- demo-2.c: how often it says hello.
use jyyos.Prelude.{
  ℕ, zero, suc, ◌+◌, ◌-◌, ◌*◌, ◌^◌, ◌≡◌, ap, arith, Bool, true, false, if◌then◌else◌, List, [], ◌∷◌,
  ◌++◌, length, length-append,
}
use jyyos.Demos.Fork.{Greeting, hello, hello_loop, Interleaves, done, left, right, Writes}

length-Interleaves :
    {A : Type 0} {xs ys zs : List A} → Interleaves xs ys zs → length zs ≡ length xs + length ys
length-Interleaves done = omega arith
length-Interleaves (left h) = omega (arith, length-Interleaves h)
length-Interleaves (right h) = omega (arith, length-Interleaves h)

twice : (n : ℕ) → 2 ^ suc n ≡ 2 ^ n + 2 ^ n
twice n = omega arith

twice_times : (x n : ℕ) → x * 2 ^ n + x * 2 ^ n ≡ x * 2 ^ suc n
twice_times x n = grind (arith, twice n)

hello_loop-terminal :
    (n : ℕ) (ls : List Greeting) → Writes true (hello_loop n) [] ls → length ls + 2 ≡ 2 ^ suc n
unfolding hello_loop
hello_loop-terminal zero ls e = omega (arith, ap length e)
hello_loop-terminal (suc n) ls (pid, child, parent, (a, ea, wa), (b, eb, wb), mixed) = omega (
  arith,
  length-Interleaves mixed,
  ap length ea,
  ap length eb,
  hello_loop-terminal n a wa,
  hello_loop-terminal n b wb,
  twice (suc n),
)

hello_loop-pipe :
    (n : ℕ) (buffer ls : List Greeting)
    → Writes false (hello_loop n) buffer ls
    → length ls ≡ (length buffer + n) * 2 ^ n
unfolding hello_loop
hello_loop-pipe zero buffer ls e = omega (arith, ap length e)
hello_loop-pipe (suc n) buffer ls (pid, child, parent, wa, wb, mixed) =
    let longer : length (buffer ++ hello ∷ []) + n ≡ length buffer + suc n =
      omega (arith, length-append buffer (hello ∷ [])) in
    let same = ap (λ t. t * 2 ^ n) longer in
    omega (
      arith,
      length-Interleaves mixed,
      hello_loop-pipe n (buffer ++ hello ∷ []) child wa,
      hello_loop-pipe n (buffer ++ hello ∷ []) parent wb,
      same,
      twice_times (length buffer + suc n) n,
    )

-- For n rounds, if every fork succeeds: in whatever order the processes run, they write
-- 2 + 4 + ... + 2^n lines to a terminal, and n * 2^n lines to a pipe or a file.
pub hello_loop-length :
    (n : ℕ) (terminal : Bool) (ls : List Greeting)
    → Writes terminal (hello_loop n) [] ls
    → length ls ≡ (if terminal then 2 ^ suc n - 2 else n * 2 ^ n)
hello_loop-length n true ls h = omega (arith, hello_loop-terminal n ls h)
hello_loop-length n false ls h = omega (arith, hello_loop-pipe n [] ls h)
