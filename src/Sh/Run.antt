-- ===== src/Sh/Run.antt =====
-- sh.c, runcmd: the system calls of the process that runs a command. The process is a tree: what
-- it does next depends on the kernel's reply, which for fork is 0 in the child.
pub mod Calls
pub mod Wiring
use jyyos.Prelude.{ℕ, zero, suc, ◌+◌, Bool, true, false, ltb, ◌==◌, if◌then◌else◌}
use jyyos.Prelude.{List, [], ◌∷◌, ◌++◌, map, length}
use jyyos.Prelude.Int.{ℤ, is_neg, is_zero}
use jyyos.Prelude.CText.{Bytes, newline}
use jyyos.Sh.{Word, Cmd, exec, redir, pipe, list, back, mem_size}
use jyyos.Sh.Parse.{Outcome, ok, ◌>>=◌}
use jyyos.Sh.Terminate.{string_at, parse_and_end}

pub data Call : Type 0 where
  execve : Bytes → List Bytes → Call
  open_file : Bytes → ℕ → Call
  close : ℕ → Call
  dup : ℕ → Call
  make_pipe : Call
  fork : Call
  wait : Call
  write : Bytes → Call

-- The value that a call returns, and the two descriptors that pipe stores.
pub record Reply : Type 0 where
  pub value : ℤ
  pub read_end : ℕ
  pub write_end : ℕ

pub data Process : Type 0 where
  exit : ℕ → Process
  call : Call → (Reply → Process) → Process

-- A call whose reply is not looked at.
abbrev pub then_do : Call → Process → Process
then_do c p = call c (λ r. p)

-- print(...): one write for each string.
abbrev pub print : List Bytes → Process → Process
print [] p = p
print (s ∷ ss) p = then_do (write s) (print ss p)

-- "Panicked.\n", "fail to exec ", "fail to open " and "/bin/".
abbrev panicked_text : Bytes
panicked_text = b'P' ∷ b'a' ∷ b'n' ∷ b'i' ∷ b'c' ∷ b'k' ∷ b'e' ∷ b'd' ∷ b'.' ∷ newline ∷ []

abbrev exec_text : Bytes
exec_text =
    b'f' ∷ b'a' ∷ b'i' ∷ b'l' ∷ b' ' ∷ b't' ∷ b'o' ∷ b' ' ∷ b'e' ∷ b'x' ∷ b'e' ∷ b'c' ∷ b' ' ∷ []

abbrev open_text : Bytes
open_text =
    b'f' ∷ b'a' ∷ b'i' ∷ b'l' ∷ b' ' ∷ b't' ∷ b'o' ∷ b' ' ∷ b'o' ∷ b'p' ∷ b'e' ∷ b'n' ∷ b' ' ∷ []

abbrev pub bin : Bytes
bin = b'/' ∷ b'b' ∷ b'i' ∷ b'n' ∷ b'/' ∷ []

-- A failed assert.
abbrev pub panic : Process
panic = print (panicked_text ∷ []) (exit 1)

abbrev pub strings : Bytes → List Word → List Bytes
strings text ws = map (λ w. string_at text w.start) ws

-- The EXEC case, for argv; `used` bytes of `mem` are taken.
unfoldable pub run_exec : ℕ → List Bytes → Process
run_exec used [] = exit 1
run_exec used (name ∷ argv) =
    if ltb (used + (5 + length name + 1)) mem_size
    then call (execve (bin ++ name) (name ∷ argv))
        (λ _. print (exec_text ∷ (bin ++ name) ∷ (newline ∷ []) ∷ []) (exit 0))
    else panic

-- The line `text` is the one that nulterminate has changed.
unfoldable pub runcmd : Bytes → ℕ → Cmd → Process
unfolding run_exec
runcmd text used (exec args) = run_exec used (strings text args)
runcmd text used (redir cmd file mode fd) = then_do (close fd) (
    call (open_file (string_at text file.start) mode) λ r.
      if is_neg r.value
      then print (open_text ∷ string_at text file.start ∷ (newline ∷ []) ∷ []) (exit 1)
      else runcmd text used cmd)
runcmd text used (list left right) =
    call fork
      λ r. if is_zero r.value then runcmd text used left else then_do wait (runcmd text used right)
runcmd text used (pipe left right) = call make_pipe λ p.
    if is_neg p.value
    then panic
    else call fork λ r.
      if is_zero r.value
      then then_do (close 1) (
          then_do (dup p.write_end)
            (then_do (close p.read_end) (then_do (close p.write_end) (runcmd text used left))))
      else call fork λ r'.
        if is_zero r'.value
        then then_do (close 0) (
            then_do (dup p.read_end)
              (then_do (close p.read_end) (then_do (close p.write_end) (runcmd text used right))))
        else then_do (close p.read_end)
            (then_do (close p.write_end) (then_do wait (then_do wait (exit 0))))
runcmd text used (back cmd) =
    call fork λ r. if is_zero r.value then runcmd text used cmd else exit 0

-- The child of main for a line: `runcmd(parsecmd(buf))`. An outcome without a value is a failed
-- assert of the parser.
unfoldable pub child : Bytes → Outcome Process
child text = parse_and_end text >>= λ (cmd, used, b). ok (runcmd b used cmd)
