-- ===== src/Sh/Run/Wiring.antt =====
-- sh.c, runcmd: what the descriptors of a program are when it is executed. The kernel is a relation
-- between the calls of a process and their replies, as POSIX documents them: a new descriptor is
-- the lowest that is free, and fork copies the table.
pub mod Tables
pub mod Sound
use jyyos.Prelude.{ℕ, ◌<◌, ◌≡◌, ◌≢◌, ◌⊎◌, Bool, true, false, ◌==◌, if◌then◌else◌}
use jyyos.Prelude.{Option, none, some, List, [], ◌∷◌, ◌++◌}
use jyyos.Prelude.Int.{pos, is_neg}
use jyyos.Prelude.CText.{Bytes}
use jyyos.Prelude.Table.{put, clear, LowestFree}
use jyyos.Sh.{Word, Cmd, exec, redir, pipe, list, back}
use jyyos.Sh.Terminate.{string_at, nulterminate}
use jyyos.Sh.Parse.{ok, parsecmd}
use jyyos.Sh.Run.{Call, Reply, Process, exit, call, bin, strings}
use jyyos.Prelude.Int.{is_zero}
use jyyos.Sh.Run.{execve, open_file, close, dup, make_pipe, fork, wait, write}

-- The forks behind a process, the last one first: false for the child. They name the process, and
-- the pipe that it makes before its next fork.
abbrev pub ForkPath : Type 0
ForkPath = List Bool

pub data Target : Type 0 where
  terminal : ℕ → Target
  file : Bytes → ℕ → Target
  read_side write_side : ForkPath → Target

-- The descriptors of a process.
abbrev pub Table : Type 0
Table = ℕ → Option Target

-- A program that is executed, with the descriptors that it gets.
pub record Started : Type 0 where
  pub path : Bytes
  pub argv : List Bytes
  pub fds : Table

-- The process, or a process behind its forks, executes the program s.
abbrev pub Starts : Process → Table → ForkPath → Started → Type 0
Starts (exit code) t at s = ⊥
Starts (call (execve path argv) k) t at s =
    (s ≡ record { path = path; argv = argv; fds = t }) ⊎ ((r : Reply) × Starts (k r) t at s)
Starts (call (open_file path mode) k) t at s =
    ((n : ℕ) × (r : Reply) × LowestFree t n
      × (r.value ≡ pos n)
      × Starts (k r) (put t n (file path mode)) at s)
    ⊎ ((r : Reply) × (is_neg r.value ≡ true) × Starts (k r) t at s)
Starts (call (close n) k) t at s = (r : Reply) × Starts (k r) (clear t n) at s
Starts (call (dup d) k) t at s =
    ((x : Target) × (n : ℕ) × (r : Reply) × (t d ≡ some x)
      × LowestFree t n
      × Starts (k r) (put t n x) at s)
    ⊎ ((r : Reply) × (t d ≡ none) × Starts (k r) t at s)
Starts (call make_pipe k) t at s =
    ((r : Reply) × (r.value ≡ pos 0)
      × LowestFree t r.read_end
      × LowestFree (put t r.read_end (read_side at)) r.write_end
      × Starts (k r) (put (put t r.read_end (read_side at)) r.write_end (write_side at)) at s)
    ⊎ ((r : Reply) × (is_neg r.value ≡ true) × Starts (k r) t at s)
Starts (call fork k) t at s =
    ((r : Reply) × (r.value ≡ pos 0) × Starts (k r) t (false ∷ at) s)
    ⊎ ((r : Reply) × (is_zero r.value ≡ false) × Starts (k r) t (true ∷ at) s)
Starts (call wait k) t at s = (r : Reply) × Starts (k r) t at s
Starts (call (write bytes) k) t at s = (r : Reply) × Starts (k r) t at s

-- The programs of a command with the descriptors that the command gives them: `<` and `>` replace
-- one, and in a pipeline the left side writes to the pipe that the right side reads.
abbrev pub Program : List Bytes → Table → Started → Type 0
Program [] t s = ⊥
Program (name ∷ argv) t s = s ≡ record { path = bin ++ name; argv = name ∷ argv; fds = t }

abbrev pub Wired : Bytes → Cmd → Table → ForkPath → Started → Type 0
Wired text (exec args) t at s = Program (strings text args) t s
Wired text (redir cmd word mode fd) t at s =
    Wired text cmd (put t fd (file (string_at text word.start) mode)) at s
Wired text (list left right) t at s =
    Wired text left t (false ∷ at) s ⊎ Wired text right t (true ∷ at) s
Wired text (pipe left right) t at s =
    Wired text left (put t 1 (write_side at)) (false ∷ at) s
    ⊎ Wired text right (put t 0 (read_side at)) (false ∷ true ∷ at) s
Wired text (back cmd) t at s = Wired text cmd t (false ∷ at) s

-- The program s is wired for the tree that parsecmd makes of the line.
abbrev pub WiredFor : Bytes → Table → ForkPath → Started → Type 0
WiredFor text t at s =
    (cmd : Cmd) × (used : ℕ) × (parsecmd text ≡ ok (cmd, used))
    × Wired (nulterminate cmd text) cmd t at s
