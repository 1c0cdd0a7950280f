-- ===== src/Sh/Run/Calls.antt =====
-- sh.c, runcmd: which programs and files a process that runs a line asks the kernel for, whatever
-- the kernel replies.
use jyyos.Prelude.{
  ℕ, ◌+◌, ◌-◌, ◌≡◌, refl, ltb, if◌then◌else◌, Bool, true, false, length, List, [], ◌∷◌, ◌++◌, take,
  drop,
}
use jyyos.Prelude.CText.{Bytes}
use jyyos.Prelude.Int.{is_neg}
use jyyos.Sh.{Word, Cmd, exec, redir, pipe, list, back, mem_size}
use jyyos.Sh.Lex.{HasNoNul, IsWord}
use jyyos.Sh.Parse.Ensures.{Ensures, Ensures-bind, returns}
use jyyos.Sh.Parse.Sound.{All, Holds}
use jyyos.Sh.Terminate.{string_at}
use jyyos.Sh.Terminate.Words.{Reads, parse_and_end-Reads}
use jyyos.Sh.Run.{Call, Reply, Process, exit, call, panic, bin, strings, run_exec, runcmd, child}
use jyyos.Prelude.Int.{is_zero}
use jyyos.Sh.Run.{execve, open_file, close, dup, make_pipe, fork, wait, write}

-- P holds of every call of a process, whatever the replies.
abbrev pub Calls : (Call → Type 0) → Process → Type 0
Calls P (exit code) = Unit {0}
Calls P (call c k) = P c × ((r : Reply) → Calls P (k r))

-- A string is a word of the line.
pub record IsWordOf (text s : Bytes) : Type 0 where
  pub word : Word
  pub is_word : IsWord text word
  pub is_string : s ≡ take (word.stop - word.start) (drop word.start text)

-- What a call may ask for: a program of /bin under the name of its first argument, its arguments
-- words of the line, and a file that is a word of the line.
abbrev pub Asked : Bytes → Call → Type 0
Asked text (execve path []) = ⊥
Asked text (execve path (name ∷ argv)) = (path ≡ bin ++ name) × All (IsWordOf text) (name ∷ argv)
Asked text (open_file path mode) = IsWordOf text path
Asked text (close n) = Unit {0}
Asked text (dup n) = Unit {0}
Asked text make_pipe = Unit {0}
Asked text fork = Unit {0}
Asked text wait = Unit {0}
Asked text (write bytes) = Unit {0}

Calls-if :
    (P : Call → Type 0) (b : Bool) (p q : Process)
    → Calls P p
    → Calls P q
    → Calls P (if b then p else q)
Calls-if P true p q h k = h
Calls-if P false p q h k = k

module _ (text b : Bytes) where
  run_exec-Calls :
      (used : ℕ) (argv : List Bytes)
      → All (IsWordOf text) argv
      → Calls (Asked text) (run_exec used argv)
  unfolding run_exec
  run_exec-Calls used [] h = tt
  run_exec-Calls used (name ∷ argv) h =
      Calls-if (Asked text) (ltb (used + (5 + length name + 1)) mem_size) _ panic
        ((refl, h), λ r. (tt, λ _. (tt, λ _. (tt, λ _. tt)))) (tt, λ _. tt)

  Reads-IsWordOf : (w : Word) → Reads text b w → IsWordOf text (string_at b w.start)
  Reads-IsWordOf w (v, e) = record { word = w; is_word = v; is_string = e }

  strings-IsWordOf : (ws : List Word) → All (Reads text b) ws → All (IsWordOf text) (strings b ws)
  strings-IsWordOf [] h = tt
  strings-IsWordOf (w ∷ ws) (h, hs) = (Reads-IsWordOf w h, strings-IsWordOf ws hs)

  runcmd-Calls :
      (used : ℕ) (cmd : Cmd) → Holds (Reads text b) cmd → Calls (Asked text) (runcmd b used cmd)
  unfolding runcmd
  runcmd-Calls used (exec args) (h, few) =
      run_exec-Calls used (strings b args) (strings-IsWordOf args h)
  runcmd-Calls used (redir cmd file mode fd) (h, f, std) = (
    tt,
    λ _. (
      Reads-IsWordOf file f,
      λ r.
          Calls-if (Asked text) (is_neg r.value) _ _ (tt, λ _. (tt, λ _. (tt, λ _. tt)))
            (runcmd-Calls used cmd h),
    ),
  )
  runcmd-Calls used (list left right) (h, k) = (
    tt,
    λ r.
        Calls-if (Asked text) (is_zero r.value) _ _ (runcmd-Calls used left h)
          (tt, λ _. runcmd-Calls used right k),
  )
  runcmd-Calls used (pipe left right) (h, k) = (
    tt,
    λ p.
        Calls-if (Asked text) (is_neg p.value) _ _ (tt, λ _. tt)
          (
            tt,
            λ r.
                Calls-if (Asked text) (is_zero r.value) _ _
                  (tt, λ _. (tt, λ _. (tt, λ _. (tt, λ _. runcmd-Calls used left h))))
                  (
                    tt,
                    λ r'.
                        Calls-if (Asked text) (is_zero r'.value) _ _
                          (tt, λ _. (tt, λ _. (tt, λ _. (tt, λ _. runcmd-Calls used right k))))
                          (tt, λ _. (tt, λ _. (tt, λ _. (tt, λ _. tt)))),
                  ),
          ),
  )
  runcmd-Calls used (back cmd) h =
      (tt, λ r. Calls-if (Asked text) (is_zero r.value) _ _ (runcmd-Calls used cmd h) tt)

-- On every line without a NUL the child ends the parse with a failed assert or becomes a process
-- that, whatever the kernel replies, executes only programs of /bin under the name of their first
-- argument, with arguments that are words of the line, and opens only files that are words of the
-- line.
pub child-Calls : (text : Bytes) → HasNoNul text → Ensures (Calls (Asked text)) (child text)
unfolding child
child-Calls text live =
    Ensures-bind (parse_and_end-Reads text live)
      λ (cmd, used, b) h. returns (runcmd-Calls text b used cmd h)
