-- ===== src/Sh/Tests.antt =====
-- sh.c: runs on small lines, and the theorems at such lines.
use jyyos.Prelude.{
  ◌↔◌, ◌<◌, ℕ, zero, suc, ◌≡◌, ◌≢◌, refl, arith, none, some, List, [], ◌∷◌, ◌++◌, map,
}
use jyyos.Prelude.CText.{Bytes, newline, unlines, until_nul}
use jyyos.Sh.{Word, Cmd, exec, redir, pipe, back, mem_size, skip, gettoken, peek}
use jyyos.Sh.Lex.{HasNoNul}
use jyyos.Sh.Parse.{
  ok, panicked, stuck, parsecmd, zalloc, redir_of, parse_redirs, parse_args, parse_backs,
  parse_simple, parse_line,
}
use jyyos.Sh.Parse.Sound.{Holds, size_of}
use jyyos.Sh.Parse.Phrase.{
  Operator, input, Line, Command, last, one, into, simple, line_symbols, line_tree, Fits, StandsFor,
}
use jyyos.Sh.Parse.Phrase.Bytewise.{GetsAll-ConsistsOf}
use jyyos.Sh.Parse.Phrase.Exact.{parsecmd-StandsFor}
use jyyos.Sh.Parse.Ensures.{Ensures}
use jyyos.Sh.Terminate.{parse_and_end, nulterminate, end_words, string_at}
use jyyos.Sh.Terminate.Words.{Reads, parse_and_end-Reads}
use jyyos.Prelude.Int.{pos}
use jyyos.Prelude.{ℕ, ltb, if◌then◌else◌, false}
use jyyos.Sh.Run.{child, runcmd, Reply, Process}
use jyyos.Prelude.Table.{put, clear}
use jyyos.Sh.Run.Wiring.{Table, terminal, read_side, write_side, Started}
use jyyos.Sh.Run.Calls.{Calls, Asked, child-Calls}
use jyyos.Sh.Loop.{shell, getcmd, read_bytes, action_of, chdir, spawn}
use jyyos.Sh.Loop.Lines.{meant, shell-unlines, shell-ne-none}

abbrev NoNuls : Bytes → Type 0
NoNuls [] = Unit {0}
NoNuls (b ∷ bs) = (b ≢ 0) × NoNuls bs

NoNuls-HasNoNul : (text : Bytes) → NoNuls text → HasNoNul text
NoNuls-HasNoNul [] h i k = elim k [ ]
NoNuls-HasNoNul (b ∷ bs) (z, h) zero k = z
NoNuls-HasNoNul (b ∷ bs) (z, h) (suc i) k = NoNuls-HasNoNul bs h i (omega arith)

-- "ls <f | wc &\n"
abbrev line : Bytes
line =
    b'l' ∷ b's' ∷ b' ' ∷ b'<' ∷ b'f' ∷ b' ' ∷ b'|' ∷ b' ' ∷ b'w' ∷ b'c' ∷ b' ' ∷ b'&' ∷ newline ∷ []

abbrev word_of : ℕ → ℕ → Word
word_of a b = record { start = a; stop = b }

abbrev tree : Cmd
tree = back (pipe (redir (exec (word_of 0 2 ∷ [])) (word_of 4 5) 0 0) (exec (word_of 8 10 ∷ [])))

tree_of_line : parsecmd line ≡ ok (tree, 416)
unfolding parsecmd parse_line parse_simple parse_args parse_backs parse_redirs redir_of zalloc
    gettoken peek skip
tree_of_line = refl

-- "(ls"
unclosed : parsecmd (b'(' ∷ b'l' ∷ b's' ∷ []) ≡ panicked
unfolding parsecmd parse_line parse_simple parse_args parse_backs parse_redirs redir_of zalloc
    gettoken peek skip
unclosed = refl

second_word : string_at (nulterminate tree line) 8 ≡ b'w' ∷ b'c' ∷ []
unfolding nulterminate end_words until_nul
second_word = refl

line-HasNoNul : HasNoNul line
line-HasNoNul = NoNuls-HasNoNul line (omega arith)

abbrev plain : Word → List (Operator × Word) → Command
plain w ms = simple [] ((w, ms) ∷ [])

abbrev phrase : Line
phrase =
    last (into (plain (word_of 0 2) ((input, word_of 4 5) ∷ [])) (one (plain (word_of 8 10) []))) 1

line-StandsFor : StandsFor line tree
unfolding gettoken skip line_symbols line_tree Fits
line-StandsFor = (
  phrase,
  GetsAll-ConsistsOf line line-HasNoNul (line_symbols phrase)
      ((refl, refl), (refl, ((refl, refl), (refl, ((refl, refl), (refl, refl)))))),
  (omega arith, omega arith),
  refl,
)

parsecmd-StandsFor_example :
    (parsecmd line ≢ stuck)
    × ((parsecmd line ≡ ok (tree, 416))
        ↔ (StandsFor line tree × (416 ≡ size_of tree) × (416 < mem_size)))
parsecmd-StandsFor_example = parsecmd-StandsFor line tree 416 line-HasNoNul

tree_by_grammar : parsecmd line ≡ ok (tree, 416)
tree_by_grammar =
    (parsecmd-StandsFor line tree 416 line-HasNoNul).1.1 (line-StandsFor, refl, omega arith)

parse_and_end-Reads_example :
    Ensures (λ (cmd, used, b). Holds (Reads line b) cmd) (parse_and_end line)
parse_and_end-Reads_example = parse_and_end-Reads line line-HasNoNul

child-Calls_example : Ensures (Calls (Asked line)) (child line)
child-Calls_example = child-Calls line line-HasNoNul

-- "cd a" and "ls"
abbrev commands : List Bytes
commands = (b'c' ∷ b'd' ∷ b' ' ∷ b'a' ∷ []) ∷ (b'l' ∷ b's' ∷ []) ∷ []

run_commands :
    shell 3 (unlines commands) ≡ some (chdir (b'a' ∷ []) ∷ spawn (b'l' ∷ b's' ∷ newline ∷ []) ∷ [])
unfolding shell getcmd read_bytes action_of until_nul
run_commands = refl

shell-unlines_example : shell 3 (unlines commands ++ b'x' ∷ []) ≡ some (map meant commands)
shell-unlines_example =
    shell-unlines 3 commands (b'x' ∷ []) (omega arith) (omega arith) (omega arith) (omega arith)

shell-ne-none_example : shell 14 line ≢ none
shell-ne-none_example = shell-ne-none 14 line (omega arith)

abbrev process : Process
process = runcmd (nulterminate tree line) 416 tree

-- 0, 1 and 2 are open.
abbrev standard : Table
standard m = if ltb m 3 then some (terminal m) else none

abbrev piped : Table
piped = put (put standard 3 (read_side (false ∷ []))) 4 (write_side (false ∷ []))

abbrev wc : Started
wc = record {
  path = b'/' ∷ b'b' ∷ b'i' ∷ b'n' ∷ b'/' ∷ b'w' ∷ b'c' ∷ [];
  argv = (b'w' ∷ b'c' ∷ []) ∷ [];
  fds = clear (clear (put (clear piped 0) 0 (read_side (false ∷ []))) 3) 4;
}

abbrev reply : ℕ → Reply
reply n = record { value = pos n; read_end = 3; write_end = 4 }
