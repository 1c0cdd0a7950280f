-- ===== src/Sh/Loop.antt =====
-- sh.c, getcmd and main: the command loop. The input is the bytes that are left to read, and the
-- shell's own calls and the lines that it gives to a child are listed in their order.
pub mod Lines
use jyyos.Prelude.{ℕ, zero, suc, ◌-◌, Bool, true, false, ◌&&◌, ◌==◌, if◌then◌else◌}
use jyyos.Prelude.{Option, none, some, List, [], ◌∷◌, length, take, drop, get_or}
use jyyos.Prelude.CText.{Bytes, newline, until_nul}

-- `static char buf[100]`.
abbrev pub buf_size : ℕ
buf_size = 100

-- The loop of getcmd with room for n more bytes; none is the end of the input, -1.
unfoldable pub read_bytes : ℕ → Bytes → Option (Bytes × Bytes)
read_bytes zero input = some ([], input)
read_bytes (suc n) [] = none
read_bytes (suc n) (b ∷ input) =
    let rest = read_bytes n input in
    if b == newline
    then some (b ∷ [], input)
    else elim rest [ none ↦ none | some (line, left) ↦ some (b ∷ line, left) ]

unfoldable pub getcmd : Bytes → Option (Bytes × Bytes)
unfolding read_bytes
getcmd input = read_bytes (buf_size - 1) input

-- What main does with a line: its own chdir, or a child that parses and runs the line.
pub data Action : Type 0 where
  chdir : Bytes → Action
  spawn : Bytes → Action

-- The buffer's string; a line that begins with "cd " loses its last byte.
unfoldable pub action_of : Bytes → Action
action_of line =
    let buf = until_nul line in
    if get_or line 0 0 == b'c' && get_or line 1 0 == b'd' && get_or line 2 0 == b' '
    then chdir (drop 3 (take (length buf - 1) buf))
    else spawn buf

-- The loop of main; `none` is the fuel running out.
unfoldable pub shell : ℕ → Bytes → Option (List Action)
shell zero input = none
shell (suc fuel) input = elim (getcmd input) [
  | none ↦ some []
  | some (line, rest) ↦ elim (shell fuel rest) [
    | none ↦ none
    | some actions ↦ some (action_of line ∷ actions)
  ]
]
