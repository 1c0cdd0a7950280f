-- ===== src/Sh.antt =====
-- course_code/lecture_8/sh/sh.c and lib.h: the data of the shell, and the tokens of a command line.
-- A line is the list of its bytes before the NUL, and a pointer into it is a position.
pub mod Lex
pub mod Parse
pub mod Terminate
pub mod Run
pub mod Loop
mod Tests
use jyyos.Prelude.{
  ℕ, zero, suc, ◌+◌, ◌-◌, Bool, true, false, not, ◌&&◌, ◌||◌, ltb, ◌==◌, if◌then◌else◌,
}
use jyyos.Prelude.{List, [], ◌∷◌, length, get_or}
use jyyos.Prelude.CText.{Bytes}

-- MAXARGS, and the bytes of `mem`.
abbrev pub max_args : ℕ
max_args = 10

abbrev pub mem_size : ℕ
mem_size = 4096

-- The pointers q and eq of a word: its first byte, and the byte behind its last.
pub record Word : Type 0 where
  pub start : ℕ
  pub stop : ℕ

-- The syntax tree. A redirection has its command, file, mode and descriptor.
pub data Cmd : Type 0 where
  exec : List Word → Cmd
  redir : Cmd → Word → ℕ → ℕ → Cmd
  pipe : Cmd → Cmd → Cmd
  list : Cmd → Cmd → Cmd
  back : Cmd → Cmd

-- *s, for a position in the line or at its end.
abbrev pub at : Bytes → ℕ → ℕ
at text s = get_or text s 0

-- strchr(set, c) != NULL: never for c = 0.
abbrev pub one_of : Bytes → ℕ → Bool
one_of [] c = false
one_of (b ∷ bs) c = b == c || one_of bs c

-- " \t\r\n\v"
abbrev pub is_blank : ℕ → Bool
is_blank = one_of (b' ' ∷ 9 ∷ 13 ∷ 10 ∷ 11 ∷ [])

-- "<|>&;()"
abbrev pub is_symbol : ℕ → Bool
is_symbol = one_of (b'<' ∷ b'|' ∷ b'>' ∷ b'&' ∷ b';' ∷ b'(' ∷ b')' ∷ [])

-- The symbols that are one byte long whatever follows.
abbrev pub is_single : ℕ → Bool
is_single = one_of (b'|' ∷ b'(' ∷ b')' ∷ b';' ∷ b'&' ∷ b'<' ∷ [])

abbrev pub is_word_char : ℕ → Bool
is_word_char c = not (is_blank c) && not (is_symbol c)

-- `while (s < es && test(*s)) s++`, with `left` bytes up to es.
unfoldable pub skip : (ℕ → Bool) → Bytes → ℕ → ℕ → ℕ
skip test text zero s = s
skip test text (suc left) s =
    let rest = skip test text left (s + 1) in if test (at text s) then rest else s

abbrev pub skip_while : (ℕ → Bool) → Bytes → ℕ → ℕ
skip_while test text s = skip test text (length text - s) s

-- What gettoken returns, stores through q and eq, and leaves in *ps.
pub record Token : Type 0 where
  pub kind : ℕ
  pub word : Word
  pub next : ℕ

-- The kind of the token that starts with the byte c, and the position behind it.
abbrev pub token_kind : Bytes → ℕ → ℕ
token_kind text q =
    let c = at text q in
    if c == 0
    then 0
    else if is_single c
    then c
    else if c == b'>'
    then (if at text (q + 1) == b'>' then b'+' else b'>')
    else b'a'

abbrev pub token_stop : Bytes → ℕ → ℕ
token_stop text q =
    let c = at text q in
    if c == 0
    then q
    else if is_single c
    then q + 1
    else if c == b'>'
    then (if at text (q + 1) == b'>' then q + 2 else q + 1)
    else skip_while is_word_char text q

unfoldable pub gettoken : Bytes → ℕ → Token
unfolding skip
gettoken text s =
    let q = skip_while is_blank text s in
    let eq = token_stop text q in
    record {
      kind = token_kind text q;
      word = record { start = q; stop = eq };
      next = skip_while is_blank text eq;
    }

-- The new position, and whether a byte of `toks` stands there.
unfoldable pub peek : Bytes → ℕ → Bytes → ℕ × Bool
unfolding skip
peek text s toks =
    let s' = skip_while is_blank text s in (s', not (at text s' == 0) && one_of toks (at text s'))
