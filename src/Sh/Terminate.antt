-- ===== src/Sh/Terminate.antt =====
-- sh.c, nulterminate: a NUL is written behind every word of the tree, in the line itself.
pub mod Words
use jyyos.Prelude.{List, [], ◌∷◌, set, ℕ, drop}
use jyyos.Prelude.CText.{Bytes, until_nul}
use jyyos.Sh.{Word, Cmd, exec, redir, pipe, list, back}
use jyyos.Sh.Parse.{Outcome, ok, panicked, stuck, ◌>>=◌, parsecmd}

-- `*w.stop = 0`. A word that ends at the end of the line has the line's own NUL there, which is not
-- in the list.
abbrev pub end_word : Word → Bytes → Bytes
end_word w text = set text w.stop 0

unfoldable pub end_words : List Word → Bytes → Bytes
end_words [] text = text
end_words (w ∷ ws) text = end_words ws (end_word w text)

unfoldable pub nulterminate : Cmd → Bytes → Bytes
unfolding end_words
nulterminate (exec args) text = end_words args text
nulterminate (redir cmd file mode fd) text = end_word file (nulterminate cmd text)
nulterminate (pipe left right) text = nulterminate right (nulterminate left text)
nulterminate (list left right) text = nulterminate right (nulterminate left text)
nulterminate (back cmd) text = nulterminate cmd text

-- The C string that starts at a position of the line.
abbrev pub string_at : Bytes → ℕ → Bytes
string_at text s = until_nul (drop s text)

-- parsecmd as a whole: the tree, the bytes of `mem` taken, and the line with the words ended.
unfoldable pub parse_and_end : Bytes → Outcome (Cmd × ℕ × Bytes)
parse_and_end text = parsecmd text >>= λ (cmd, used). ok (cmd, used, nulterminate cmd text)
