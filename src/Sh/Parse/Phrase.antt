-- ===== src/Sh/Parse/Phrase.antt =====
-- sh.c, parsecmd: the grammar of a command line, without the parser. What a phrase of it consists
-- of, symbol by symbol; the tree that it stands for; and when a line shows it.
pub mod Allows
pub mod Gives
pub mod Reading
pub mod Loops
pub mod Shown
pub mod Parses
pub mod Descent
pub mod Bytewise
pub mod Exact
use jyyos.Prelude.{ℕ, zero, suc, ◌+◌, ◌≤◌, ◌≢◌, ◌≡◌, ◌<◌, true, List, [], ◌∷◌, ◌++◌, map, length}
use jyyos.Prelude.CText.{Bytes}
use jyyos.Sh.{Word, Cmd, exec, pipe, list, back, is_blank, max_args, at}
use jyyos.Sh.Lex.{IsWord}
use jyyos.Sh.Parse.{Redir, wrap, read_only, create_truncate, create}

pub data Operator : Type 0 where
  input output appended : Operator

-- An operator and its file.
abbrev pub Mark : Type 0
Mark = Operator × Word

-- A line is pipelines with their numbers of '&', and ';' between them; a pipeline is commands with
-- '|' between them; a command is redirections and then words with redirections behind them, or a
-- line in parentheses with redirections behind it.
mutual
  pub data Line : Type 0 where
    last : Pipeline → ℕ → Line
    then : Pipeline → ℕ → Line → Line

  pub data Pipeline : Type 0 where
    one : Command → Pipeline
    into : Command → Pipeline → Pipeline

  pub data Command : Type 0 where
    simple : List Mark → List (Word × List Mark) → Command
    block : Line → List Mark → Command

pub data Sign : Type 0 where
  redirects : Operator → Sign
  a_bar an_ampersand a_semicolon opening closing : Sign

pub data Symbol : Type 0 where
  a_word : Word → Symbol
  a_sign : Sign → Symbol

abbrev pub mark_symbols : List Mark → List Symbol
mark_symbols [] = []
mark_symbols ((op, file) ∷ ms) = a_sign (redirects op) ∷ a_word file ∷ mark_symbols ms

abbrev pub word_symbols : List (Word × List Mark) → List Symbol
word_symbols [] = []
word_symbols ((w, ms) ∷ ws) = a_word w ∷ mark_symbols ms ++ word_symbols ws

abbrev pub back_symbols : ℕ → List Symbol
back_symbols zero = []
back_symbols (suc n) = a_sign an_ampersand ∷ back_symbols n

unfoldable mutual
  pub line_symbols : Line → List Symbol
  line_symbols (last p n) = pipeline_symbols p ++ back_symbols n
  line_symbols (then p n l) =
      pipeline_symbols p ++ (back_symbols n ++ a_sign a_semicolon ∷ line_symbols l)

  pub pipeline_symbols : Pipeline → List Symbol
  pipeline_symbols (one c) = command_symbols c
  pipeline_symbols (into c p) = command_symbols c ++ a_sign a_bar ∷ pipeline_symbols p

  pub command_symbols : Command → List Symbol
  command_symbols (simple ms ws) = mark_symbols ms ++ word_symbols ws
  command_symbols (block l ms) = a_sign opening ∷ line_symbols l ++ a_sign closing ∷ mark_symbols ms

abbrev pub redir_for : Mark → Redir
redir_for (input, file) = record { file = file; mode = read_only; fd = 0 }
redir_for (output, file) = record { file = file; mode = create_truncate; fd = 1 }
redir_for (appended, file) = record { file = file; mode = create; fd = 1 }

abbrev pub redirs_for : List Mark → List Redir
redirs_for = map redir_for

abbrev pub word_redirs : List (Word × List Mark) → List Redir
word_redirs [] = []
word_redirs ((w, ms) ∷ ws) = redirs_for ms ++ word_redirs ws

abbrev pub words_of : List (Word × List Mark) → List Word
words_of = map (λ w. w.0)

abbrev pub in_back : ℕ → Cmd → Cmd
in_back zero cmd = cmd
in_back (suc n) cmd = in_back n (back cmd)

-- The tree of a phrase: ';' and '|' group to the right, the redirection that stands first is the
-- innermost, wherever among the words it stands, and '&' is round the pipeline before it.
unfoldable mutual
  pub line_tree : Line → Cmd
  line_tree (last p n) = in_back n (pipeline_tree p)
  line_tree (then p n l) = list (in_back n (pipeline_tree p)) (line_tree l)

  pub pipeline_tree : Pipeline → Cmd
  pipeline_tree (one c) = command_tree c
  pipeline_tree (into c p) = pipe (command_tree c) (pipeline_tree p)

  pub command_tree : Command → Cmd
  command_tree (simple ms ws) = wrap (exec (words_of ws)) (redirs_for ms ++ word_redirs ws)
  command_tree (block l ms) = wrap (line_tree l) (redirs_for ms)

-- Every command has fewer than MAXARGS words.
unfoldable mutual
  pub Fits : Line → Type 0
  Fits (last p n) = PipelineFits p
  Fits (then p n l) = PipelineFits p × Fits l

  pub PipelineFits : Pipeline → Type 0
  PipelineFits (one c) = CommandFits c
  PipelineFits (into c p) = CommandFits c × PipelineFits p

  pub CommandFits : Command → Type 0
  CommandFits (simple ms ws) = length ws < max_args
  CommandFits (block l ms) = Fits l

-- The byte c stands at p alone.
abbrev pub IsByte : Bytes → ℕ → ℕ → ℕ → Type 0
IsByte text p r c = (at text p ≡ c) × (r ≡ p + 1)

-- A symbol stands in the line from p up to r: a word is a maximal run of bytes that are neither
-- blank nor a symbol, and ">>" is one symbol.
abbrev pub Spelled : Bytes → ℕ → ℕ → Symbol → Type 0
Spelled text p r (a_word w) = (w.start ≡ p) × (w.stop ≡ r) × IsWord text w
Spelled text p r (a_sign (redirects input)) = IsByte text p r b'<'
Spelled text p r (a_sign (redirects output)) = IsByte text p r b'>' × (at text (p + 1) ≢ b'>')
Spelled text p r (a_sign (redirects appended)) =
    (at text p ≡ b'>') × (at text (p + 1) ≡ b'>') × (r ≡ p + 2)
Spelled text p r (a_sign a_bar) = IsByte text p r b'|'
Spelled text p r (a_sign an_ampersand) = IsByte text p r b'&'
Spelled text p r (a_sign a_semicolon) = IsByte text p r b';'
Spelled text p r (a_sign opening) = IsByte text p r b'('
Spelled text p r (a_sign closing) = IsByte text p r b')'

-- From p up to r the line has blanks.
pub record Blanks (text : Bytes) (p r : ℕ) : Type 0 where
  pub forward : p ≤ r
  pub within : r ≤ length text
  pub blank : (i : ℕ) → p ≤ i → i < r → is_blank (at text i) ≡ true

-- From p up to q the line has the symbols one after the other, with blanks behind each.
abbrev pub Spells : Bytes → ℕ → ℕ → List Symbol → Type 0
Spells text p q [] = p ≡ q
Spells text p q (s ∷ ss) =
    (r : ℕ) × Spelled text p r s × ((p' : ℕ) × Blanks text r p' × Spells text p' q ss)

-- The line consists of the symbols, with whatever blanks round them.
abbrev pub ConsistsOf : Bytes → List Symbol → Type 0
ConsistsOf text ss = (p : ℕ) × Blanks text 0 p × Spells text p (length text) ss

-- The line consists of the symbols of a phrase whose commands have fewer than MAXARGS words, and
-- the tree is that of the phrase.
abbrev pub StandsFor : Bytes → Cmd → Type 0
StandsFor text cmd = (l : Line) × ConsistsOf text (line_symbols l) × Fits l × (cmd ≡ line_tree l)
