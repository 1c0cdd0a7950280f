-- ===== src/Sh/Parse/Phrase/Exact.antt =====
-- sh.c, parsecmd: it takes the lines of the grammar and no others.
use jyyos.Prelude.{
  ℕ, ◌+◌, ◌*◌, ◌<◌, ◌≡◌, sym, subst, ◌↔◌, ◌≢◌, [], length, ◌==◌, ==_iff, ◌∙◌, ap, zero, suc, refl,
  arith, ◌∷◌,
}
use jyyos.Prelude.CText.{Bytes}
use jyyos.Sh.{Cmd, mem_size, is_blank, skip_while, peek}
use jyyos.Sh.Lex.{HasNoNul}
use jyyos.Sh.Parse.{ok, stuck, parse_line, parsecmd, parse_pipe, parse_exec}
use jyyos.Sh.Parse.Sound.{size_of}
use jyyos.Sh.Parse.Sound.Grammar.{parsecmd-Holds}
use jyyos.Sh.Parse.Ensures.{Ensures-ok, Ensures-stuck}
use jyyos.Sh.Parse.Phrase.{line_symbols, StandsFor, Line, line_tree, Fits, ConsistsOf}
use jyyos.Sh.Parse.Phrase.Reading.{
  Gets, GetsAll, skip-Ready, Gets-Ready, peek-sees, gettoken-end, peek-skip,
}
use jyyos.Sh.Parse.Phrase.Bytewise.{GetsAll-ConsistsOf, ConsistsOf-GetsAll}
use jyyos.Sh.Parse.Phrase.Gives.{state, Gives, gives, Gives-bind, Gives-Ensures}
use jyyos.Sh.Parse.Phrase.Allows.{Allows, Allows-bind, Allows-assert, Allows-ok}
use jyyos.Sh.Parse.Phrase.Descent.{parse_line-Reads}
use jyyos.Sh.Parse.Phrase.Parses.{line-Gives}

module _ (text : Bytes) (p u : ℕ) where
  abbrev first : ℕ
  first = skip_while is_blank text p

  exec_from : (fuel : ℕ) → parse_exec text fuel (state p u) ≡ parse_exec text fuel (state first u)
  unfolding parse_line
  exec_from zero = refl
  exec_from (suc fuel) = rw (peek-skip text p (b'(' ∷ [])) refl

  pipe_from : (fuel : ℕ) → parse_pipe text fuel (state p u) ≡ parse_pipe text fuel (state first u)
  unfolding parse_line
  pipe_from zero = refl
  pipe_from (suc fuel) = rw (exec_from fuel) refl

  line_from : (fuel : ℕ) → parse_line text fuel (state p u) ≡ parse_line text fuel (state first u)
  unfolding parse_line
  line_from zero = refl
  line_from (suc fuel) = rw (pipe_from fuel) refl

parsecmd-Gives :
    (text : Bytes) (l : Line)
    → GetsAll text (line_symbols l)
    → Fits l
    → size_of (line_tree l) < mem_size
    → Gives (line_tree l, size_of (line_tree l)) (parsecmd text)
unfolding parsecmd
parsecmd-Gives text l h fit room =
    let r = skip-Ready text 0 in
    let q = length text in
    let rq = Gets-Ready text (line_symbols l) _ q r h in
    let seen = peek-sees [] (λ c g. absurd (cc)) text q rq in
    rw (line_from text 0 0 (4 * length text + 4)) (
      Gives-bind _
        (line-Gives text _ l _ q 0 (size_of (line_tree l)) r h (rw (gettoken-end text rq) refl) fit
          (omega arith) room)
        (rw (seen, (==_iff q q).1 refl) gives))

parsecmd-line_tree :
    (text : Bytes) (l : Line)
    → HasNoNul text
    → ConsistsOf text (line_symbols l)
    → Fits l
    → size_of (line_tree l) < mem_size
    → parsecmd text ≡ ok (line_tree l, size_of (line_tree l))
parsecmd-line_tree text l live h fit room =
    Gives-Ensures (parsecmd-Gives text l (ConsistsOf-GetsAll text live (line_symbols l) h) fit room)
      (parsecmd-Holds text live)

parsecmd-Reads :
    (text : Bytes)
    → HasNoNul text
    → Allows (λ (cmd, used). StandsFor text cmd × (used < mem_size)) (parsecmd text)
unfolding parsecmd
parsecmd-Reads text live =
    let fuel = 4 * length text + 4 in
    let s = state (skip_while is_blank text 0) 0 in
    let r = skip-Ready text 0 in
    rw (line_from text 0 0 fuel) (
      Allows-bind _ _ (parse_line text fuel s) _ (parse_line-Reads text fuel s r)
        λ (c, s₁) (l, e, shown, fit, room).
          let r₁ = Gets-Ready text (line_symbols l) s.pos s₁.pos r shown in
          Allows-assert _ ((peek text s₁.pos []).0 == length text) _ λ over. (
            (
              l,
              GetsAll-ConsistsOf text live (line_symbols l) (
                  subst (Gets text s.pos (line_symbols l))
                    (sym (ap (λ r. r.0) (peek-sees [] (λ c g. absurd (cc)) text s₁.pos r₁))
                      ∙ (==_iff _ _).0 over)
                    shown),
              fit,
              e,
            ),
            room,
          ))

-- On a line without a NUL parsecmd ends. It returns a tree and a number of bytes exactly when the
-- bytes of the line spell the symbols of a phrase of the grammar, with whatever blanks round them,
-- where a word is a maximal run of bytes that are neither blank nor a symbol; the phrase's commands
-- have fewer than MAXARGS words each, the tree is that of the phrase, and the number is the sum of
-- the sizes of its nodes and less than `mem` has; otherwise it fails an assert.
pub parsecmd-StandsFor :
    (text : Bytes) (cmd : Cmd) (used : ℕ)
    → HasNoNul text
    → (parsecmd text ≢ stuck)
      × ((parsecmd text ≡ ok (cmd, used))
          ↔ (StandsFor text cmd × (used ≡ size_of cmd) × (used < mem_size)))
parsecmd-StandsFor text cmd used live =
    (Ensures-stuck (parsecmd-Holds text live), (there, back_again))
  where
    there :
        parsecmd text ≡ ok (cmd, used)
        → StandsFor text cmd × (used ≡ size_of cmd) × (used < mem_size)
    there e =
        let (phrase, room) = Allows-ok _ _ _ (parsecmd-Reads text live) e in
        (phrase, (Ensures-ok (parsecmd-Holds text live) e).1, room)

    back_again :
        StandsFor text cmd × (used ≡ size_of cmd) × (used < mem_size)
        → parsecmd text ≡ ok (cmd, used)
    back_again ((l, shown, fit, e), size, room) =
        rw (size, e)
          (parsecmd-line_tree text l live shown fit
            (subst (λ n. n < mem_size) (size ∙ ap size_of e) room))
