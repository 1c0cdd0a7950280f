-- ===== src/Sh/Parse/Phrase/Parses.antt =====
-- sh.c, parseline, parsepipe, parseexec and parseblock on a line that shows a phrase.
use jyyos.Prelude.{ℕ, zero, suc, ◌+◌, ◌*◌, ◌<◌, ◌≡◌, refl, Bool, true, false, arith}
use jyyos.Prelude.{List, [], ◌∷◌, ◌++◌, length, length-map, ◌==◌, ◌||◌}
use jyyos.Prelude.CText.{Bytes}
use jyyos.Sh.{Cmd, Word, back, mem_size, gettoken}
use jyyos.Sh.Parse.{parse_line, parse_pipe, parse_exec, parse_block, size_pair, size_back}
use jyyos.Sh.Parse.Sound.{size_of, size_of-wrap}
use jyyos.Sh.Parse.Phrase.{
  Mark, Line, Pipeline, Command, last, then, one, into, simple, block, mark_symbols, back_symbols,
  in_back, line_symbols, pipeline_symbols, command_symbols, line_tree, pipeline_tree, command_tree,
  Fits, PipelineFits, CommandFits, redirs_for, redir_for, word_symbols, input, output, appended,
  a_sign, closing,
}
use jyyos.Sh.Parse.Phrase.Reading.{
  Gets, Ready, gettoken-Ready, Gets-Ready, Gets-append, sees, peek-sees,
}
use jyyos.Sh.Parse.Phrase.Gives.{Gives, gives, out_of_fuel, Gives-bind, state, zalloc-Gives}
use jyyos.Sh.Parse.Phrase.Loops.{
  ahead, ends_command, redirs_end, parse_redirs-Gives, parse_backs-Gives, parse_simple-Gives,
}

-- What may stand behind a line.
abbrev ends_line : ℕ → Bool
ends_line k = k == 0 || k == b')'

-- What may stand behind a pipeline.
abbrev ends_pipeline : ℕ → Bool
ends_pipeline k = ends_line k || k == b'&' || k == b';'

size_of-in_back : (n : ℕ) (cmd : Cmd) → size_of (in_back n cmd) ≡ size_of cmd + size_back * n
size_of-in_back zero cmd = omega arith
size_of-in_back (suc n) cmd = omega (arith, size_of-in_back n (back cmd))

line_pipeline : (k : ℕ) → ends_line k ≡ true → ends_pipeline k ≡ true
line_pipeline k h = ground arith

pipeline_command : (k : ℕ) → ends_pipeline k ≡ true → ends_command k ≡ true
pipeline_command k h = ground arith

no_bar : (k : ℕ) → ends_pipeline k ≡ true → sees (b'|' ∷ []) k ≡ false
no_bar k h = ground arith

no_back : (k : ℕ) → ends_line k ≡ true → sees (b'&' ∷ []) k ≡ false
no_back k h = ground arith

no_semicolon : (k : ℕ) → ends_line k ≡ true → sees (b';' ∷ []) k ≡ false
no_semicolon k h = ground arith

no_block : (k : ℕ) → ends_command k ≡ true → sees (b'(' ∷ []) k ≡ false
no_block k h = ground arith

module _ (text : Bytes) where
  simple_ahead :
      (ms : List Mark) (ws : List (Word × List Mark)) (p q : ℕ)
      → Gets text p (mark_symbols ms ++ word_symbols ws) q
      → ends_command (ahead text q) ≡ true
      → sees (b'(' ∷ []) (ahead text p) ≡ false
  simple_ahead [] [] p q h e = rw h (no_block (ahead text q) e)
  simple_ahead [] (w ∷ ws) p q ((kind, _), _) e = rw kind refl
  simple_ahead ((input, w) ∷ ms) ws p q (kind, _) e = rw kind refl
  simple_ahead ((output, w) ∷ ms) ws p q (kind, _) e = rw kind refl
  simple_ahead ((appended, w) ∷ ms) ws p q (kind, _) e = rw kind refl

  backs_ahead :
      (n : ℕ) (p q : ℕ)
      → Gets text p (back_symbols n) q
      → ends_pipeline (ahead text q) ≡ true
      → ends_pipeline (ahead text p) ≡ true
  backs_ahead zero p q h e = rw h e
  backs_ahead (suc n) p q (kind, _) e = rw kind refl

  mutual
    unfolding parse_line line_symbols line_tree Fits

    pub line-Gives :
        (fuel : ℕ) (l : Line) (p q u u' : ℕ)
        → Ready text p
        → Gets text p (line_symbols l) q
        → ends_line (ahead text q) ≡ true
        → Fits l
        → u' ≡ u + size_of (line_tree l)
        → u' < mem_size
        → Gives (line_tree l, state q u') (parse_line text fuel (state p u))
    line-Gives zero l p q u u' r h stop fit e room = out_of_fuel
    line-Gives (suc fuel) (last c n) p q u u' r h stop fit e room =
        let (m, first, backs) = Gets-append text (pipeline_symbols c) _ p q h in
        let v = u + size_of (pipeline_tree c) in
        let r₁ = Gets-Ready text (pipeline_symbols c) p m r first in
        let seen =
          peek-sees (b';' ∷ []) (λ c g. ground arith) text q
            (Gets-Ready text (back_symbols n) m q r₁ backs) in
        let sizes = size_of-in_back n (pipeline_tree c) in
        Gives-bind _
          (pipe-Gives fuel c p m u v r first
            (backs_ahead n m q backs (line_pipeline (ahead text q) stop)) fit refl
            (omega (arith, sizes)))
          (Gives-bind _
            (parse_backs-Gives text (length text + 1) n _ m q v u' r₁ backs
              (no_back (ahead text q) stop) (omega (arith, sizes)) room)
            (rw (seen, no_semicolon (ahead text q) stop) gives))
    line-Gives (suc fuel) (then c n l) p q u u' r h stop (fit, fits) e room =
        let (m, first, behind) = Gets-append text (pipeline_symbols c) _ p q h in
        let (k, backs, (semi, rest)) = Gets-append text (back_symbols n) _ m q behind in
        let v = u + size_of (pipeline_tree c) in
        let w = v + size_back * n in
        let r₁ = Gets-Ready text (pipeline_symbols c) p m r first in
        let seen =
          peek-sees (b';' ∷ []) (λ c g. ground arith) text k
            (Gets-Ready text (back_symbols n) m k r₁ backs) in
        let sizes = size_of-in_back n (pipeline_tree c) in
        Gives-bind _
          (pipe-Gives fuel c p m u v r first (backs_ahead n m k backs (rw semi refl)) fit refl
            (omega (arith, sizes)))
          (Gives-bind _
            (parse_backs-Gives text (length text + 1) n _ m k v w r₁ backs (rw semi refl) refl
              (omega (arith, sizes)))
            (rw (seen, semi)
              (Gives-bind _
                (line-Gives fuel l _ q w (w + size_of (line_tree l)) (gettoken-Ready text k) rest
                  stop fits refl (omega (arith, sizes)))
                (Gives-bind _ (zalloc-Gives size_pair q _ u' (omega (arith, sizes)) room) gives))))

    pipe-Gives :
        (fuel : ℕ) (c : Pipeline) (p q u u' : ℕ)
        → Ready text p
        → Gets text p (pipeline_symbols c) q
        → ends_pipeline (ahead text q) ≡ true
        → PipelineFits c
        → u' ≡ u + size_of (pipeline_tree c)
        → u' < mem_size
        → Gives (pipeline_tree c, state q u') (parse_pipe text fuel (state p u))
    pipe-Gives zero c p q u u' r h stop fit e room = out_of_fuel
    pipe-Gives (suc fuel) (one c) p q u u' r h stop fit e room =
        let seen =
          peek-sees (b'|' ∷ []) (λ c g. ground arith) text q
            (Gets-Ready text (command_symbols c) p q r h) in
        Gives-bind _
          (exec-Gives fuel c p q u u' r h (pipeline_command (ahead text q) stop) fit e room)
          (rw (seen, no_bar (ahead text q) stop) gives)
    pipe-Gives (suc fuel) (into c d) p q u u' r h stop (fit, fits) e room =
        let (m, first, (bar, rest)) = Gets-append text (command_symbols c) _ p q h in
        let seen =
          peek-sees (b'|' ∷ []) (λ c g. ground arith) text m
            (Gets-Ready text (command_symbols c) p m r first) in
        let v = u + size_of (command_tree c) in
        Gives-bind _ (exec-Gives fuel c p m u v r first (rw bar refl) fit refl (omega arith)) (
          rw (seen, bar)
            (Gives-bind _
              (pipe-Gives fuel d _ q v (v + size_of (pipeline_tree d)) (gettoken-Ready text m) rest
                stop fits refl (omega arith))
              (Gives-bind _ (zalloc-Gives size_pair q _ u' (omega arith) room) gives)))

    exec-Gives :
        (fuel : ℕ) (c : Command) (p q u u' : ℕ)
        → Ready text p
        → Gets text p (command_symbols c) q
        → ends_command (ahead text q) ≡ true
        → CommandFits c
        → u' ≡ u + size_of (command_tree c)
        → u' < mem_size
        → Gives (command_tree c, state q u') (parse_exec text fuel (state p u))
    exec-Gives zero c p q u u' r h stop fit e room = out_of_fuel
    exec-Gives (suc fuel) (simple ms ws) p q u u' r h stop fit e room =
        let seen = peek-sees (b'(' ∷ []) (λ c g. ground arith) text p r in
        rw (seen, simple_ahead ms ws p q h stop)
          (parse_simple-Gives text ms ws p q u u' r h stop fit e room)
    exec-Gives (suc fuel) (block l ms) p q u u' r (opens, h) stop fit e room =
        let seen = peek-sees (b'(' ∷ []) (λ c g. ground arith) text p r in
        rw (seen, opens) (block-Gives fuel l ms p q u u' r opens h stop fit e room)

    block-Gives :
        (fuel : ℕ) (l : Line) (ms : List Mark) (p q u u' : ℕ)
        → Ready text p
        → ahead text p ≡ b'('
        → Gets text (gettoken text p).next (line_symbols l ++ a_sign closing ∷ mark_symbols ms) q
        → ends_command (ahead text q) ≡ true
        → Fits l
        → u' ≡ u + size_of (command_tree (block l ms))
        → u' < mem_size
        → Gives (command_tree (block l ms), state q u') (parse_block text fuel (state p u))
    block-Gives zero l ms p q u u' r opens h stop fit e room = out_of_fuel
    block-Gives (suc fuel) l ms p q u u' r opens h stop fit e room =
        let seen = peek-sees (b'(' ∷ []) (λ c g. ground arith) text p r in
        let (m, inner, (close, rest)) = Gets-append text (line_symbols l) _ _ q h in
        let seen' =
          peek-sees (b')' ∷ []) (λ c g. ground arith) text m
            (Gets-Ready text (line_symbols l) _ m (gettoken-Ready text p) inner) in
        let v = u + size_of (line_tree l) in
        let sizes = size_of-wrap (line_tree l) (redirs_for ms) in
        rw (seen, opens)
          (Gives-bind _
            (line-Gives fuel l _ m u v (gettoken-Ready text p) inner (rw close refl) fit refl
              (omega (arith, sizes, length-map ms redir_for)))
            (rw (seen', close)
              (Gives-bind _
                (parse_redirs-Gives text (length text + 1) ms _ q v u' (gettoken-Ready text m) rest
                  (redirs_end text (ahead text q) stop)
                  (omega (arith, sizes, length-map ms redir_for)) room)
                gives)))
