-- ===== src/Sh/Parse/Phrase/Loops.antt =====
-- sh.c, parseredirs and the loops of parseexec and parseline, on a line that shows a phrase.
use jyyos.Prelude.{ℕ, zero, suc, ◌+◌, ◌*◌, ◌<◌, ◌≡◌, refl, sym, Bool, true, false, arith}
use jyyos.Prelude.{
  some, List, [], ◌∷◌, ◌++◌, length, ◌==◌, ◌||◌, ◌⊎◌, inl, inr, lt→ltb, append_assoc, append-nil,
  length-append, ◌∙◌,
}
use jyyos.Prelude.CText.{Bytes}
use jyyos.Sh.{Word, Cmd, exec, back, max_args, mem_size, gettoken}
use jyyos.Sh.Parse.{
  State, Redir, redir_of, parse_redirs, parse_args, parse_backs, parse_simple, size_redir,
  size_back, size_exec, ok,
}
use jyyos.Sh.Parse.Sound.{size_of, size_of-wrap}
use jyyos.Sh.Parse.Phrase.{
  Operator, input, output, appended, Mark, mark_symbols, word_symbols, back_symbols, redir_for,
  redirs_for, word_redirs, words_of, in_back, simple, command_symbols, command_tree,
}
use jyyos.Sh.Parse.Phrase.Reading.{
  sign, Gets, Ready, gettoken-Ready, gettoken-ended, Gets-Ready, Gets-append, sees, peek-sees,
}
use jyyos.Sh.Parse.Phrase.Gives.{
  Gives, gives, out_of_fuel, Gives-bind, Gives-same, state, zalloc-Gives,
}

-- The kind of the token ahead.
abbrev pub ahead : Bytes → ℕ → ℕ
ahead text p = (gettoken text p).kind

-- What may stand behind a command: the end, or a symbol that is not a redirection's or '('.
abbrev pub ends_command : ℕ → Bool
ends_command k = k == 0 || k == b'|' || k == b')' || k == b'&' || k == b';'

module _ (text : Bytes) where
  redir_of-Gives :
      (op : Operator) (file : Word) (p u u' : ℕ)
      → u' ≡ u + size_redir
      → u' < mem_size
      → Gives (some (redir_for (op, file)), state p u') (redir_of text (sign op) file (state p u))
  unfolding redir_of
  redir_of-Gives input file p u u' e h = Gives-bind _ (zalloc-Gives size_redir p u u' e h) gives
  redir_of-Gives output file p u u' e h = Gives-bind _ (zalloc-Gives size_redir p u u' e h) gives
  redir_of-Gives appended file p u u' e h = Gives-bind _ (zalloc-Gives size_redir p u u' e h) gives

  abbrev pub redir_chars : Bytes
  redir_chars = b'<' ∷ b'>' ∷ []

  pub sees-sign : (op : Operator) → sees redir_chars (sign op) ≡ true
  sees-sign input = refl
  sees-sign output = refl
  sees-sign appended = refl

  pub parse_redirs-Gives :
      (fuel : ℕ) (ms : List Mark) (p q u u' : ℕ)
      → Ready text p
      → Gets text p (mark_symbols ms) q
      → sees redir_chars (ahead text q) ≡ false
      → u' ≡ u + size_redir * length ms
      → u' < mem_size
      → Gives (redirs_for ms, state q u') (parse_redirs text fuel (state p u))
  unfolding parse_redirs
  parse_redirs-Gives zero ms p q u u' r h stop e room = out_of_fuel
  parse_redirs-Gives (suc fuel) [] p q u u' r h stop e room =
      let seen = peek-sees redir_chars (λ c g. ground arith) text p r in
      rw (seen, h, stop) (Gives-same [] q u u' (omega arith))
  parse_redirs-Gives (suc fuel) ((op, file) ∷ ms) p q u u' r (kind, ((word, same), h)) stop e room =
      let seen = peek-sees redir_chars (λ c g. ground arith) text p r in
      rw (seen, kind, sees-sign op, word, same)
        (Gives-bind _ (redir_of-Gives op file _ u (u + size_redir) refl (omega arith)) (
          Gives-bind _
            (parse_redirs-Gives fuel ms _ q (u + size_redir) u' (gettoken-Ready text _) h stop
              (omega arith) room)
            gives))

  abbrev pub args_chars : Bytes
  args_chars = b'|' ∷ b')' ∷ b'&' ∷ b';' ∷ []

  pub redirs_end : (k : ℕ) → ends_command k ≡ true → sees redir_chars k ≡ false
  redirs_end k h = ground arith

  args_end : (k : ℕ) → ends_command k ≡ true → (k ≡ 0) ⊎ (sees args_chars k ≡ true)
  args_end k h = ground arith

  redirs_stop :
      (ws : List (Word × List Mark)) (p q : ℕ)
      → Gets text p (word_symbols ws) q
      → ends_command (ahead text q) ≡ true
      → sees redir_chars (ahead text p) ≡ false
  redirs_stop [] p q h e = rw h (redirs_end (ahead text q) e)
  redirs_stop (w ∷ ws) p q ((kind, _), _) e = rw kind refl

  pub length-redirs :
      (ms : List Mark) (rs : List Redir) → length (redirs_for ms ++ rs) ≡ length ms + length rs
  length-redirs [] rs = omega arith
  length-redirs (m ∷ ms) rs = omega (arith, length-redirs ms rs)

  parse_args-Gives :
      (fuel : ℕ) (ws : List (Word × List Mark)) (args all : List Word) (rs every : List Redir)
      (p q u u' : ℕ)
      → Ready text p
      → Gets text p (word_symbols ws) q
      → ends_command (ahead text q) ≡ true
      → length args + length ws < max_args
      → all ≡ args ++ words_of ws
      → every ≡ rs ++ word_redirs ws
      → u' ≡ u + size_redir * length (word_redirs ws)
      → u' < mem_size
      → Gives (all, every, state q u') (parse_args text fuel args rs (state p u))
  unfolding parse_args
  parse_args-Gives zero ws args all rs every p q u u' r h stop few ea er e room = out_of_fuel
  parse_args-Gives (suc fuel) [] args all rs every p q u u' r h stop few ea er e room =
      let seen = peek-sees args_chars (λ c g. ground arith) text p r in
      elim (args_end (ahead text q) stop) [
        | inl z ↦
            let rq = Gets-Ready text [] p q r h in
            rw (seen, h, z, gettoken-ended text q rq z) (at_end (omega arith))
        | inr s ↦ rw (seen, h, s) (at_end (omega arith))
      ]
    where
      at_end :
          u' ≡ u
          → Gives {A = List Word × List Redir × State}
              (all, every, state q u')
              (ok (args, rs, state q u))
      at_end e = rw (ea, er, append-nil args, append-nil rs, e) gives
  parse_args-Gives (suc fuel) ((w, ms) ∷ ws) args all rs every p q u u' r ((kind, same), h) stop few
        ea er e room =
      let seen = peek-sees args_chars (λ c g. ground arith) text p r in
      let (m, redirs, rest) = Gets-append text (mark_symbols ms) (word_symbols ws) _ q h in
      rw (seen, kind, same, lt→ltb (length args + 1) max_args (omega arith))
        (Gives-bind _
          (parse_redirs-Gives (length text + 1) ms _ m u (u + size_redir * length ms)
            (gettoken-Ready text _) redirs (redirs_stop ws m q rest stop) refl
            (omega (arith, length-redirs ms (word_redirs ws))))
          (parse_args-Gives fuel ws (args ++ w ∷ []) all (rs ++ redirs_for ms) every m q
            (u + size_redir * length ms) u'
            (Gets-Ready text (mark_symbols ms) _ m (gettoken-Ready text _) redirs) rest stop
            (omega (arith, length-append args (w ∷ [])))
            (ea ∙ sym (append_assoc args (w ∷ []) (words_of ws)))
            (er ∙ sym (append_assoc rs (redirs_for ms) (word_redirs ws)))
            (omega (arith, length-redirs ms (word_redirs ws))) room))

  pub parse_backs-Gives :
      (fuel n : ℕ) (cmd : Cmd) (p q u u' : ℕ)
      → Ready text p
      → Gets text p (back_symbols n) q
      → sees (b'&' ∷ []) (ahead text q) ≡ false
      → u' ≡ u + size_back * n
      → u' < mem_size
      → Gives (in_back n cmd, state q u') (parse_backs text fuel cmd (state p u))
  unfolding parse_backs
  parse_backs-Gives zero n cmd p q u u' r h stop e room = out_of_fuel
  parse_backs-Gives (suc fuel) zero cmd p q u u' r h stop e room =
      let seen = peek-sees (b'&' ∷ []) (λ c g. ground arith) text p r in
      rw (seen, h, stop) (Gives-same cmd q u u' (omega arith))
  parse_backs-Gives (suc fuel) (suc n) cmd p q u u' r (kind, h) stop e room =
      let seen = peek-sees (b'&' ∷ []) (λ c g. ground arith) text p r in
      rw (seen, kind)
        (Gives-bind _ (zalloc-Gives size_back _ u (u + size_back) refl (omega arith)) (
          parse_backs-Gives fuel n (back cmd) _ q (u + size_back) u' (gettoken-Ready text _) h stop
            (omega arith) room))

  pub parse_simple-Gives :
      (ms : List Mark) (ws : List (Word × List Mark)) (p q u u' : ℕ)
      → Ready text p
      → Gets text p (command_symbols (simple ms ws)) q
      → ends_command (ahead text q) ≡ true
      → length ws < max_args
      → u' ≡ u + size_of (command_tree (simple ms ws))
      → u' < mem_size
      → Gives (command_tree (simple ms ws), state q u') (parse_simple text (state p u))
  unfolding parse_simple command_symbols command_tree
  parse_simple-Gives ms ws p q u u' r h stop few e room =
      let (m, redirs, rest) = Gets-append text (mark_symbols ms) (word_symbols ws) p q h in
      let sizes = size_of-wrap (exec (words_of ws)) (redirs_for ms ++ word_redirs ws) in
      let count = length-redirs ms (word_redirs ws) in
      Gives-bind _ (zalloc-Gives size_exec p u (u + size_exec) refl (omega (arith, sizes, count))) (
        Gives-bind _
          (parse_redirs-Gives (length text + 1) ms p m (u + size_exec)
            (u + size_exec + size_redir * length ms) r redirs (redirs_stop ws m q rest stop) refl
            (omega (arith, sizes, count)))
          (Gives-bind _
            (parse_args-Gives (length text + 1) ws [] (words_of ws) (redirs_for ms)
              (redirs_for ms ++ word_redirs ws) m q (u + size_exec + size_redir * length ms) u'
              (Gets-Ready text (mark_symbols ms) p m r redirs) rest stop (omega arith) refl refl
              (omega (arith, sizes, count)) room)
            gives))
