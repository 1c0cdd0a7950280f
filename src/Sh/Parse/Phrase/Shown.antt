-- ===== src/Sh/Parse/Phrase/Shown.antt =====
-- sh.c, parseredirs and the loops of parseexec and parseline: the phrases that they have read.
use jyyos.Prelude.{ℕ, zero, suc, ◌+◌, ◌<◌, ◌≡◌, refl, sym, subst, true, arith, inl, inr}
use jyyos.Prelude.{
  some, Option, List, [], ◌∷◌, ◌++◌, length, ◌==◌, ==_iff, ltb, ltb→lt, append_assoc, append-nil,
  ◌∙◌, Bool-cases, length-append, ap,
}
use jyyos.Prelude.CText.{Bytes}
use jyyos.Sh.{Word, Cmd, back, max_args, gettoken}
use jyyos.Sh.Parse.{
  ok, ◌>>=◌, State, Redir, zalloc, redir_of, parse_redirs, parse_args, parse_backs, parse_simple,
  size_redir, size_back, size_exec,
}
use jyyos.Sh.Parse.Phrase.{
  Operator, input, output, appended, Mark, mark_symbols, word_symbols, back_symbols, redir_for,
  redirs_for, word_redirs, words_of, in_back, simple, command_symbols, command_tree, CommandFits,
  Command,
}
use jyyos.Sh.Parse.Phrase.Reading.{
  sign, Gets, Ready, gettoken-Ready, gettoken-ended, Gets-Ready, sees, peek-sees, Gets-join,
}
use jyyos.Sh.Parse.Phrase.Allows.{
  Allows, Allows-bind, Allows-map, Allows-assert, HasRoom, zalloc-Allows,
}
use jyyos.Sh.Parse.Phrase.Loops.{redir_chars, args_chars, sees-sign}

module _ (text : Bytes) where
  -- One redirection was read, and nothing else changed but the bytes taken.
  abbrev pub Reads : Operator → Word → State → Option Redir × State → Type 0
  Reads op file s (o, s') = (o ≡ some (redir_for (op, file))) × (s'.pos ≡ s.pos) × HasRoom s'

  taken :
      (s : State) (r : Redir)
      → Allows {A = Option Redir × State}
          (λ (o, s'). (o ≡ some r) × (s'.pos ≡ s.pos) × HasRoom s')
          (zalloc size_redir s >>= λ s'. ok (some r, s'))
  taken s r =
      Allows-bind _ _ (zalloc size_redir s) _ (zalloc-Allows size_redir s) λ s' (a, b). (refl, a, b)

  redir_of-Reads :
      (op : Operator) (file : Word) (s : State)
      → Allows (Reads op file s) (redir_of text (sign op) file s)
  unfolding redir_of
  redir_of-Reads input file s = taken s _
  redir_of-Reads output file s = taken s _
  redir_of-Reads appended file s = taken s _

  sign_of : (k : ℕ) → sees (redir_chars text) k ≡ true → (op : Operator) × (k ≡ sign op)
  sign_of k h = elim (Bool-cases (k == b'<')) [
    | inl e ↦ (input, (==_iff _ _).0 e)
    | inr n ↦ elim (Bool-cases (k == b'>')) [
      | inl e ↦ (output, (==_iff _ _).0 e)
      | inr m ↦ (appended, ground arith)
    ]
  ]

  -- The redirections of marks that stand from s on.
  abbrev pub ReadsMarks : State → List Redir × State → Type 0
  ReadsMarks s (rs, s') =
      (ms : List Mark) × (rs ≡ redirs_for ms)
      × Gets text s.pos (mark_symbols ms) s'.pos
      × HasRoom s'

  pub parse_redirs-ReadsMarks :
      (fuel : ℕ) (s : State)
      → Ready text s.pos
      → HasRoom s
      → Allows (ReadsMarks s) (parse_redirs text fuel s)
  unfolding parse_redirs
  parse_redirs-ReadsMarks zero s r room = tt
  parse_redirs-ReadsMarks (suc fuel) s r room =
      let op = gettoken text s.pos in
      let file = gettoken text op.next in
      let seen = peek-sees (redir_chars text) (λ c g. ground arith) text s.pos r in
      elim (Bool-cases (sees (redir_chars text) op.kind)) [
        | inr f ↦ rw (seen, f) ([], refl, refl, room)
        | inl t ↦
            let (sig, k) = sign_of op.kind t in
            rw (seen, k, sees-sign text sig)
              (Allows-assert _ (file.kind == b'a') _ λ is_word.
                Allows-bind _ _ (redir_of text (sign sig) file.word (record s { pos = file.next }))
                  _ (redir_of-Reads sig file.word _)
                  λ (o, s₁) (e, at, room₁).
                    Allows-bind _ _ (parse_redirs text fuel s₁) _
                      (parse_redirs-ReadsMarks fuel s₁
                        (subst (Ready text) (sym at) (gettoken-Ready text _)) room₁)
                      λ (rs, s₂) (ms, er, shown, room₂). (
                        (sig, file.word) ∷ ms,
                        rw (e, er) refl,
                        (
                          k,
                          (
                            ((==_iff file.kind b'a').0 is_word, refl),
                            subst (λ x. Gets text x (mark_symbols ms) s₂.pos) at shown,
                          ),
                        ),
                        room₂,
                      ))
      ]

  -- The words that stand from s on, behind those that were collected.
  abbrev pub ReadsWords : List Word → List Redir → State → List Word × List Redir × State → Type 0
  ReadsWords args rs s (all, every, s') =
      (ws : List (Word × List Mark)) × (all ≡ args ++ words_of ws)
      × (every ≡ rs ++ word_redirs ws)
      × Gets text s.pos (word_symbols ws) s'.pos
      × (length args + length ws < max_args)
      × HasRoom s'

  parse_args-ReadsWords :
      (fuel : ℕ) (args : List Word) (rs : List Redir) (s : State)
      → Ready text s.pos
      → HasRoom s
      → length args < max_args
      → Allows (ReadsWords args rs s) (parse_args text fuel args rs s)
  unfolding parse_args
  parse_args-ReadsWords zero args rs s r room few = tt
  parse_args-ReadsWords (suc fuel) args rs s r room few =
      let t = gettoken text s.pos in
      let seen = peek-sees (args_chars text) (λ c g. ground arith) text s.pos r in
      elim (Bool-cases (sees (args_chars text) t.kind)) [
        | inl f ↦ rw (seen, f) (nothing s.pos refl)
        | inr f ↦ elim (Bool-cases (t.kind == 0)) [
          | inl z ↦
              rw (seen, f, z)
                (nothing t.next (sym (gettoken-ended text s.pos r ((==_iff _ _).0 z))))
          | inr nz ↦
              rw (seen, f, nz)
                (Allows-assert _ (t.kind == b'a') _ λ is_word.
                  Allows-assert _ (ltb (length args + 1) max_args) _ λ fits.
                    Allows-bind _ _
                      (parse_redirs text (length text + 1) (record s { pos = t.next })) _
                      (parse_redirs-ReadsMarks (length text + 1) _ (gettoken-Ready text _) room)
                      λ (ds, s₁) (ms, ed, marks, room₁).
                        Allows-map _ _ (parse_args text fuel (args ++ t.word ∷ []) (rs ++ ds) s₁)
                          (parse_args-ReadsWords fuel (args ++ t.word ∷ []) (rs ++ ds) s₁
                            (Gets-Ready text (mark_symbols ms) _ _ (gettoken-Ready text _) marks)
                            room₁
                            (omega (
                              arith,
                              length-append args (t.word ∷ []),
                              ltb→lt (length args + 1) max_args fits,
                            )))
                          λ (all, every, s₂) (ws, ea, ee, shown, less, room₂). (
                            (t.word, ms) ∷ ws,
                            ea ∙ append_assoc args (t.word ∷ []) (words_of ws),
                            ee
                                ∙ append_assoc rs ds (word_redirs ws)
                                ∙ ap (λ d. rs ++ (d ++ word_redirs ws)) ed,
                            (
                              ((==_iff t.kind b'a').0 is_word, refl),
                              Gets-join text (mark_symbols ms) (word_symbols ws) _ s₁.pos s₂.pos
                                  marks shown,
                            ),
                            omega (arith, less, length-append args (t.word ∷ [])),
                            room₂,
                          ))
        ]
      ]
    where
      nothing : (p : ℕ) → s.pos ≡ p → ReadsWords args rs s (args, rs, record s { pos = p })
      nothing p e = ([], sym (append-nil args), sym (append-nil rs), e, omega arith, room)

  pub parse_backs-Reads :
      (fuel : ℕ) (cmd : Cmd) (s : State)
      → Ready text s.pos
      → HasRoom s
      → Allows
          (λ (c, s').
            (n : ℕ) × (c ≡ in_back n cmd) × Gets text s.pos (back_symbols n) s'.pos × HasRoom s')
          (parse_backs text fuel cmd s)
  unfolding parse_backs
  parse_backs-Reads zero cmd s r room = tt
  parse_backs-Reads (suc fuel) cmd s r room =
      let t = gettoken text s.pos in
      let seen = peek-sees (b'&' ∷ []) (λ c g. ground arith) text s.pos r in
      elim (Bool-cases (sees (b'&' ∷ []) t.kind)) [
        | inr f ↦ rw (seen, f) (zero, refl, refl, room)
        | inl y ↦
            rw (seen, y)
              (Allows-bind _ _ (zalloc size_back (record s { pos = t.next })) _
                (zalloc-Allows size_back _)
                λ s₁ (at, room₁).
                  Allows-map _ _ (parse_backs text fuel (back cmd) s₁)
                    (parse_backs-Reads fuel (back cmd) s₁
                      (subst (Ready text) (sym at) (gettoken-Ready text _)) room₁)
                    λ (c, s₂) (n, e, shown, room₂). (
                      suc n,
                      e,
                      (ground arith, subst (λ x. Gets text x (back_symbols n) s₂.pos) at shown),
                      room₂,
                    ))
      ]

  pub parse_simple-Reads :
      (s : State)
      → Ready text s.pos
      → Allows
          (λ (c, s').
            (d : Command) × (c ≡ command_tree d)
            × Gets text s.pos (command_symbols d) s'.pos
            × CommandFits d
            × HasRoom s')
          (parse_simple text s)
  unfolding parse_simple command_symbols command_tree CommandFits
  parse_simple-Reads s r =
      Allows-bind _ _ (zalloc size_exec s) _ (zalloc-Allows size_exec s) λ s₁ (at, room₁).
        let r₁ = subst (Ready text) (sym at) r in
        Allows-bind _ _ (parse_redirs text (length text + 1) s₁) _
          (parse_redirs-ReadsMarks (length text + 1) s₁ r₁ room₁)
          λ (rs, s₂) (ms, er, marks, room₂).
            Allows-bind _ _ (parse_args text (length text + 1) [] rs s₂) _
              (parse_args-ReadsWords (length text + 1) [] rs s₂
                (Gets-Ready text (mark_symbols ms) _ _ r₁ marks) room₂ (omega arith))
              λ (args, every, s₃) (ws, ea, ee, words, few, room₃). (
                simple ms ws,
                rw (ea, ee, er) refl,
                subst (λ x. Gets text x (mark_symbols ms ++ word_symbols ws) s₃.pos) at
                    (Gets-join text (mark_symbols ms) (word_symbols ws) s₁.pos s₂.pos s₃.pos marks
                      words),
                omega (arith, few),
                room₃,
              )
