-- ===== src/Sh/Parse/Phrase/Descent.antt =====
-- sh.c, parseline, parsepipe, parseexec and parseblock: the phrases that they have read.
use jyyos.Prelude.{ℕ, zero, suc, ◌+◌, ◌≡◌, refl, arith, inl, inr}
use jyyos.Prelude.{[], ◌∷◌, length, Bool-cases}
use jyyos.Prelude.CText.{Bytes}
use jyyos.Sh.{Cmd, gettoken}
use jyyos.Sh.Parse.{
  State, parse_line, parse_pipe, parse_exec, parse_block, parse_backs, parse_redirs, zalloc,
  size_pair,
}
use jyyos.Sh.Parse.Phrase.{
  Line, Pipeline, Command, last, then, one, into, block, back_symbols, line_symbols,
  pipeline_symbols, command_symbols, line_tree, pipeline_tree, command_tree, Fits, PipelineFits,
  CommandFits,
}
use jyyos.Sh.Parse.Phrase.Reading.{
  Gets, Ready, gettoken-Ready, Gets-Ready, Gets-join, sees, peek-sees,
}
use jyyos.Sh.Parse.Phrase.Allows.{Allows, Allows-bind, Allows-assert, HasRoom, zalloc-Allows}
use jyyos.Sh.Parse.Phrase.Shown.{parse_redirs-ReadsMarks, parse_backs-Reads, parse_simple-Reads}

module _ (text : Bytes) where
  -- A line was read from s on, and so on.
  abbrev pub ReadsLine : State → Cmd × State → Type 0
  ReadsLine s (c, s') =
      (l : Line) × (c ≡ line_tree l) × Gets text s.pos (line_symbols l) s'.pos × Fits l × HasRoom s'

  abbrev pub ReadsPipeline : State → Cmd × State → Type 0
  ReadsPipeline s (c, s') =
      (l : Pipeline) × (c ≡ pipeline_tree l)
      × Gets text s.pos (pipeline_symbols l) s'.pos
      × PipelineFits l
      × HasRoom s'

  abbrev pub ReadsCommand : State → Cmd × State → Type 0
  ReadsCommand s (c, s') =
      (l : Command) × (c ≡ command_tree l)
      × Gets text s.pos (command_symbols l) s'.pos
      × CommandFits l
      × HasRoom s'

  mutual
    unfolding parse_line line_symbols line_tree Fits

    pub parse_line-Reads :
        (fuel : ℕ) (s : State) → Ready text s.pos → Allows (ReadsLine s) (parse_line text fuel s)
    parse_line-Reads zero s r = tt
    parse_line-Reads (suc fuel) s r =
        Allows-bind _ _ (parse_pipe text fuel s) _ (parse_pipe-Reads fuel s r)
          λ (c, s₁) (p, ep, first, fit, room₁).
            let r₁ = Gets-Ready text (pipeline_symbols p) s.pos s₁.pos r first in
            Allows-bind _ _ (parse_backs text (length text + 1) c s₁) _
              (parse_backs-Reads text (length text + 1) c s₁ r₁ room₁)
              λ (d, s₂) (n, en, backs, room₂).
                let r₂ = Gets-Ready text (back_symbols n) s₁.pos s₂.pos r₁ backs in
                let t = gettoken text s₂.pos in
                let seen = peek-sees (b';' ∷ []) (λ c g. ground arith) text s₂.pos r₂ in
                elim (Bool-cases (sees (b';' ∷ []) t.kind)) [
                  | inr f ↦
                      rw (seen, f)
                        (
                          last p n,
                          rw (en, ep) refl,
                          Gets-join text (pipeline_symbols p) _ s.pos s₁.pos s₂.pos first backs,
                          fit,
                          room₂,
                        )
                  | inl y ↦
                      rw (seen, y)
                        (Allows-bind _ _ (parse_line text fuel (record s₂ { pos = t.next })) _
                          (parse_line-Reads fuel _ (gettoken-Ready text s₂.pos))
                          λ (e, s₃) (l, el, rest, fits, room₃).
                            Allows-bind _ _ (zalloc size_pair s₃) _ (zalloc-Allows size_pair s₃)
                              λ s₄ (at, room₄). (
                                then p n l,
                                rw (en, ep, el) refl,
                                rw at (
                                    Gets-join text (pipeline_symbols p) _ s.pos s₁.pos s₃.pos first
                                      (Gets-join text (back_symbols n) _ s₁.pos s₂.pos s₃.pos backs
                                        (ground arith, rest))),
                                (fit, fits),
                                room₄,
                              ))
                ]

    parse_pipe-Reads :
        (fuel : ℕ) (s : State)
        → Ready text s.pos
        → Allows (ReadsPipeline s) (parse_pipe text fuel s)
    parse_pipe-Reads zero s r = tt
    parse_pipe-Reads (suc fuel) s r =
        Allows-bind _ _ (parse_exec text fuel s) _ (parse_exec-Reads fuel s r)
          λ (c, s₁) (d, ec, first, fit, room₁).
            let t = gettoken text s₁.pos in
            let seen =
              peek-sees (b'|' ∷ []) (λ c g. ground arith) text s₁.pos
                (Gets-Ready text (command_symbols d) s.pos s₁.pos r first) in
            elim (Bool-cases (sees (b'|' ∷ []) t.kind)) [
              | inr f ↦ rw (seen, f) (one d, ec, first, fit, room₁)
              | inl y ↦
                  rw (seen, y)
                    (Allows-bind _ _ (parse_pipe text fuel (record s₁ { pos = t.next })) _
                      (parse_pipe-Reads fuel _ (gettoken-Ready text s₁.pos))
                      λ (e, s₂) (p, ep, rest, fits, room₂).
                        Allows-bind _ _ (zalloc size_pair s₂) _ (zalloc-Allows size_pair s₂)
                          λ s₃ (at, room₃). (
                            into d p,
                            rw (ec, ep) refl,
                            rw at (
                                Gets-join text (command_symbols d) _ s.pos s₁.pos s₂.pos first
                                  (ground arith, rest)),
                            (fit, fits),
                            room₃,
                          ))
            ]

    parse_exec-Reads :
        (fuel : ℕ) (s : State) → Ready text s.pos → Allows (ReadsCommand s) (parse_exec text fuel s)
    parse_exec-Reads zero s r = tt
    parse_exec-Reads (suc fuel) s r =
        let seen = peek-sees (b'(' ∷ []) (λ c g. ground arith) text s.pos r in
        elim (Bool-cases (sees (b'(' ∷ []) (gettoken text s.pos).kind)) [
          | inl t ↦ rw (seen, t) (parse_block-Reads fuel s r)
          | inr f ↦ rw (seen, f) (parse_simple-Reads text s r)
        ]

    parse_block-Reads :
        (fuel : ℕ) (s : State)
        → Ready text s.pos
        → Allows (ReadsCommand s) (parse_block text fuel s)
    parse_block-Reads zero s r = tt
    parse_block-Reads (suc fuel) s r =
        let t = gettoken text s.pos in
        let seen = peek-sees (b'(' ∷ []) (λ c g. ground arith) text s.pos r in
        rw seen (
          Allows-assert _ (sees (b'(' ∷ []) t.kind) _ λ opens.
            Allows-bind _ _ (parse_line text fuel (record s { pos = t.next })) _
              (parse_line-Reads fuel _ (gettoken-Ready text s.pos))
              λ (c, s₁) (l, ec, inner, fit, room₁).
                let r₁ =
                  Gets-Ready text (line_symbols l) _ s₁.pos (gettoken-Ready text s.pos) inner in
                let seen' = peek-sees (b')' ∷ []) (λ c g. ground arith) text s₁.pos r₁ in
                rw seen' (
                  Allows-assert _ (sees (b')' ∷ []) (gettoken text s₁.pos).kind) _ λ closes.
                    Allows-bind _ _
                      (parse_redirs text (length text + 1)
                        (record s₁ { pos = (gettoken text s₁.pos).next }))
                      _
                      (parse_redirs-ReadsMarks text (length text + 1) _ (gettoken-Ready text s₁.pos)
                        room₁)
                      λ (rs, s₂) (ms, er, marks, room₂). (
                        block l ms,
                        rw (ec, er) refl,
                        (
                          ground arith,
                          Gets-join text (line_symbols l) _ _ s₁.pos s₂.pos inner
                              (ground arith, marks),
                        ),
                        fit,
                        room₂,
                      )))
