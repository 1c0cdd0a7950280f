-- ===== src/Sh/Parse/Phrase/Bytewise.antt =====
-- sh.c, gettoken: it reads the symbols that the bytes of the line spell, and no others.
use jyyos.Prelude.{
  ℕ, zero, suc, ◌+◌, ◌-◌, ◌<◌, ◌≤◌, ◌≡◌, ◌⊎◌, inl, inr, refl, sym, subst, ap, ◌∙◌, arith, Bool,
  true, false, ◌==◌, ==_iff, Bool-cases, List, [], ◌∷◌, length,
}
use jyyos.Prelude.CText.{Bytes}
use jyyos.Sh.{
  Word, at, is_blank, is_single, is_word_char, skip, skip_while, token_kind, token_stop, gettoken,
}
use jyyos.Sh.Lex.{HasNoNul, IsWord, Lexed, at-past, skip-Skips, gettoken-Lexed}
use jyyos.Sh.Parse.Phrase.{
  input, output, appended, Sign, redirects, a_bar, an_ampersand, a_semicolon, opening, closing,
  Symbol, a_word, a_sign, Spelled, Blanks, Spells, ConsistsOf,
}
use jyyos.Sh.Parse.Phrase.Reading.{
  kind_of, Got, Gets, GetsAll, Ready, skip-stays, skip-Ready, gettoken-Ready, gettoken-Ready_lem,
}

-- The end of a maximal run is where the loop stops.
skip-run :
    (test : ℕ → Bool) (text : Bytes) (left s r : ℕ)
    → s ≤ r
    → r ≤ s + left
    → ((i : ℕ) → s ≤ i → i < r → test (at text i) ≡ true)
    → (r ≡ s + left) ⊎ (test (at text r) ≡ false)
    → skip test text left s ≡ r
unfolding skip
skip-run test text zero s r lo hi run stop = omega arith
skip-run test text (suc left) s r lo hi run stop = elim (Bool-cases (s == r)) [
  | inl e ↦ elim stop [
    | inl far ↦ absurd (ground (arith, e, far))
    | inr f ↦
        let here : s ≡ r = (==_iff s r).0 e in
        rw (subst (λ x. test (at text x) ≡ false) (sym here) f) here
  ]
  | inr e ↦ rw (run s (omega arith) (ground (arith, e))) (
      skip-run test text left (s + 1) r (ground (arith, e)) (omega arith)
        (λ i a b. run i (omega arith) b)
        (elim stop [ inl far ↦ inl (omega arith) | inr f ↦ inr f ]))
]

word_char_plain :
    (c : ℕ)
    → is_word_char c ≡ true
    → (is_single c ≡ false) × ((c == b'>') ≡ false) × (is_blank c ≡ false)
word_char_plain c h = ground arith

module _ (text : Bytes) (p : ℕ) where
  sign_token :
      (g : Sign) (r : ℕ)
      → Spelled text p r (a_sign g)
      → (token_kind text p ≡ kind_of g) × (token_stop text p ≡ r) × (is_blank (at text p) ≡ false)
  sign_token (redirects input) r (e, stop) = rw (e, stop) (refl, refl, refl)
  sign_token (redirects output) r ((e, stop), alone) =
      let single : (at text (p + 1) == b'>') ≡ false = ground (arith, alone) in
      rw (e, stop, single) (refl, refl, refl)
  sign_token (redirects appended) r (e, twice, stop) = rw (e, twice, stop) (refl, refl, refl)
  sign_token a_bar r (e, stop) = rw (e, stop) (refl, refl, refl)
  sign_token an_ampersand r (e, stop) = rw (e, stop) (refl, refl, refl)
  sign_token a_semicolon r (e, stop) = rw (e, stop) (refl, refl, refl)
  sign_token opening r (e, stop) = rw (e, stop) (refl, refl, refl)
  sign_token closing r (e, stop) = rw (e, stop) (refl, refl, refl)

  token_sign :
      (g : Sign) → token_kind text p ≡ kind_of g → Spelled text p (token_stop text p) (a_sign g)
  token_sign (redirects input) e = ground arith
  token_sign (redirects output) e = ground arith
  token_sign (redirects appended) e = ground arith
  token_sign a_bar e = ground arith
  token_sign an_ampersand e = ground arith
  token_sign a_semicolon e = ground arith
  token_sign opening e = ground arith
  token_sign closing e = ground arith

  word_token :
      (w : Word)
      → HasNoNul text
      → w.start ≡ p
      → IsWord text w
      → (token_kind text p ≡ b'a') × (token_stop text p ≡ w.stop) × (is_blank (at text p) ≡ false)
  word_token w live e h =
      let char = h.chars p (omega arith) (omega (arith, h.filled)) in
      let nonzero = live p (omega (arith, h.filled, h.inside)) in
      let run =
        skip-run is_word_char text (length text - p) p w.stop (omega (arith, h.filled))
          (omega (arith, h.inside)) (λ i a b. h.chars i (omega arith) b)
          (elim h.maximal [ inl far ↦ inl (omega (arith, h.filled)) | inr f ↦ inr f ]) in
      let z : (at text p == 0) ≡ false = ground (arith, nonzero) in
      let many = word_char_plain (at text p) char in
      rw (z, many.0, many.1, many.2) (refl, run, refl)

module _ (text : Bytes) (live : HasNoNul text) where
  -- The token that a spelled symbol makes.
  symbol_token :
      (p r : ℕ) (s : Symbol)
      → Spelled text p r s
      → Ready text p × Got text p s × ((gettoken text p).next ≡ skip_while is_blank text r)
  symbol_token p r (a_word w) (start, stop, word) =
      let (kind, ends, shown) = word_token text p w live start word in
      let ready = skip-stays text _ p shown in
      rw (gettoken-Ready_lem text p ready, ends)
        (
          ready,
          (kind, ap (λ x. record { start = x; stop = w.stop }) (sym start)),
          ap (skip_while is_blank text) stop,
        )
  symbol_token p r (a_sign g) h =
      let (kind, ends, shown) = sign_token text p g r h in
      let ready = skip-stays text _ p shown in
      rw (gettoken-Ready_lem text p ready, ends) (ready, kind, refl)

  -- Blanks up to a position that is not blank.
  Blanks-end : (p r : ℕ) → Blanks text p r → Ready text r → skip_while is_blank text p ≡ r
  Blanks-end p r b ready =
      let k = skip-Skips is_blank text (length text - r) r in
      skip-run is_blank text (length text - p) p r b.forward (omega (arith, b.within, b.forward))
        b.blank
        (elim k.stopped [
          | inl far ↦ inl (omega (arith, b.forward, b.within, far, ready))
          | inr f ↦ inr (subst (λ x. is_blank (at text x) ≡ false) ready f)
        ])

  next-Blanks : (p : ℕ) → p ≤ length text → Blanks text p (skip_while is_blank text p)
  next-Blanks p h =
      let k = skip-Skips is_blank text (length text - p) p in
      record { forward = k.forward; within = omega (arith, k.within); blank = k.passed }

  Spells-Ready : (p : ℕ) (ss : List Symbol) → Spells text p (length text) ss → Ready text p
  Spells-Ready p [] e = skip-stays text _ p (rw (at-past text p (omega arith)) refl)
  Spells-Ready p (s ∷ ss) (r, h, rest) = (symbol_token p r s h).0

  Spells-Gets :
      (p : ℕ) (ss : List Symbol) → Spells text p (length text) ss → Gets text p ss (length text)
  Spells-Gets p [] e = e
  Spells-Gets p (s ∷ ss) (r, h, (p', b, rest)) =
      let (ready, got, next) = symbol_token p r s h in
      let here = next ∙ Blanks-end r p' b (Spells-Ready p' ss rest) in
      (got, subst (λ x. Gets text x ss (length text)) (sym here) (Spells-Gets p' ss rest))

  -- The token at a position that is not blank lies in the line.
  token-Lexed :
      (p : ℕ)
      → p ≤ length text
      → Ready text p
      → Lexed text p (record {
        kind = token_kind text p;
        word = record { start = p; stop = token_stop text p };
        next = skip_while is_blank text (token_stop text p);
      })
  token-Lexed p h ready =
      subst (Lexed text p) (gettoken-Ready_lem text p ready) (gettoken-Lexed text p live h)

  -- What gettoken reads is spelled.
  token_symbol :
      (p : ℕ) (s : Symbol)
      → p ≤ length text
      → Ready text p
      → Got text p s
      → Spelled text p (token_stop text p) s
  token_symbol p (a_word w) h ready (kind, same) =
      let e = gettoken-Ready_lem text p ready in
      let whole : record { start = p; stop = token_stop text p } ≡ w =
        sym (ap (λ t. t.word) e) ∙ same in
      (
        sym (ap (λ x. x.start) whole),
        sym (ap (λ x. x.stop) whole),
        subst (IsWord text) whole ((token-Lexed p h ready).word (sym (ap (λ t. t.kind) e) ∙ kind)),
      )
  token_symbol p (a_sign g) h ready kind =
      token_sign text p g (sym (ap (λ t. t.kind) (gettoken-Ready_lem text p ready)) ∙ kind)

  Gets-Spells :
      (ss : List Symbol) (p : ℕ)
      → p ≤ length text
      → Ready text p
      → Gets text p ss (length text)
      → Spells text p (length text) ss
  Gets-Spells [] p h ready e = e
  Gets-Spells (s ∷ ss) p h ready (got, rest) =
      let l = token-Lexed p h ready in
      let next = ap (λ t. t.next) (gettoken-Ready_lem text p ready) in
      (
        token_stop text p,
        token_symbol p s h ready got,
        (
          (gettoken text p).next,
          subst (Blanks text (token_stop text p)) (sym next)
              (next-Blanks (token_stop text p) (omega (arith, l.stop_le, l.next_le))),
          Gets-Spells ss _ (gettoken-Lexed text p live h).next_le (gettoken-Ready text p) rest,
        ),
      )

  -- Spelled by the bytes, or read by gettoken: on a line without a NUL it is the same.
  pub GetsAll-ConsistsOf : (ss : List Symbol) → GetsAll text ss → ConsistsOf text ss
  GetsAll-ConsistsOf ss h =
      let b = next-Blanks 0 (omega arith) in (_, b, Gets-Spells ss _ b.within (skip-Ready text 0) h)

  pub ConsistsOf-GetsAll : (ss : List Symbol) → ConsistsOf text ss → GetsAll text ss
  ConsistsOf-GetsAll ss (p, b, h) =
      subst (λ x. Gets text x ss (length text)) (sym (Blanks-end 0 p b (Spells-Ready p ss h)))
        (Spells-Gets p ss h)
