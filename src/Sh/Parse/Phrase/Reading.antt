-- ===== src/Sh/Parse/Phrase/Reading.antt =====
-- sh.c, peek and gettoken at a position that is not blank.
use jyyos.Prelude.{ℕ, zero, suc, ◌+◌, ◌-◌, ◌≤◌, ◌≡◌, refl, sym, subst, Bool, true, false, not}
use jyyos.Prelude.{
  ◌&&◌, ◌==◌, ==_iff, ap, ◌∙◌, if◌then◌else◌, Bool-cases, inl, inr, List, [], ◌∷◌, ◌++◌, length,
  arith,
}
use jyyos.Prelude.CText.{Bytes}
use jyyos.Sh.{at, one_of, is_blank, is_single, is_symbol, skip, skip_while, gettoken, peek}
use jyyos.Sh.{token_kind, token_stop}
use jyyos.Sh.Lex.{skip-Skips, at-past}
use jyyos.Sh.Parse.Phrase.{
  Operator, input, output, appended, Sign, redirects, a_bar, an_ampersand, a_semicolon, opening,
  closing, Symbol, a_word, a_sign,
}

abbrev pub sign : Operator → ℕ
sign input = b'<'
sign output = b'>'
sign appended = b'+'

-- What gettoken returns for a sign.
abbrev pub kind_of : Sign → ℕ
kind_of (redirects op) = sign op
kind_of a_bar = b'|'
kind_of an_ampersand = b'&'
kind_of a_semicolon = b';'
kind_of opening = b'('
kind_of closing = b')'

abbrev pub Got : Bytes → ℕ → Symbol → Type 0
Got text p (a_word w) = ((gettoken text p).kind ≡ b'a') × ((gettoken text p).word ≡ w)
Got text p (a_sign g) = (gettoken text p).kind ≡ kind_of g

-- From p on, gettoken reads the symbols one after the other and arrives at q.
abbrev pub Gets : Bytes → ℕ → List Symbol → ℕ → Type 0
Gets text p [] q = p ≡ q
Gets text p (s ∷ ss) q = Got text p s × Gets text (gettoken text p).next ss q

-- It reads the symbols of the whole line.
abbrev pub GetsAll : Bytes → List Symbol → Type 0
GetsAll text ss = Gets text (skip_while is_blank text 0) ss (length text)

-- Nothing blank stands at the position.
abbrev pub Ready : Bytes → ℕ → Type 0
Ready text p = skip_while is_blank text p ≡ p

pub skip-stays :
    (text : Bytes) (left p : ℕ) → is_blank (at text p) ≡ false → skip is_blank text left p ≡ p
unfolding skip
skip-stays text zero p h = refl
skip-stays text (suc left) p h = rw h refl

pub skip-Ready : (text : Bytes) (p : ℕ) → Ready text (skip_while is_blank text p)
skip-Ready text p =
    let k = skip-Skips is_blank text (length text - p) p in
    elim k.stopped [
      | inl e ↦ skip-stays text _ _ (ended _ (omega arith))
      | inr f ↦ skip-stays text _ _ f
    ]
  where
    ended : (r : ℕ) → length text ≤ r → is_blank (at text r) ≡ false
    ended r h = rw (at-past text r h) refl

pub gettoken-Ready : (text : Bytes) (p : ℕ) → Ready text (gettoken text p).next
unfolding gettoken
gettoken-Ready text p = skip-Ready text _

pub Gets-Ready :
    (text : Bytes) (ss : List Symbol) (p q : ℕ) → Ready text p → Gets text p ss q → Ready text q
Gets-Ready text [] p q r e = subst (Ready text) e r
Gets-Ready text (s ∷ ss) p q r (_, h) = Gets-Ready text ss _ q (gettoken-Ready text p) h

pub Gets-append :
    (text : Bytes) (ss ts : List Symbol) (p q : ℕ)
    → Gets text p (ss ++ ts) q
    → (m : ℕ) × Gets text p ss m × Gets text m ts q
Gets-append text [] ts p q h = (p, refl, h)
Gets-append text (s ∷ ss) ts p q (here, h) =
    let (m, a, b) = Gets-append text ss ts (gettoken text p).next q h in (m, (here, a), b)

-- Whether peek, asked for `toks`, says yes before a token of kind k.
abbrev pub sees : Bytes → ℕ → Bool
sees toks k = not (k == 0) && one_of toks (if k == b'+' then b'>' else k)

abbrev pub AreSymbols : Bytes → Type 0
AreSymbols toks = (c : ℕ) → one_of toks c ≡ true → is_symbol c ≡ true

module _ (toks : Bytes) (h : AreSymbols toks) where
  not_seen : (c : ℕ) → is_symbol c ≡ false → one_of toks c ≡ false
  not_seen c free = elim (Bool-cases (one_of toks c)) [
    | inl t ↦ (let y = h c t in absurd (cc))
    | inr f ↦ f
  ]

  not_plus : (c : ℕ) → is_single c ≡ true → (c == b'+') ≡ false
  not_plus c e = ground arith

  no_symbol : (c : ℕ) → is_single c ≡ false → (c == b'>') ≡ false → is_symbol c ≡ false
  no_symbol c a b = ground arith

  sees-kind :
      (text : Bytes) (p : ℕ)
      → sees toks (token_kind text p) ≡ (not (at text p == 0) && one_of toks (at text p))
  sees-kind text p = elim (Bool-cases (at text p == 0)) [
    | inl z ↦ rw z refl
    | inr nz ↦ elim (Bool-cases (is_single (at text p))) [
      | inl one ↦ rw (nz, one, nz, not_plus (at text p) one) refl
      | inr many ↦ elim (Bool-cases (at text p == b'>')) [
        | inl gt ↦ elim (Bool-cases (at text (p + 1) == b'>')) [
          | inl twice ↦ rw (nz, many, gt, twice) (ap (one_of toks) (sym ((==_iff _ _).0 gt)))
          | inr once ↦ rw (nz, many, gt, once) (ap (one_of toks) (sym ((==_iff _ _).0 gt)))
        ]
        | inr other ↦
            rw (nz, many, other) (not_seen b'a' refl ∙ sym (not_seen _ (no_symbol _ many other)))
      ]
    ]
  ]

  pub peek-sees :
      (text : Bytes) (p : ℕ)
      → Ready text p
      → peek text p toks ≡ (p, sees toks (gettoken text p).kind)
  unfolding peek gettoken
  peek-sees text p r = rw r (sym (ap (λ b. (p, b)) (sees-kind text p)))

kind_zero : (text : Bytes) (p : ℕ) → token_kind text p ≡ 0 → token_stop text p ≡ p
kind_zero text p h = elim (Bool-cases (at text p == 0)) [
  | inl z ↦ rw z refl
  | inr nz ↦ absurd (ground arith)
]

-- At the end of the line gettoken does not move.
pub gettoken-ended :
    (text : Bytes) (p : ℕ) → Ready text p → (gettoken text p).kind ≡ 0 → (gettoken text p).next ≡ p
unfolding gettoken
gettoken-ended text p r h =
    let e = kind_zero text p (subst (λ k. token_kind text k ≡ 0) r h) in rw (r, e, r) refl

pub gettoken-end :
    (text : Bytes) → Ready text (length text) → (gettoken text (length text)).kind ≡ 0
unfolding gettoken
gettoken-end text r = rw (r, at-past text (length text) (omega arith)) refl

pub peek-skip :
    (text : Bytes) (p : ℕ) (toks : Bytes)
    → peek text p toks ≡ peek text (skip_while is_blank text p) toks
unfolding peek
peek-skip text p toks = rw (skip-Ready text p) refl

pub Gets-join :
    (text : Bytes) (ss ts : List Symbol) (p m q : ℕ)
    → Gets text p ss m
    → Gets text m ts q
    → Gets text p (ss ++ ts) q
Gets-join text [] ts p m q a b = subst (λ x. Gets text x ts q) (sym a) b
Gets-join text (s ∷ ss) ts p m q (here, a) b = (here, Gets-join text ss ts _ m q a b)

-- The token at a position that is not blank.
pub gettoken-Ready_lem :
    (text : Bytes) (p : ℕ)
    → Ready text p
    → gettoken text p ≡ record {
      kind = token_kind text p;
      word = record { start = p; stop = token_stop text p };
      next = skip_while is_blank text (token_stop text p);
    }
unfolding gettoken
gettoken-Ready_lem text p r = rw r refl
