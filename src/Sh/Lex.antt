-- ===== src/Sh/Lex.antt =====
-- sh.c, gettoken and peek: a token lies in the line, ends behind where it starts unless the line is
-- over, and a word is a maximal run of bytes that are neither blank nor a symbol.
use jyyos.Prelude.{
  ℕ, zero, suc, ◌+◌, ◌-◌, ◌<◌, ◌≤◌, ◌≡◌, ◌≢◌, refl, ◌⊎◌, inl, inr, Bool, true, false, not, ◌&&◌,
}
use jyyos.Prelude.{◌==◌, Bool-cases, arith, [], ◌∷◌, length}
use jyyos.Prelude.CText.{Bytes}
use jyyos.Sh.{Word, Token, at, one_of, is_blank, is_single, is_word_char, skip, skip_while}
use jyyos.Sh.{token_kind, token_stop, gettoken, peek}

-- What a skipping loop does.
pub record Skips (test : ℕ → Bool) (text : Bytes) (s left r : ℕ) : Type 0 where
  pub forward : s ≤ r
  pub within : r ≤ s + left
  pub passed : (i : ℕ) → s ≤ i → i < r → test (at text i) ≡ true
  pub stopped : (r ≡ s + left) ⊎ (test (at text r) ≡ false)

pub skip-Skips :
    (test : ℕ → Bool) (text : Bytes) (left s : ℕ) → Skips test text s left (skip test text left s)
unfolding skip
skip-Skips test text zero s = record {
  forward = omega arith;
  within = omega arith;
  passed = λ i a b. absurd (omega arith);
  stopped = inl (omega arith);
}
skip-Skips test text (suc left) s =
    let rest = skip-Skips test text left (s + 1) in
    elim (Bool-cases (test (at text s))) [
      | inl t ↦ rw t (record {
        forward = omega (arith, rest.forward);
        within = omega (arith, rest.within);
        passed = λ i a b. grind (arith, rest.passed, t);
        stopped = ground (arith, rest.stopped);
      })
      | inr f ↦ rw f (record {
        forward = omega arith;
        within = omega arith;
        passed = λ i a b. absurd (omega arith);
        stopped = inr f;
      })
    ]

pub at-past : (text : Bytes) (i : ℕ) → length text ≤ i → at text i ≡ 0
at-past [] i h = refl
at-past (b ∷ bs) zero h = elim h [ ]
at-past (b ∷ bs) (suc i) h = at-past bs i (omega arith)

pub lt-of_at : (text : Bytes) (i : ℕ) → at text i ≢ 0 → i < length text
lt-of_at [] i h = absurd (h refl)
lt-of_at (b ∷ bs) zero h = omega arith
lt-of_at (b ∷ bs) (suc i) h = omega (arith, lt-of_at bs i h)

-- The line holds no NUL, as its end is found by strlen.
abbrev pub HasNoNul : Bytes → Type 0
HasNoNul text = (i : ℕ) → i < length text → at text i ≢ 0

-- A maximal run of word bytes.
pub record IsWord (text : Bytes) (w : Word) : Type 0 where
  pub filled : w.start < w.stop
  pub inside : w.stop ≤ length text
  pub chars : (i : ℕ) → w.start ≤ i → i < w.stop → is_word_char (at text i) ≡ true
  pub maximal : (w.stop ≡ length text) ⊎ (is_word_char (at text w.stop) ≡ false)

pub record Lexed (text : Bytes) (s : ℕ) (t : Token) : Type 0 where
  pub start_le : s ≤ t.word.start
  pub ordered : t.word.start ≤ t.word.stop
  pub stop_le : t.word.stop ≤ t.next
  pub next_le : t.next ≤ length text
  pub progress : t.kind ≢ 0 → t.word.start < t.next
  pub ended : t.kind ≡ 0 → (t.word.start ≡ length text) × (t.next ≡ length text)
  pub word : t.kind ≡ b'a' → IsWord text t.word

-- A byte that starts no symbol token starts a word.
word_char :
    (c : ℕ) → is_blank c ≡ false → is_single c ≡ false → (c == b'>') ≡ false → is_word_char c ≡ true
word_char c a b d = ground arith

-- A token of kind k from q up to r.
record Stops (text : Bytes) (q k r : ℕ) : Type 0 where
  within : r ≤ length text
  forward : q ≤ r
  progress : k ≢ 0 → q < r
  ended : k ≡ 0 → (at text q ≡ 0) × (r ≡ q)
  word : k ≡ b'a' → IsWord text (record { start = q; stop = r })

word-Stops :
    (text : Bytes) (q : ℕ)
    → q < length text
    → is_word_char (at text q) ≡ true
    → IsWord text (record { start = q; stop = skip_while is_word_char text q })
word-Stops text q h c =
    let k = skip-Skips is_word_char text (length text - q) q in
    record {
      filled = ground (arith, k.forward, k.stopped);
      inside = omega (arith, k.within);
      chars = k.passed;
      maximal = ground (arith, k.stopped);
    }

not_single : (c : ℕ) → is_single c ≡ true → c ≢ b'a'
not_single c h e = ground arith

module _ (text : Bytes) (q : ℕ) (nz : (at text q == 0) ≡ false) where
  room : q < length text
  room = lt-of_at text q (λ e. ground arith)

  symbol-Stops : (k r : ℕ) → k ≢ 0 → k ≢ b'a' → q < r → r ≤ length text → Stops text q k r
  symbol-Stops k r live other more fits = record {
    within = fits;
    forward = omega arith;
    progress = λ _. more;
    ended = λ z. absurd (live z);
    word = λ e. absurd (other e);
  }

  longer : (at text (q + 1) == b'>') ≡ true → q + 2 ≤ length text
  longer e = omega (arith, lt-of_at text (q + 1) (λ z. ground arith))

  word_token-Stops :
      is_word_char (at text q) ≡ true → Stops text q b'a' (skip_while is_word_char text q)
  word_token-Stops c =
      let w = word-Stops text q room c in
      record {
        within = w.inside;
        forward = omega (arith, w.filled);
        progress = λ _. w.filled;
        ended = λ z. absurd (omega arith);
        word = λ _. w;
      }

  live-Stops : is_blank (at text q) ≡ false → Stops text q (token_kind text q) (token_stop text q)
  live-Stops clear = elim (Bool-cases (is_single (at text q))) [
    | inl one ↦
        rw (nz, one)
          (symbol-Stops (at text q) (q + 1) (λ z. ground arith) (not_single (at text q) one)
            (omega arith) (omega (arith, room)))
    | inr many ↦ elim (Bool-cases (at text q == b'>')) [
      | inl gt ↦ elim (Bool-cases (at text (q + 1) == b'>')) [
        | inl twice ↦
            rw (nz, many, gt, twice)
              (symbol-Stops b'+' (q + 2) (omega arith) (omega arith) (omega arith) (longer twice))
        | inr once ↦
            rw (nz, many, gt, once)
              (symbol-Stops b'>' (q + 1) (omega arith) (omega arith) (omega arith)
                (omega (arith, room)))
      ]
      | inr other ↦ rw (nz, many, other) (word_token-Stops (word_char (at text q) clear many other))
    ]
  ]

token-Stops :
    (text : Bytes) (q : ℕ)
    → q ≤ length text
    → (q ≡ length text) ⊎ (is_blank (at text q) ≡ false)
    → Stops text q (token_kind text q) (token_stop text q)
token-Stops text q h clear = elim (Bool-cases (at text q == 0)) [
  | inl z ↦ rw z (record {
    within = h;
    forward = omega arith;
    progress = λ n. absurd (n refl);
    ended = λ _. (ground arith, refl);
    word = λ n. cc;
  })
  | inr nz ↦ live-Stops text q nz (not_ended clear nz)
]
  where
    not_ended :
        (q ≡ length text) ⊎ (is_blank (at text q) ≡ false)
        → (at text q == 0) ≡ false
        → is_blank (at text q) ≡ false
    not_ended (inl e) nz = ground (arith, at-past text q)
    not_ended (inr b) nz = b

at-end : (text : Bytes) (q : ℕ) → HasNoNul text → q ≤ length text → at text q ≡ 0 → q ≡ length text
at-end text q live h z = ground (arith, live q)

-- From a position in a line without a NUL, gettoken stores a token that lies in the line behind
-- that position. It moves forward unless the line is over; its kind is 0 only there; and what it
-- calls a word is a maximal run of bytes that are neither blank nor a symbol.
pub gettoken-Lexed :
    (text : Bytes) (s : ℕ) → HasNoNul text → s ≤ length text → Lexed text s (gettoken text s)
unfolding gettoken
gettoken-Lexed text s live h =
    let q = skip-Skips is_blank text (length text - s) s in
    let t =
      token-Stops text (skip_while is_blank text s) (omega (arith, q.within)) (at_stop q.stopped) in
    let n =
      skip-Skips is_blank text (length text - token_stop text (skip_while is_blank text s))
        (token_stop text (skip_while is_blank text s)) in
    record {
      start_le = q.forward;
      ordered = t.forward;
      stop_le = n.forward;
      next_le = omega (arith, n.within, t.within);
      progress = λ k. omega (arith, t.progress k, n.forward);
      ended = λ k.
          let last = at-end text _ live (omega (arith, q.within)) (t.ended k).0 in
          (last, omega (arith, (t.ended k).1, n.forward, n.within));
      word = t.word;
    }
  where
    at_stop :
        {r : ℕ}
        → (r ≡ s + (length text - s)) ⊎ (is_blank (at text r) ≡ false)
        → (r ≡ length text) ⊎ (is_blank (at text r) ≡ false)
    at_stop (inl e) = inl (omega arith)
    at_stop (inr b) = inr b

-- peek moves to the next byte that is not blank.
pub record Peeked (text : Bytes) (s : ℕ) (toks : Bytes) (r : ℕ × Bool) : Type 0 where
  pub forward : s ≤ r.0
  pub within : r.0 ≤ length text
  pub sees : r.1 ≡ true → (r.0 < length text) × (one_of toks (at text r.0) ≡ true)

pub peek-Peeked :
    (text : Bytes) (s : ℕ) (toks : Bytes) → s ≤ length text → Peeked text s toks (peek text s toks)
unfolding peek
peek-Peeked text s toks h =
    let k = skip-Skips is_blank text (length text - s) s in
    record {
      forward = k.forward;
      within = omega (arith, k.within);
      sees = λ e. (lt-of_at text (skip_while is_blank text s) (nonzero _ (seen e).0), (seen e).1);
    }
  where
    seen : {b c : Bool} → (not b && c) ≡ true → (b ≡ false) × (c ≡ true)
    seen e = ground arith

    nonzero : (c : ℕ) → (c == 0) ≡ false → c ≢ 0
    nonzero c h e = ground arith

-- Before the end of the line gettoken always moves.
pub Lexed-moves : {text : Bytes} {s : ℕ} (t : Token) → Lexed text s t → s < length text → s < t.next
Lexed-moves t l h = elim (Bool-cases (t.kind == 0)) [
  | inl z ↦ omega (arith, l.ended (ground arith))
  | inr nz ↦ omega (arith, l.start_le, l.progress (λ e. ground arith))
]
