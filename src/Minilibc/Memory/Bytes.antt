-- ===== src/Minilibc/Memory/Bytes.antt =====
-- What stores leave in memory, and what loads find there.
use jyyos.Prelude.{
  ℕ, zero, suc, ◌+◌, ◌/◌, ◌%◌, ◌^◌, ◌<◌, ◌≤◌, ◌≡◌, ◌≢◌, refl, ◌∙◌, ap, ◌⊎◌, arith, none, some,
}
use jyyos.Minilibc.Memory.{Memory, poke, store, store_bytes, low_first, load_bytes}

-- All addresses from a to a + n are mapped.
abbrev pub IsMapped : Memory → ℕ → ℕ → Type 0
IsMapped m a n = (i : ℕ) → a ≤ i → i < a + n → m i ≢ none

-- Two memories have the same bytes there.
abbrev pub Same : Memory → Memory → ℕ → ℕ → Type 0
Same m m' a n = (i : ℕ) → a ≤ i → i < a + n → m' i ≡ m i

-- They have the same bytes everywhere else.
abbrev pub SameElsewhere : Memory → Memory → ℕ → ℕ → Type 0
SameElsewhere m m' a n = (i : ℕ) → (i < a) ⊎ (a + n ≤ i) → m' i ≡ m i

pub poke-at : (m : Memory) (a v : ℕ) → poke m a v a ≡ some v
poke-at m a v = ground arith

pub poke-ne : (m : Memory) (a v i : ℕ) → i ≢ a → poke m a v i ≡ m i
poke-ne m a v i h = ground arith

pub poke-IsMapped : (m : Memory) (a v b n : ℕ) → IsMapped m b n → IsMapped (poke m a v) b n
poke-IsMapped m a v b n h i lo hi = let k = h i lo hi in ground (arith, k)

pub store-poke : (m : Memory) (a v : ℕ) → m a ≢ none → store m a v ≡ some (poke m a v)
unfolding store
store-poke m a v h =
    elim (m a)
        as (λ o.
          o ≢ none → elim o [ none ↦ none | some old ↦ some (poke m a v) ] ≡ some (poke m a v)) [
            | none ↦ λ k. absurd (k refl)
            | some old ↦ λ k. refl
          ]
      h

-- The memory behind a store of n bytes.
abbrev pub poke_bytes : ℕ → Memory → ℕ → ℕ → Memory
poke_bytes zero m a v = m
poke_bytes (suc n) m a v = poke_bytes n (poke m a (v % 256)) (a + 1) (v / 256)

pub store_bytes-poke_bytes :
    (n : ℕ) (m : Memory) (a v : ℕ)
    → IsMapped m a n
    → store_bytes n m a v ≡ some (poke_bytes n m a v)
unfolding store_bytes
store_bytes-poke_bytes zero m a v h = refl
store_bytes-poke_bytes (suc n) m a v h =
    rw (store_bytes, store-poke m a (v % 256) (h a (omega arith) (omega arith)))
      (store_bytes-poke_bytes n (poke m a (v % 256)) (a + 1) (v / 256)
        (poke-IsMapped m a (v % 256) (a + 1) n (λ i lo hi. h i (omega arith) (omega arith))))

pub poke_bytes-SameElsewhere :
    (n : ℕ) (m : Memory) (a v : ℕ) → SameElsewhere m (poke_bytes n m a v) a n
poke_bytes-SameElsewhere zero m a v i out = refl
poke_bytes-SameElsewhere (suc n) m a v i out =
    poke_bytes-SameElsewhere n (poke m a (v % 256)) (a + 1) (v / 256) i (omega arith)
    ∙ poke-ne m a (v % 256) i (omega arith)

pub poke_bytes-IsMapped :
    (n : ℕ) (m : Memory) (a v b k : ℕ) → IsMapped m b k → IsMapped (poke_bytes n m a v) b k
poke_bytes-IsMapped zero m a v b k h = h
poke_bytes-IsMapped (suc n) m a v b k h =
    poke_bytes-IsMapped n (poke m a (v % 256)) (a + 1) (v / 256) b k
      (poke-IsMapped m a (v % 256) b k h)

-- An integer that fits in n bytes is loaded as it was stored.
pub load_bytes-poke_bytes :
    (n : ℕ) (m : Memory) (a v : ℕ) → v < 256 ^ n → load_bytes n (poke_bytes n m a v) a ≡ some v
unfolding load_bytes
load_bytes-poke_bytes zero m a v h = ap some (omega arith)
load_bytes-poke_bytes (suc n) m a v h =
    let m' = poke m a (v % 256) in
    let first : poke_bytes n m' (a + 1) (v / 256) a ≡ some (v % 256) =
      poke_bytes-SameElsewhere n m' (a + 1) (v / 256) a (omega arith) ∙ poke-at m a (v % 256) in
    rw (load_bytes, first, load_bytes-poke_bytes n m' (a + 1) (v / 256) (omega arith))
      (ap some (omega arith))

pub load_bytes-Same :
    (n : ℕ) (m m' : Memory) (a : ℕ) → Same m m' a n → load_bytes n m' a ≡ load_bytes n m a
unfolding load_bytes
load_bytes-Same zero m m' a h = refl
load_bytes-Same (suc n) m m' a h =
    ap (λ o. low_first o (load_bytes n m' (a + 1))) (h a (omega arith) (omega arith))
    ∙ ap (low_first (m a))
        (load_bytes-Same n m m' (a + 1) (λ i lo hi. h i (omega arith) (omega arith)))
