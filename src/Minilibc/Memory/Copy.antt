-- ===== src/Minilibc/Memory/Copy.antt =====
-- string.c, strlen and strcpy: what they do with a string in memory.
use jyyos.Prelude.{
  ℕ, zero, suc, ◌+◌, ◌<◌, ◌≤◌, ◌≡◌, ◌≢◌, refl, ◌∙◌, ap, ◌⊎◌, arith, Option, some, false, ◌==◌, [],
  ◌∷◌, length,
}
use jyyos.Prelude.CText.{Bytes}
use jyyos.Minilibc.Memory.{Memory, poke, find_nul, strlen, copy, strcpy}
use jyyos.Minilibc.Memory.Bytes.{
  IsMapped, SameElsewhere, store-poke, poke-at, poke-ne, poke-IsMapped,
}

-- The string at an address: the bytes, none of them NUL, and a NUL behind them.
abbrev pub StringAt : Memory → ℕ → Bytes → Type 0
StringAt m a [] = m a ≡ some 0
StringAt m a (b ∷ bs) = (m a ≡ some b) × (b ≢ 0) × StringAt m (a + 1) bs

StringAt-poke :
    (m : Memory) (d v a : ℕ) (bs : Bytes)
    → (d < a) ⊎ (a + length bs < d)
    → StringAt m a bs
    → StringAt (poke m d v) a bs
StringAt-poke m d v a [] apart h = poke-ne m d v a (omega arith) ∙ h
StringAt-poke m d v a (b ∷ bs) apart (h, live, rest) =
    (poke-ne m d v a (omega arith) ∙ h, live, StringAt-poke m d v (a + 1) bs (omega arith) rest)

pub find_nul-length :
    (fuel : ℕ) (m : Memory) (a : ℕ) (bs : Bytes)
    → length bs < fuel
    → StringAt m a bs
    → find_nul fuel m a ≡ some (a + length bs)
unfolding find_nul
find_nul-length zero m a bs enough h = absurd (omega arith)
find_nul-length (suc fuel) m a [] enough h = rw (find_nul, h) (ap some (omega arith))
find_nul-length (suc fuel) m a (b ∷ bs) enough (h, live, rest) =
    let more : (b == 0) ≡ false = ground arith in
    rw (find_nul, h, more, find_nul-length fuel m (a + 1) bs (omega arith) rest)
      (ap some (omega arith))

pub strlen-length :
    (fuel : ℕ) (m : Memory) (a : ℕ) (bs : Bytes)
    → length bs < fuel
    → StringAt m a bs
    → strlen fuel m a ≡ some (length bs)
unfolding strlen
strlen-length fuel m a bs enough h =
    rw (strlen, find_nul-length fuel m a bs enough h) (ap some (omega arith))

-- The memory behind a copy of the string to d.
abbrev poke_string : Memory → ℕ → Bytes → Memory
poke_string m d [] = poke m d 0
poke_string m d (b ∷ bs) = poke_string (poke m d b) (d + 1) bs

copy-poke_string :
    (fuel : ℕ) (m : Memory) (d s : ℕ) (bs : Bytes)
    → length bs < fuel
    → StringAt m s bs
    → IsMapped m d (length bs + 1)
    → (d ≤ s) ⊎ (s + length bs < d)
    → copy fuel m d s ≡ some (poke_string m d bs)
unfolding copy
copy-poke_string zero m d s bs enough h room apart = absurd (omega arith)
copy-poke_string (suc fuel) m d s [] enough h room apart =
    rw (copy, h, store-poke m d 0 (room d (omega arith) (omega arith))) refl
copy-poke_string (suc fuel) m d s (b ∷ bs) enough (h, live, rest) room apart =
    let more : (b == 0) ≡ false = ground arith in
    rw (copy, h, store-poke m d b (room d (omega arith) (omega arith)), more)
      (copy-poke_string fuel (poke m d b) (d + 1) (s + 1) bs (omega arith)
        (StringAt-poke m d b (s + 1) bs (omega arith) rest)
        (poke-IsMapped m d b (d + 1) (length bs + 1)
          (λ i lo hi. room i (omega arith) (omega arith)))
        (omega arith))

poke_string-SameElsewhere :
    (m : Memory) (d : ℕ) (bs : Bytes) → SameElsewhere m (poke_string m d bs) d (length bs + 1)
poke_string-SameElsewhere m d [] i out = poke-ne m d 0 i (omega arith)
poke_string-SameElsewhere m d (b ∷ bs) i out =
    poke_string-SameElsewhere (poke m d b) (d + 1) bs i (omega arith)
    ∙ poke-ne m d b i (omega arith)

poke_string-StringAt :
    (m n : Memory) (s d : ℕ) (bs : Bytes) → StringAt n s bs → StringAt (poke_string m d bs) d bs
poke_string-StringAt m n s d [] h = poke-at m d 0
poke_string-StringAt m n s d (b ∷ bs) (h, live, rest) = (
  poke_string-SameElsewhere (poke m d b) (d + 1) bs d (omega arith) ∙ poke-at m d b,
  live,
  poke_string-StringAt (poke m d b) n (s + 1) (d + 1) bs rest,
)

-- The copy returned dest: the string is there, strlen finds its length, and no byte outside has
-- changed.
pub data Copied (m : Memory) (dest fuel : ℕ) (bs : Bytes) : Option (ℕ × Memory) → Type 0 where
  copied :
      {m' : Memory}
      → StringAt m' dest bs
      → strlen fuel m' dest ≡ some (length bs)
      → SameElsewhere m m' dest (length bs + 1)
      → Copied m dest fuel bs (some (dest, m'))

-- For a string of which dest has room in mapped memory, dest not behind src or past the string's
-- NUL, with fuel for its bytes and the NUL: strcpy ends and returns dest; then the string stands at
-- dest, strlen of dest is its length, and no byte outside the copy has changed.
pub strcpy-Copied :
    (fuel : ℕ) (m : Memory) (dest src : ℕ) (bs : Bytes)
    → length bs < fuel
    → StringAt m src bs
    → IsMapped m dest (length bs + 1)
    → (dest ≤ src) ⊎ (src + length bs < dest)
    → Copied m dest fuel bs (strcpy fuel m dest src)
unfolding strcpy
strcpy-Copied fuel m dest src bs enough h room apart =
    let there = poke_string-StringAt m m src dest bs h in
    rw (strcpy, copy-poke_string fuel m dest src bs enough h room apart)
      (copied there (strlen-length fuel (poke_string m dest bs) dest bs enough there)
        (poke_string-SameElsewhere m dest bs))
