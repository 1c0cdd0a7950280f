-- ===== src/Sh/Parse/Phrase/Allows.antt =====
-- What an outcome of the parser is if it is a value.
use jyyos.Prelude.{
  ℕ, ◌+◌, ◌<◌, ◌≡◌, refl, subst, Bool, true, false, ltb, ltb→lt, Bool-cases, inl, inr,
}
use jyyos.Sh.{mem_size}
use jyyos.Sh.Parse.{Outcome, ok, panicked, stuck, ◌>>=◌, ◌>>◌, assert, State, zalloc}

abbrev pub Allows {ℓ} : {A : Type ℓ} → (A → Type 0) → Outcome A → Type 0
Allows P (ok a) = P a
Allows P panicked = Unit {0}
Allows P stuck = Unit {0}

module _ {ℓ} {A : Type ℓ} where
  pub Allows-bind {κ} :
      {B : Type κ} (P : A → Type 0) (Q : B → Type 0) (o : Outcome A) (f : A → Outcome B)
      → Allows P o
      → ((a : A) → P a → Allows Q (f a))
      → Allows Q (o >>= f)
  Allows-bind P Q (ok a) f h k = k a h
  Allows-bind P Q panicked f h k = tt
  Allows-bind P Q stuck f h k = tt

  pub Allows-map :
      (P Q : A → Type 0) (o : Outcome A) → Allows P o → ((a : A) → P a → Q a) → Allows Q o
  Allows-map P Q (ok a) h k = k a h
  Allows-map P Q panicked h k = tt
  Allows-map P Q stuck h k = tt

  pub Allows-assert :
      (P : A → Type 0) (b : Bool) (o : Outcome A)
      → (b ≡ true → Allows P o)
      → Allows P (assert b >> o)
  Allows-assert P true o h = h refl
  Allows-assert P false o h = tt

  pub Allows-ok : (P : A → Type 0) (o : Outcome A) (a : A) → Allows P o → o ≡ ok a → P a
  Allows-ok P o a h e = subst (Allows P) e h

abbrev pub HasRoom : State → Type 0
HasRoom s = s.used < mem_size

pub zalloc-Allows :
    (size : ℕ) (s : State) → Allows (λ s'. (s'.pos ≡ s.pos) × HasRoom s') (zalloc size s)
unfolding zalloc
zalloc-Allows size s = elim (Bool-cases (ltb (s.used + size) mem_size)) [
  | inl t ↦ rw t (refl, ltb→lt (s.used + size) mem_size t)
  | inr f ↦ rw f tt
]
