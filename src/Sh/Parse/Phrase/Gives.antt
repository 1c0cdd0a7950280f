-- ===== src/Sh/Parse/Phrase/Gives.antt =====
-- The value of an outcome of the parser, unless the fuel ran out.
use jyyos.Prelude.{◌≡◌, refl, subst, lt→ltb, ◌+◌, ◌<◌, ℕ}
use jyyos.Sh.{mem_size}
use jyyos.Sh.Parse.{Outcome, ok, stuck, ◌>>=◌, State, zalloc}
use jyyos.Sh.Parse.Ensures.{Ensures, Ensures-stuck}

pub data Gives {ℓ} {A : Type ℓ} (a : A) : Outcome A → Type ℓ where
  gives : Gives a (ok a)
  out_of_fuel : Gives a stuck

module _ {ℓ} {A : Type ℓ} where
  pub Gives-bind {κ} :
      {B : Type κ} {a : A} {b : B} {o : Outcome A} (f : A → Outcome B)
      → Gives a o
      → Gives b (f a)
      → Gives b (o >>= f)
  Gives-bind f gives k = k
  Gives-bind f out_of_fuel k = out_of_fuel

  pub Gives-Ensures {κ} :
      {P : A → Type κ} {a : A} {o : Outcome A} → Gives a o → Ensures P o → o ≡ ok a
  Gives-Ensures gives h = refl
  Gives-Ensures out_of_fuel h = absurd (Ensures-stuck h refl)

abbrev pub state : ℕ → ℕ → State
state p u = record { pos = p; used = u }

pub Gives-same {ℓ} :
    {A : Type ℓ} (a : A) (q u u' : ℕ)
    → u' ≡ u
    → Gives {A = A × State} (a, state q u') (ok (a, state q u))
Gives-same a q u u' e = rw e gives

pub zalloc-Gives :
    (size p u u' : ℕ) → u' ≡ u + size → u' < mem_size → Gives (state p u') (zalloc size (state p u))
unfolding zalloc
zalloc-Gives size p u u' e h = rw (e, lt→ltb _ _ (subst (λ k. k < mem_size) e h)) gives
