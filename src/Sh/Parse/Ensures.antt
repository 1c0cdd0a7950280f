-- ===== src/Sh/Parse/Ensures.antt =====
-- Postconditions on an outcome of the parser.
use jyyos.Prelude.{◌≡◌, ◌≢◌, refl, subst, Bool, true, false, if◌then◌else◌}
use jyyos.Sh.Parse.{Outcome, ok, panicked, stuck, ◌>>=◌, ◌>>◌, assert}

-- The run did not get stuck, and P holds of its value if it has one.
pub data Ensures {ℓ κ} {A : Type ℓ} (P : A → Type κ) : Outcome A → Type (ℓ ⊔ κ) where
  returns : {a : A} → P a → Ensures P (ok a)
  panics : Ensures P panicked

module _ {ℓ κ} {A : Type ℓ} {P : A → Type κ} where
  pub Ensures-ok : {o : Outcome A} {a : A} → Ensures P o → o ≡ ok a → P a
  Ensures-ok (returns h) e = subst P (cc) h
  Ensures-ok panics e = cc

  pub Ensures-with : {o : Outcome A} → Ensures P o → Ensures (λ a. (o ≡ ok a) × P a) o
  Ensures-with (returns h) = returns (refl, h)
  Ensures-with panics = panics

  pub Ensures-stuck : {o : Outcome A} → Ensures P o → o ≢ stuck
  Ensures-stuck (returns h) = cc
  Ensures-stuck panics = cc

  pub Ensures-bind {ℓ' κ'} :
      {B : Type ℓ'} {Q : B → Type κ'} {o : Outcome A} {f : A → Outcome B}
      → Ensures P o
      → ((a : A) → P a → Ensures Q (f a))
      → Ensures Q (o >>= f)
  Ensures-bind (returns {a} h) k = k a h
  Ensures-bind panics k = panics

  pub Ensures-map {κ'} :
      {Q : A → Type κ'} {o : Outcome A} → Ensures P o → ((a : A) → P a → Q a) → Ensures Q o
  Ensures-map (returns {a} h) k = returns (k a h)
  Ensures-map panics k = panics

  pub Ensures-if :
      (b : Bool) {x y : Outcome A}
      → (b ≡ true → Ensures P x)
      → (b ≡ false → Ensures P y)
      → Ensures P (if b then x else y)
  Ensures-if true hx hy = hx refl
  Ensures-if false hx hy = hy refl

  pub Ensures-assert :
      (b : Bool) {o : Outcome A} → (b ≡ true → Ensures P o) → Ensures P (assert b >> o)
  Ensures-assert true h = h refl
  Ensures-assert false h = panics
