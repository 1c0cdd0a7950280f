-- ===== src/Testkit.antt =====
-- testkit/testkit.h: the test cases, and what the process that runs them meets.
pub mod Add
pub mod Run
pub mod Worker
mod Tests
use jyyos.Prelude.{ℕ, ◌≡◌, refl, Bool, true, false, Option, none, some, List}
use jyyos.Prelude.CText.{Bytes}

-- TK_MAX_TESTS and TK_MAX_ARGV_LEN.
abbrev pub max_tests : ℕ
max_tests = 1024

abbrev pub max_argv_len : ℕ
max_argv_len = 64

-- The address of a function of the tests.
abbrev pub Code : Type 0
Code = ℕ

-- A null pointer is none. argv points at strings of the program until tk_add_test has copied them.
pub record TestCase : Type 0 where
  pub enabled : Bool
  pub name : Bytes
  pub loc : Bytes
  pub init : Option Code
  pub fini : Option Code
  pub utest : Option Code
  pub stest : Option Code
  pub argc : ℕ
  pub argv : Option (List Bytes)

abbrev pub is_some {ℓ} : {A : Type ℓ} → Option A → Bool
is_some none = false
is_some (some a) = true

-- How a call ends the model: with a value, by abort() in a failed tk_assert, or by an access
-- outside an array.
pub data Ended {ℓ} (A : Type ℓ) : Type ℓ where
  ok : A → Ended A
  aborted fault : Ended A

infixl 5 ◌>>=◌ ◌>>◌
abbrev pub ◌>>=◌ {ℓ κ} : {A : Type ℓ} {B : Type κ} → Ended A → (A → Ended B) → Ended B
ok a >>= f = f a
aborted >>= f = aborted
fault >>= f = fault

abbrev pub ◌>>◌ {ℓ} : {B : Type ℓ} → Ended (Unit {0}) → Ended B → Ended B
m >> k = m >>= λ _. k

abbrev pub tk_assert : Bool → Ended (Unit {0})
tk_assert true = ok tt
tk_assert false = aborted

-- An index into an array of n elements.
abbrev pub in_bounds : Bool → Ended (Unit {0})
in_bounds true = ok tt
in_bounds false = fault

-- P holds of the value, if there is one.
pub data Returns {ℓ κ} {A : Type ℓ} (P : A → Type κ) : Ended A → Type (ℓ ⊔ κ) where
  returned : {a : A} → P a → Returns P (ok a)
  aborts : Returns P aborted
  faults : Returns P fault

module _ {ℓ κ} {A : Type ℓ} {P : A → Type κ} where
  pub Returns-bind {ℓ' κ'} :
      {B : Type ℓ'} {Q : B → Type κ'} {m : Ended A} {f : A → Ended B}
      → Returns P m
      → ((a : A) → P a → Returns Q (f a))
      → Returns Q (m >>= f)
  Returns-bind (returned {a} h) k = k a h
  Returns-bind aborts k = aborts
  Returns-bind faults k = faults

  pub Returns-assert :
      (b : Bool) {m : Ended A} → (b ≡ true → Returns P m) → Returns P (tk_assert b >> m)
  Returns-assert true k = k refl
  Returns-assert false k = aborts

  pub Returns-bounds :
      (b : Bool) {m : Ended A} → (b ≡ true → Returns P m) → Returns P (in_bounds b >> m)
  Returns-bounds true k = k refl
  Returns-bounds false k = faults
