-- ===== src/Testkit/Run/Verdict.antt =====
-- testkit.c, run_testcase and check_results: which tests pass.
use jyyos.Prelude.{ℕ, ◌≡◌, refl, ◌↔◌, Bool, true, Option, none, some, [], subst}
use jyyos.Prelude.CText.{Bytes}
use jyyos.Testkit.{TestCase, Code}
use jyyos.Testkit.Run.{
  World, Status, exited, signaled, CallEnd, returns, ends, exit_with, run_unit, after_main,
  run_system, run_testcase, check_results, run_one,
}

-- The process exits, at a return or by exit().
abbrev pub Exits : Status → Type 0
Exits (exited c) = Unit {0}
Exits (signaled sig) = ⊥

abbrev pub Survives : CallEnd → Type 0
Survives returns = Unit {0}
Survives (ends s) = Exits s

module _ (w : World) where
  -- The body of the test: its code, or main and then its code, ends without a signal.
  abbrev pub BodySurvives : TestCase → Option Code → Option Code → Type 0
  BodySurvives t (some f) utest =
      (r : ℕ) × ((w.main t.argc t.argv).0 ≡ some (exited r))
      × Survives (w.system_test f r (w.main t.argc t.argv).1).0
  BodySurvives t none (some f) = Survives (w.unit_test f).0
  BodySurvives t none none = ⊥

  -- There is no setup or it returns, and the body survives; or the setup itself calls exit().
  abbrev pub SetupSurvives : TestCase → Option CallEnd → Type 0
  SetupSurvives t none = BodySurvives t t.stest t.utest
  SetupSurvives t (some returns) = BodySurvives t t.stest t.utest
  SetupSurvives t (some (ends s)) = Exits s

  abbrev setup_of : Option Code → Option CallEnd
  setup_of none = none
  setup_of (some f) = some (w.setup f)

  abbrev pub Survivor : TestCase → Type 0
  Survivor t = SetupSurvives t (setup_of t.init)

  exit_with-Exits : (r : ℕ) (e : CallEnd) → Exits (exit_with r e) ↔ Survives e
  exit_with-Exits r returns = (λ h. tt, λ h. tt)
  exit_with-Exits r (ends s) = (λ h. h, λ h. h)

  run_unit-Exits : (t : TestCase) (u : Option Code) → Exits (run_unit w u).0 ↔ BodySurvives t none u
  unfolding run_unit
  run_unit-Exits t none = (λ h. h, λ h. h)
  run_unit-Exits t (some f) = exit_with-Exits 0 (w.unit_test f).0

  after_main-Exits :
      (f : Code) (o : Option Status) (out : Bytes)
      → Exits (after_main w f o out).0
        ↔ ((r : ℕ) × (o ≡ some (exited r)) × Survives (w.system_test f r out).0)
  unfolding after_main
  after_main-Exits f none out = (λ h. absurd h, λ (r, e, h). cc)
  after_main-Exits f (some (exited r)) out =
      let same = exit_with-Exits r (w.system_test f r out).0 in
      (
        λ h. (r, refl, same.0 h),
        λ (r', e, h). same.1 (subst (λ c. Survives (w.system_test f c out).0) (exited_eq r' r e) h),
      )
    where
      exited_eq : (a b : ℕ) → some (exited b) ≡ some (exited a) → a ≡ b
      exited_eq a b e = cc
  after_main-Exits f (some (signaled sig)) out = (λ h. absurd h, λ (r, e, h). cc)

  run_body-Exits :
      (t : TestCase) (s u : Option Code)
      → Exits
          (elim s as (λ x. Status × Bytes) [ none ↦ run_unit w u | some f ↦ run_system w t f ]).0
        ↔ BodySurvives t s u
  unfolding run_system
  run_body-Exits t none u = run_unit-Exits t u
  run_body-Exits t (some f) u = after_main-Exits f (w.main t.argc t.argv).0 (w.main t.argc t.argv).1

  run_testcase-Exits : (t : TestCase) → Exits (run_testcase w t).0 ↔ Survivor t
  unfolding run_testcase
  run_testcase-Exits t = from t.init
    where
      body : Status × Bytes
      body = elim t.stest [ none ↦ run_unit w t.utest | some f ↦ run_system w t f ]

      after_setup :
          (e : CallEnd)
          → Exits (elim e as (λ x. Status × Bytes) [ returns ↦ body | ends s ↦ (s, []) ]).0
            ↔ SetupSurvives t (some e)
      after_setup returns = run_body-Exits t t.stest t.utest
      after_setup (ends s) = (λ h. h, λ h. h)

      from :
          (i : Option Code)
          → Exits
              (elim i as (λ x. Status × Bytes) [
                | none ↦ body
                | some f ↦ elim (w.setup f) as (λ x. Status × Bytes) [
                  | returns ↦ body
                  | ends s ↦ (s, [])
                ]
              ]).0
            ↔ SetupSurvives t (setup_of i)
      from none = run_body-Exits t t.stest t.utest
      from (some f) = after_setup (w.setup f)

  check_results-Exits : (t : TestCase) (s : Status) → ((check_results w t s).0 ≡ true) ↔ Exits s
  unfolding check_results
  check_results-Exits t (exited c) = (λ h. tt, λ h. refl)
  check_results-Exits t (signaled sig) = (λ h. cc, λ h. absurd h)

  -- A test counts as passed exactly if no signal ends it: its setup, if it has one, returns and its
  -- code is there and survives, for a system test behind a main that exits in time; or the setup
  -- itself calls exit().
  pub run_one-Survivor :
      (verbose : Bool) (t : TestCase) → ((run_one w verbose t).0 ≡ true) ↔ Survivor t
  unfolding run_one
  run_one-Survivor verbose t =
      let checked = check_results-Exits t (run_testcase w t).0 in
      let ran = run_testcase-Exits t in (λ h. ran.0 (checked.0 h), λ h. checked.1 (ran.1 h))
