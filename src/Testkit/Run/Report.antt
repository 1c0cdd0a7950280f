-- ===== src/Testkit/Run/Report.antt =====
-- testkit.c, run_all_testcases: the report over the whole table.
use jyyos.Prelude.{ℕ, ◌+◌, ◌<◌, ◌≡◌, refl, ◌∙◌, arith, Bool, true, if◌then◌else◌}
use jyyos.Prelude.{List, [], ◌∷◌, ◌++◌, length}
use native.Mathlib.Nat.{zero-add}
use jyyos.Testkit.{TestCase, ok, fault, ◌>>=◌, max_tests}
use jyyos.Testkit.Run.{World, Event, header, summary, run_one, run_loop, run_all_testcases}

abbrev pub AllEnabled : List TestCase → Type 0
AllEnabled [] = Unit {0}
AllEnabled (t ∷ ts) = (t.enabled ≡ true) × AllEnabled ts

module _ (w : World) (verbose : Bool) where
  -- The events of all tests in their order, and how many tests pass.
  abbrev pub events_of : List TestCase → List Event
  events_of [] = []
  events_of (t ∷ ts) = (run_one w verbose t).1 ++ events_of ts

  abbrev pub passed_of : List TestCase → ℕ
  passed_of [] = 0
  passed_of (t ∷ ts) = (if (run_one w verbose t).0 then 1 else 0) + passed_of ts

  run_loop-more :
      (i : ℕ) (t : TestCase) (ts : List TestCase) (passed : ℕ)
      → t.enabled ≡ true
      → run_loop w verbose i (t ∷ ts) passed ≡ (
          run_loop w verbose (i + 1) ts (passed + (if (run_one w verbose t).0 then 1 else 0))
          >>= λ (passed', n, events'). ok (passed', n, (run_one w verbose t).1 ++ events'))
  unfolding run_loop
  run_loop-more i t ts passed on =
      let e : (if (run_one w verbose t).0 then passed + 1 else passed)
          ≡ passed + (if (run_one w verbose t).0 then 1 else 0) =
        ground arith in
      simp (on, e)

  run_loop-reports :
      (i : ℕ) (ts : List TestCase) (passed : ℕ)
      → AllEnabled ts
      → i + length ts < max_tests
      → run_loop w verbose i ts passed ≡ ok (passed + passed_of ts, i + length ts, events_of ts)
  unfolding run_loop
  run_loop-reports i [] passed on room = ground arith
  run_loop-reports i (t ∷ ts) passed (on, ons) room =
      run_loop-more i t ts passed on
      ∙ rw
          (run_loop-reports (i + 1) ts (passed + (if (run_one w verbose t).0 then 1 else 0)) ons
            (omega (arith, room)))
          (ground arith)

  run_loop-full :
      (i : ℕ) (ts : List TestCase) (passed : ℕ)
      → AllEnabled ts
      → i + length ts ≡ max_tests
      → run_loop w verbose i ts passed ≡ fault
  unfolding run_loop
  run_loop-full i [] passed on full = ground arith
  run_loop-full i (t ∷ ts) passed (on, ons) full =
      run_loop-more i t ts passed on
      ∙ rw
          (run_loop-full (i + 1) ts (passed + (if (run_one w verbose t).0 then 1 else 0)) ons
            (omega (arith, full)))
          refl

  -- For a table of enabled tests that is neither empty nor full, run_all_testcases runs each test
  -- once, in order, prints what it prints for each one alone, and ends with the number of those
  -- that passed and of all.
  pub run_all_testcases-reports :
      (ts : List TestCase)
      → AllEnabled ts
      → 0 < length ts
      → length ts < max_tests
      → run_all_testcases w verbose ts
        ≡ ok (header ∷ (events_of ts ++ summary (passed_of ts) (length ts) ∷ []))
  unfolding run_all_testcases
  run_all_testcases-reports [] on some_tests room = absurd (omega arith)
  run_all_testcases-reports (t ∷ ts) (on, ons) some_tests room =
      simp (on, run_loop-reports 0 (t ∷ ts) 0 (on, ons) (omega (arith, room)), zero-add)

  -- With a full table of enabled tests, the loop reads an entry behind the array.
  pub run_all_testcases-full :
      (ts : List TestCase)
      → AllEnabled ts
      → length ts ≡ max_tests
      → run_all_testcases w verbose ts ≡ fault
  unfolding run_all_testcases
  run_all_testcases-full [] on full = absurd (omega (arith, full))
  run_all_testcases-full (t ∷ ts) (on, ons) full =
      simp (on, run_loop-full 0 (t ∷ ts) 0 (on, ons) (omega (arith, full)))
