-- ===== src/Testkit/Tests.antt =====
-- testkit: a run with three tests, and the theorems at it.
use jyyos.Prelude.{ℕ, zero, suc, ◌-◌, ◌≡◌, refl, arith, true, false, ◌==◌, if◌then◌else◌, ◌↔◌}
use jyyos.Prelude.{
  Option, none, some, List, [], ◌∷◌, ◌++◌, length, map, replicate, length-replicate,
}
use jyyos.Prelude.Codes.{codes}
use jyyos.Prelude.CText.{Bytes}
use jyyos.Testkit.{TestCase, ok, fault, Returns, max_tests}
use jyyos.Testkit.Add.{Environ, add_all}
use jyyos.Testkit.Add.Table.{AllMade, entry, add_all-entries}
use jyyos.Testkit.Add.Bounds.{IsTable, add_all-IsTable}
use jyyos.Testkit.Run.{
  World, exited, signaled, returns, ends, Event, header, pass, fail, cleanup, summary, run_one,
  run_all_testcases, run_loop, check_results, run_testcase, run_cleanup, pcol, message,
}
use jyyos.Testkit.Run.Report.{AllEnabled, run_all_testcases-full}
use jyyos.Testkit.Run.Verdict.{Survivor, run_one-Survivor}
use jyyos.Testkit.Worker.{Layout}

abbrev unit_test : Bytes → ℕ → TestCase
unit_test name body = record {
  enabled = true;
  name = name;
  loc = codes "a.c:1";
  init = none;
  fini = none;
  utest = some body;
  stest = none;
  argc = 0;
  argv = none;
}

-- A system test with one argument and a cleanup function.
abbrev main_test : TestCase
main_test = record {
  enabled = true;
  name = codes "runs";
  loc = codes "a.c:9";
  init = none;
  fini = some 5;
  utest = none;
  stest = some 3;
  argc = 1;
  argv = some (codes "x" ∷ []);
}

-- The code at 1 returns and that at 2 aborts; main exits with 7.
abbrev world : World
world = record {
  setup = λ f. returns;
  unit_test = λ f. (if f == 1 then returns else ends (signaled 6), []);
  main = λ argc argv. (some (exited 7), codes "out");
  system_test = λ f r out. (returns, out);
  strsignal = λ s. codes "Signal";
  is_tty = false;
}

abbrev env : Environ
env = record { tk_run = some []; tk_verbose = none; shell_path = some (codes "/a") }

abbrev suite : List TestCase
suite = unit_test (codes "good") 1 ∷ unit_test (codes "bad") 2 ∷ main_test ∷ []

abbrev report : List Event
report =
    header
    ∷ pass (codes "PASS") (codes "good") (codes "a.c:1")
    ∷ fail (codes "FAIL") (codes "bad") (codes "a.c:1") (codes "Assertion fail")
    ∷ pass (codes "PASS") (codes "runs") (codes "a.c:9")
    ∷ cleanup 5
    ∷ summary 2 3
    ∷ []

run_suite : run_all_testcases world false suite ≡ ok report
unfolding run_all_testcases run_loop run_one check_results run_testcase run_cleanup pcol message
run_suite = refl

suite-AllMade : AllMade suite
suite-AllMade = (tt, (tt, ((refl, refl, omega arith), tt)))

add_all-entries_example : add_all env suite [] ≡ ok ([] ++ map (entry (codes "/a")) suite)
add_all-entries_example =
    add_all-entries env (codes "/a") refl suite [] refl suite-AllMade (omega arith)

add_all-IsTable_example : Returns (IsTable env) (add_all env suite [])
add_all-IsTable_example = add_all-IsTable env suite [] (omega arith)

-- 63 arguments.
abbrev crowded : TestCase
crowded = record main_test { argc = 63; argv = some (replicate 63 (codes "x")) }

AllEnabled-replicate : (n : ℕ) → AllEnabled (replicate n (unit_test [] 1))
AllEnabled-replicate zero = tt
AllEnabled-replicate (suc n) = (refl, AllEnabled-replicate n)

abbrev full_suite : List TestCase
full_suite = replicate max_tests (unit_test [] 1)

run_all_testcases-full_example : run_all_testcases world false full_suite ≡ fault
run_all_testcases-full_example =
    run_all_testcases-full world false full_suite (AllEnabled-replicate max_tests)
      (length-replicate max_tests (unit_test [] 1))

run_one-Survivor_example : ((run_one world false main_test).0 ≡ true) ↔ Survivor world main_test
run_one-Survivor_example = run_one-Survivor world false main_test

-- An array of max_tests cells, each empty or a test, and a pipe that delivers cell by cell.

abbrev cells : List TestCase → List (Option TestCase)
cells ts = map some ts ++ replicate (max_tests - length ts) none

abbrev tests_in : List (Option TestCase) → List TestCase
tests_in [] = []
tests_in (none ∷ cs) = []
tests_in (some t ∷ cs) = t ∷ tests_in cs

abbrev layout : Layout (Option TestCase)
layout = record { cells_of = cells; tests_of = tests_in }

abbrev one_by_one : {A : Type 0} → List A → List (List A)
one_by_one [] = []
one_by_one (c ∷ cs) = (c ∷ []) ∷ one_by_one cs
