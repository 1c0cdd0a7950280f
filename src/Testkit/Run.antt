-- ===== src/Testkit/Run.antt =====
-- testkit.c, run_testcase to run_all_testcases: each test in a process of its own, and the report.
-- What the functions of the tests do is a parameter.
pub mod Report
pub mod Verdict
use jyyos.Prelude.{
  ℕ, zero, suc, ◌+◌, ◌-◌, ◌%◌, Bool, true, false, not, ◌||◌, ltb, leb, ◌==◌, if◌then◌else◌,
}
use jyyos.Prelude.{Option, none, some, List, [], ◌∷◌, ◌++◌, length, take, get_or}
use jyyos.Prelude.Codes.{codes}
use jyyos.Prelude.CText.{Bytes, newline}
use jyyos.Testkit.{TestCase, Code, Ended, ok, aborted, fault, ◌>>=◌, is_some, max_tests}

-- What waitpid reports of a process that has ended.
pub data Status : Type 0 where
  exited : ℕ → Status
  signaled : ℕ → Status

-- A call of a function of the tests returns, or its process ends there.
pub data CallEnd : Type 0 where
  returns : CallEnd
  ends : Status → CallEnd

-- SIGABRT, SIGSEGV and SIGALRM on Linux.
abbrev pub sigabrt : ℕ
sigabrt = 6

abbrev pub sigsegv : ℕ
sigsegv = 11

abbrev pub sigalrm : ℕ
sigalrm = 14

-- The functions of the tests, each with what it leaves in the output buffer, as far as it gets
-- before the time limit. main is none if it is then still running. A signal that ends main ends its
-- parent too when it is sent there.
pub record World : Type 0 where
  pub setup : Code → CallEnd
  pub unit_test : Code → CallEnd × Bytes
  pub main : ℕ → Option (List Bytes) → Option Status × Bytes
  pub system_test : Code → ℕ → Bytes → CallEnd × Bytes
  pub strsignal : ℕ → Bytes
  pub is_tty : Bool

-- exit(r) behind a call that may have ended the process.
abbrev pub exit_with : ℕ → CallEnd → Status
exit_with r returns = exited (r % 256)
exit_with r (ends s) = s

module _ (w : World) where
  -- The system test behind waitpid, for the status and the output of main.
  unfoldable pub after_main : Code → Option Status → Bytes → Status × Bytes
  after_main body none out = (signaled sigalrm, out)
  after_main body (some (exited r)) out =
      let (end, out') = w.system_test body r out in (exit_with r end, out')
  after_main body (some (signaled sig)) out = (signaled sig, out)

  -- The system test: main runs in a child, whose alarm is not the parent's.
  unfoldable pub run_system : TestCase → Code → Status × Bytes
  unfolding after_main
  run_system t body = let (status, out) = w.main t.argc t.argv in after_main body status out

  -- A null function pointer is called.
  unfoldable pub run_unit : Option Code → Status × Bytes
  run_unit none = (signaled sigsegv, [])
  run_unit (some body) = let (end, out) = w.unit_test body in (exit_with 0 end, out)

  -- The child process of a test: `exit(run_testcase(t, buf))`, and what is in buf.
  unfoldable pub run_testcase : TestCase → Status × Bytes
  unfolding run_system run_unit
  run_testcase t =
      let body : Status × Bytes = elim t.stest [
        | none ↦ run_unit t.utest
        | some f ↦ run_system t f
      ] in
      elim t.init [ none ↦ body | some f ↦ elim (w.setup f) [ returns ↦ body | ends s ↦ (s, []) ] ]

  -- snprintf into 64 bytes, with the two digits of the color.
  unfoldable pub pcol : Bytes → Bytes → Bytes
  pcol s color = take 63 (
      if w.is_tty
      then (27 ∷ codes "[0;") ++ (color ++ (codes "m" ++ (s ++ (27 ∷ codes "[0;0m"))))
      else s)

-- What the worker prints, and the cleanup functions that it runs.
pub data Event : Type 0 where
  header : Event
  pass : (tag name loc : Bytes) → Event
  fail : (tag name loc message : Bytes) → Event
  output : (format text : Bytes) → Event
  blank : Event
  cleanup : Code → Event
  summary : (passed ntests : ℕ) → Event

unfoldable pub run_cleanup : TestCase → List Event
run_cleanup t = elim t.fini [ none ↦ [] | some f ↦ cleanup f ∷ [] ]

module _ (w : World) where
  -- The message for the status of a failed test.
  unfoldable pub message : Status → Bytes
  message (exited c) = pcol w (codes "unknown error") (codes "31")
  message (signaled sig) =
      if sig == sigalrm
      then pcol w (codes "Timeout") (codes "33")
      else if sig == sigabrt
      then pcol w (codes "Assertion fail") (codes "35")
      else if sig == sigsegv
      then pcol w (codes "Segmentation fault") (codes "36")
      else pcol w (w.strsignal sig) (codes "31")

  unfoldable pub check_results : TestCase → Status → Bool × Event
  check_results t (exited c) = (true, pass (pcol w (codes "PASS") (codes "32")) t.name t.loc)
  check_results t (signaled sig) =
      (false, fail (pcol w (codes "FAIL") (codes "31")) t.name t.loc (message (signaled sig)))

  -- The output of a failed test; a newline if it does not end with one.
  unfoldable pub show_output : Bytes → List Event
  show_output buf =
      output (pcol w (codes "%s") (codes "90")) buf
      ∷ (if length buf == 0
          then blank ∷ []
          else if get_or buf (length buf - 1) 0 == newline
          then []
          else blank ∷ [])

  -- One round of the loop: whether the test passed, and the events.
  unfoldable pub run_one : Bool → TestCase → Bool × List Event
  run_one verbose t =
      let (status, buf) = run_testcase w t in
      let (succ, line) = check_results t status in
      (
        succ,
        (line ∷ (if succ then [] else if verbose then show_output buf else [])) ++ run_cleanup t,
      )

  -- The loop over tests[i], with the i-th entry and those behind it. Behind the entries of a table
  -- that is not full stands a zero entry; behind a full one the array ends.
  unfoldable pub run_loop : Bool → ℕ → List TestCase → ℕ → Ended (ℕ × ℕ × List Event)
  run_loop verbose i [] passed = if ltb i max_tests then ok (passed, i, []) else fault
  run_loop verbose i (t ∷ tests) passed =
      let (succ, events) = run_one verbose t in
      let more =
        run_loop verbose (i + 1) tests (if succ then passed + 1 else passed)
        >>= λ (passed', n, events'). ok (passed', n, events ++ events') in
      if t.enabled then more else ok (passed, i, [])

  -- run_all_testcases, on the entries of the table.
  unfoldable pub run_all_testcases : Bool → List TestCase → Ended (List Event)
  run_all_testcases verbose [] = ok []
  run_all_testcases verbose (t ∷ tests) =
      let run = run_loop verbose 0 (t ∷ tests) 0 >>= λ (passed, n, events).
      ok (header ∷ (events ++ summary passed n ∷ [])) in
      if t.enabled then run else ok []
