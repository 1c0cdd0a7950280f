-- ===== src/Testkit/Add/Bounds.antt =====
-- testkit.c, tk_add_test: what holds of the table whatever tests are added.
use jyyos.Prelude.{
  ℕ, zero, suc, ◌+◌, ◌<◌, ◌≤◌, ◌≡◌, refl, ap, arith, Bool, true, false, ltb, ltb→lt, if◌then◌else◌,
}
use jyyos.Prelude.{subst, sym, Option, none, some, List, [], ◌∷◌, ◌++◌, length, length-append}
use jyyos.Prelude.CText.{Bytes}
use jyyos.Testkit.{
  TestCase, ok, aborted, ◌>>=◌, ◌>>◌, tk_assert, is_some, max_tests, max_argv_len, Returns,
  returned, aborts, faults, Returns-bind, Returns-assert, Returns-bounds,
}
use jyyos.Testkit.Add.{Environ, copy_args, copy_argv, is_testing, tk_add_test, add_all}

-- The first of some arguments.
abbrev first_of : List Bytes → Option Bytes
first_of [] = none
first_of (a ∷ args) = some a

abbrev IsEntryWith : Environ → TestCase → Option (List Bytes) → Type 0
IsEntryWith env t none = Unit {0}
IsEntryWith env t (some args) =
    (is_some t.stest ≡ true)
    × (t.argc ≡ length args)
    × (0 < t.argc)
    × (t.argc < max_argv_len)
    × (first_of args ≡ env.shell_path)

-- A test with arguments is a system test, its arguments and the NULL behind them fit, and the first
-- is the executable.
abbrev pub IsEntry : Environ → TestCase → Type 0
IsEntry env t = IsEntryWith env t t.argv

abbrev pub AllEntries : Environ → List TestCase → Type 0
AllEntries env [] = Unit {0}
AllEntries env (t ∷ ts) = IsEntry env t × AllEntries env ts

abbrev pub IsTable : Environ → List TestCase → Type 0
IsTable env tests = (length tests ≤ max_tests) × AllEntries env tests

AllEntries-append :
    (env : Environ) (ts : List TestCase) (t : TestCase)
    → AllEntries env ts
    → IsEntry env t
    → AllEntries env (ts ++ t ∷ [])
AllEntries-append env [] t h k = (k, tt)
AllEntries-append env (x ∷ ts) t (h, hs) k = (h, AllEntries-append env ts t hs k)

copy_args-length : (n : ℕ) (args : List Bytes) → Returns (λ l. length l ≡ n) (copy_args n args)
unfolding copy_args
copy_args-length zero args = returned refl
copy_args-length (suc n) [] = faults
copy_args-length (suc n) (a ∷ args) =
    Returns-bind (copy_args-length n args) λ l e. returned (ap suc e)

copy_argv-IsEntry :
    (env : Environ) (t : TestCase) (args : List Bytes)
    → Returns (IsEntry env) (copy_argv env t args)
unfolding copy_argv
copy_argv-IsEntry env t args = Returns-assert (is_some t.stest) λ system.
    Returns-bounds (ltb (t.argc + 1) max_argv_len) λ room.
      Returns-bind (any env.shell_path) λ path found.
        Returns-bind (copy_args-length t.argc args) λ rest e.
          returned
            (system, omega (arith, e), omega arith, ltb→lt (t.argc + 1) max_argv_len room, found)
  where
    any :
        (o : Option Bytes)
        → Returns (λ path. some path ≡ o) (elim o [ none ↦ aborted | some path ↦ ok path ])
    any none = aborts
    any (some path) = returned refl

pub tk_add_test-IsTable :
    (env : Environ) (t : TestCase) (tests : List TestCase)
    → IsTable env tests
    → Returns (IsTable env) (tk_add_test env t tests)
unfolding tk_add_test
tk_add_test-IsTable env t tests (size, all) = under (is_testing env)
  where
    entry_of :
        (o : Option (List Bytes))
        → t.argv ≡ o
        → Returns (IsEntry env) (elim o [ none ↦ ok t | some args ↦ copy_argv env t args ])
    entry_of none e = returned (subst (IsEntryWith env t) (sym e) tt)
    entry_of (some args) e = copy_argv-IsEntry env t args

    added :
        ltb (length tests) max_tests ≡ true
        → (cur : TestCase) → IsEntry env cur
        → IsTable env (tests ++ cur ∷ [])
    added space cur h = (
      omega (arith, length-append tests (cur ∷ []), ltb→lt (length tests) max_tests space),
      AllEntries-append env tests cur all h,
    )

    under :
        (b : Bool)
        → Returns (IsTable env) (
            if b
            then (tk_assert (ltb (length tests) max_tests)
                >> (elim t.argv [ none ↦ ok t | some args ↦ copy_argv env t args ] >>= λ cur.
                    ok (tests ++ cur ∷ [])))
            else ok tests)
    under true =
        Returns-assert (ltb (length tests) max_tests)
          λ space. Returns-bind (entry_of t.argv refl) λ cur h. returned (added space cur h)
    under false = returned (size, all)

-- Whatever tests the constructors add, the table that they leave has at most 1024 entries, and in
-- each entry with arguments these belong to a system test, are counted by argc, begin with the
-- executable and fit in argv_copy with the NULL behind them.
pub add_all-IsTable :
    (env : Environ) (ts tests : List TestCase)
    → IsTable env tests
    → Returns (IsTable env) (add_all env ts tests)
unfolding add_all
add_all-IsTable env [] tests h = returned h
add_all-IsTable env (t ∷ ts) tests h =
    Returns-bind (tk_add_test-IsTable env t tests h) λ tests' h'. add_all-IsTable env ts tests' h'
