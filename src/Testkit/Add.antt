-- ===== src/Testkit/Add.antt =====
-- testkit.c, tk_add_test: the table of tests is the list of its first ntests entries; the entries
-- behind them are zero.
pub mod Table
pub mod Bounds
use jyyos.Prelude.{ℕ, zero, suc, ◌+◌, Bool, true, false, not, ◌&&◌, ltb, if◌then◌else◌}
use jyyos.Prelude.{Option, none, some, List, [], ◌∷◌, ◌++◌, length}
use jyyos.Prelude.CText.{Bytes}
use jyyos.Testkit.{TestCase, Ended, ok, aborted, fault, ◌>>=◌, ◌>>◌, tk_assert, in_bounds, is_some}
use jyyos.Testkit.{max_tests, max_argv_len}

-- The environment: what getenv returns for TK_RUN, TK_VERBOSE and _.
pub record Environ : Type 0 where
  pub tk_run : Option Bytes
  pub tk_verbose : Option Bytes
  pub shell_path : Option Bytes

-- The loop that copies t.argv[0 .. n - 1].
unfoldable pub copy_args : ℕ → List Bytes → Ended (List Bytes)
copy_args zero args = ok []
copy_args (suc n) [] = fault
copy_args (suc n) (a ∷ args) = copy_args n args >>= λ rest. ok (a ∷ rest)

-- The part of tk_add_test for a test with arguments: the entry cur. argv_copy is the argument list.
unfoldable pub copy_argv : Environ → TestCase → List Bytes → Ended TestCase
copy_argv env t args = do
  tk_assert (is_some t.stest)
  in_bounds (ltb (t.argc + 1) max_argv_len)
  path ← elim env.shell_path [ none ↦ aborted | some path ↦ ok path ]
  rest ← copy_args t.argc args
  ok (record t { argc = t.argc + 1; argv = some (path ∷ rest) })

abbrev pub is_testing : Environ → Bool
is_testing env = if is_some env.tk_run then true else is_some env.tk_verbose

unfoldable pub tk_add_test : Environ → TestCase → List TestCase → Ended (List TestCase)
tk_add_test env t tests =
    let add = do
      tk_assert (ltb (length tests) max_tests)
      cur ← elim t.argv [ none ↦ ok t | some args ↦ copy_argv env t args ]
      ok (tests ++ cur ∷ [])
    in if is_testing env then add else ok tests

-- The constructors of the test cases, which run before main, in their order.
unfoldable pub add_all : Environ → List TestCase → List TestCase → Ended (List TestCase)
add_all env [] tests = ok tests
add_all env (t ∷ ts) tests = tk_add_test env t tests >>= λ tests'. add_all env ts tests'
