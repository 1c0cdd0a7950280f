-- ===== src/Testkit/Add/Table.antt =====
-- testkit.c, tk_add_test: the table that the constructors of the test cases build.
use jyyos.Prelude.{
  ◌+◌, ◌<◌, ◌≤◌, ◌≡◌, refl, sym, ap, ◌∙◌, arith, true, false, ltb, lt→ltb, Option-cases, subst, inl,
  inr,
}
use jyyos.Prelude.{
  Option, none, some, List, [], ◌∷◌, ◌++◌, map, length, length-append, append_assoc, append-nil,
}
use jyyos.Prelude.CText.{Bytes}
use jyyos.Testkit.{TestCase, ok, is_some, max_tests, max_argv_len}
use jyyos.Testkit.Add.{Environ, copy_args, copy_argv, is_testing, tk_add_test, add_all}

-- A test as the macros UnitTest and SystemTest make it, with a bound on its arguments.
abbrev IsMadeWith : TestCase → Option (List Bytes) → Type 0
IsMadeWith t none = Unit {0}
IsMadeWith t (some args) =
    (is_some t.stest ≡ true) × (t.argc ≡ length args) × (length args + 1 < max_argv_len)

abbrev pub IsMade : TestCase → Type 0
IsMade t = IsMadeWith t t.argv

abbrev pub AllMade : List TestCase → Type 0
AllMade [] = Unit {0}
AllMade (t ∷ ts) = IsMade t × AllMade ts

-- The entry for a test, where the executable is at `path`.
abbrev entry_with : Bytes → TestCase → Option (List Bytes) → TestCase
entry_with path t none = t
entry_with path t (some args) = record t { argc = t.argc + 1; argv = some (path ∷ args) }

abbrev pub entry : Bytes → TestCase → TestCase
entry path t = entry_with path t t.argv

copy_args-length : (args : List Bytes) → copy_args (length args) args ≡ ok args
unfolding copy_args
copy_args-length [] = refl
copy_args-length (a ∷ args) = rw (copy_args-length args) refl

module _ (env : Environ) (path : Bytes) (found : env.shell_path ≡ some path) where
  copy_argv-made :
      (t : TestCase) (args : List Bytes)
      → is_some t.stest ≡ true
      → t.argc ≡ length args
      → length args + 1 < max_argv_len
      → copy_argv env t args ≡ ok (record t { argc = t.argc + 1; argv = some (path ∷ args) })
  unfolding copy_argv
  copy_argv-made t args system count few =
      let room : ltb (t.argc + 1) max_argv_len ≡ true = ground (arith, count, few) in
      rw (copy_argv, system, room, found, count, copy_args-length args) refl

  tk_add_test-made :
      (t : TestCase) (tests : List TestCase)
      → is_testing env ≡ true
      → length tests < max_tests
      → IsMade t
      → tk_add_test env t tests ≡ ok (tests ++ entry path t ∷ [])
  unfolding tk_add_test
  tk_add_test-made t tests on room made =
      let space = lt→ltb (length tests) max_tests room in
      elim (Option-cases t.argv) [
        | inl e ↦ simp (on, space, e)
        | inr (args, e) ↦
            let (system, count, few) = subst (IsMadeWith t) e made in
            rw (tk_add_test, on, space, e, copy_argv-made t args system count few) refl
      ]

  -- With TestKit enabled and the executable in the environment, the constructors of tests that are
  -- made by the macros, system tests with fewer than 63 arguments, add one entry for each test in
  -- their order, as long as the table has room; a system test gets the executable as its first
  -- argument.
  pub add_all-entries :
      (ts tests : List TestCase)
      → is_testing env ≡ true
      → AllMade ts
      → length tests + length ts ≤ max_tests
      → add_all env ts tests ≡ ok (tests ++ map (entry path) ts)
  unfolding add_all
  add_all-entries [] tests on made room = ap ok (sym (append-nil tests))
  add_all-entries (t ∷ ts) tests on (made, rest) room =
      let one = tests ++ entry path t ∷ [] in
      let len = length-append tests (entry path t ∷ []) in
      rw (tk_add_test-made t tests on (omega (arith, room)) made) (
        add_all-entries ts one on rest (omega (arith, len, room))
        ∙ rw (append_assoc tests (entry path t ∷ []) (map (entry path) ts)) refl)

-- Without TK_RUN and TK_VERBOSE no test is added.
pub add_all_disabled :
    (env : Environ) (ts tests : List TestCase)
    → is_testing env ≡ false
    → add_all env ts tests ≡ ok tests
unfolding add_all tk_add_test
add_all_disabled env [] tests off = refl
add_all_disabled env (t ∷ ts) tests off = rw off (add_all_disabled env ts tests off)
