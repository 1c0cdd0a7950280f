-- ===== src/Testkit/Worker.antt =====
-- testkit.c, tk_register_hook, notify_worker and worker_process: the table goes through a pipe to a
-- process that was forked before main, and that runs the tests when the program exits.
pub mod Chunks
pub mod Session
use jyyos.Prelude.{ℕ, zero, suc, ◌+◌, ◌-◌, Bool, true, false, not, ltb, ◌==◌, if◌then◌else◌}
use jyyos.Prelude.{Option, none, some, List, [], ◌∷◌, ◌++◌, length, drop}
use jyyos.Prelude.CText.{Bytes}
use jyyos.Testkit.{TestCase, Ended, ok, aborted, fault, ◌>>=◌, is_some}
use jyyos.Testkit.Add.{Environ, add_all}
use jyyos.Testkit.Run.{World, Event, run_all_testcases}

-- What the pipe carries, and what memory is made of, is a sequence of cells: bytes on the machine.
module _ {Cell : Type 0} where
  -- The loop of worker_process, with what each read returns: `size` cells are to come and `buf` has
  -- come. A read returns nothing at an error or at the end of the pipe.
  unfoldable pub read_loop : ℕ → List (List Cell) → List Cell → List Cell
  read_loop size [] buf = buf
  read_loop size (chunk ∷ chunks) buf =
      let more = read_loop size chunks (buf ++ chunk) in
      if ltb (length buf) size then (if length chunk == 0 then buf else more) else buf

  -- The array in the worker, where `tests` is still as it was before main: what has come, and then
  -- the cells of the empty table.
  unfoldable pub receive : List Cell → List (List Cell) → List Cell
  unfolding read_loop
  receive zeros chunks =
      let buf = read_loop (length zeros) chunks [] in buf ++ drop (length buf) zeros

-- The machine's layout of the array of tests, and what it makes of the cells of one.
pub record Layout (Cell : Type 0) : Type 0 where
  pub cells_of : List TestCase → List Cell
  pub tests_of : List Cell → List TestCase

-- A program with TestKit. `piped` is whether pipe() succeeds, and `chunks` what the reads of the
-- worker return for what is written. The tests are added by constructors, and the worker reports
-- when main has ended.
unfoldable pub session :
    {Cell : Type 0}
    → Layout Cell
    → Environ
    → World
    → Bool
    → (List Cell → List (List Cell))
    → List TestCase
    → Ended (List Event)
session layout env w piped chunks ts = add_all env ts [] >>= λ tests.
    if piped
    then run_all_testcases w (is_some env.tk_verbose)
        (layout.tests_of (receive (layout.cells_of []) (chunks (layout.cells_of tests))))
    else ok []
