-- ===== src/Testkit/Worker/Session.antt =====
-- testkit.c: a program with TestKit, from the constructors of its tests to the report.
use jyyos.Prelude.{◌≤◌, ◌≡◌}
use jyyos.Prelude.{List, [], length}
use jyyos.Testkit.{TestCase, max_tests}
use jyyos.Testkit.Worker.{Layout}
use jyyos.Testkit.Worker.Chunks.{concat, AllFilled}

-- The cells of a table are those of an array of max_tests entries, and determine it.
pub record IsLayout {Cell : Type 0} (layout : Layout Cell) : Type 0 where
  pub same_size :
      (ts : List TestCase)
      → length ts ≤ max_tests
      → length (layout.cells_of ts) ≡ length (layout.cells_of [])
  pub reads_back :
      (ts : List TestCase) → length ts ≤ max_tests → layout.tests_of (layout.cells_of ts) ≡ ts

-- A pipe delivers what is written into it, in pieces.
abbrev pub Delivers : {Cell : Type 0} → (List Cell → List (List Cell)) → Type 0
Delivers {Cell} chunks = (bs : List Cell) → AllFilled (chunks bs) × (concat (chunks bs) ≡ bs)
