-- ===== src/Prelude/Table.antt =====
-- Tables of file descriptors: what an open descriptor stands for is one of A.
use jyyos.Prelude.Tests.{◌==◌, if◌then◌else◌}
use Prim.Native.Nat.{ℕ, ◌<◌}
use mathlib.Core.Path.{◌≡◌}
use mathlib.Core.Logic.{◌≢◌}
use mathlib.Core.Option.{Option, none, some}

module _ {A : Type 0} where
  abbrev pub put : (ℕ → Option A) → ℕ → A → ℕ → Option A
  put t n x m = if m == n then some x else t m

  abbrev pub clear : (ℕ → Option A) → ℕ → ℕ → Option A
  clear t n m = if m == n then none else t m

  -- The descriptor that the kernel gives out next.
  abbrev pub LowestFree : (ℕ → Option A) → ℕ → Type 0
  LowestFree t n = (t n ≡ none) × ((m : ℕ) → m < n → t m ≢ none)
