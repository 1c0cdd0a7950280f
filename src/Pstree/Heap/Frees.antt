-- ===== src/Pstree/Heap/Frees.antt =====
-- minilab/pstree: main frees the blocks that it has allocated, and no others.
use jyyos.Prelude.{ℕ, ◌≡◌, none, some, List}
use jyyos.Pstree.Heap.{Heap, Malloc, Outcome, got, null_copied, fault, Node}
use jyyos.Pstree.Heap.Blocks.{Grows, FreesBeyond}

-- The pointers that malloc returns are not those of blocks in use.
abbrev pub IsFresh : Malloc → Type 0
IsFresh malloc = (n : ℕ) (heap : Heap) (p : ℕ) → malloc n heap ≡ some p → heap p ≡ none

abbrev pub Refused : Malloc → Type 0
Refused malloc = (n : ℕ) × (heap : Heap) × (malloc n heap ≡ none)

module _ (malloc : Malloc) (fresh : IsFresh malloc) where
  -- What an outcome is: a value with P, or a copy to NULL after malloc has refused.
  abbrev Sure : {A : Type 0} → (A → Type 0) → Outcome A → Type 0
  Sure P (got a) = P a
  Sure P null_copied = Refused malloc
  Sure P fault = ⊥

  abbrev Stores : Heap → List Node × Heap → Type 0
  Stores h (nodes, h') = Grows h h' × FreesBeyond h h' nodes
