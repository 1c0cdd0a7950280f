-- ===== src/Pstree/Heap.antt =====
-- minilab/pstree: the blocks that GetProcessids and main allocate, and FreeProcessTree.
pub mod Blocks
pub mod Frees
use jyyos.Prelude.{ℕ, ◌+◌, ◌*◌, ltb, if◌then◌else◌, Option, none, some, List, [], ◌∷◌, length}
use jyyos.Prelude.CText.{Bytes}
use jyyos.Prelude.Table.{put, clear}
use jyyos.Pstree.{ProcessNode, max_processes, get_process_ids}

-- The blocks in use, with their sizes.
abbrev pub Heap : Type 0
Heap = ℕ → Option ℕ

-- What the C library's malloc returns for a size; none is NULL.
abbrev pub Malloc : Type 0
Malloc = ℕ → Heap → Option ℕ

-- `null_copied` is strcpy to NULL. `fault` is strcpy past the end of a block, or free of what is
-- not a block in use.
pub data Outcome (A : Type 0) : Type 0 where
  got : A → Outcome A
  null_copied fault : Outcome A

infixl 5 ◌>>=◌
abbrev pub ◌>>=◌ : {A B : Type 0} → Outcome A → (A → Outcome B) → Outcome B
got a >>= f = f a
null_copied >>= f = null_copied
fault >>= f = fault

-- The pointers of a ProcessNode.
pub record Node : Type 0 where
  pub pid : ℕ
  pub ppid : ℕ

-- free(p).
abbrev pub release : ℕ → Heap → Outcome Heap
release p heap = elim (heap p) [ none ↦ fault | some n ↦ got (clear heap p) ]

-- The nodes of the array up to `count`, which is not read again after this.
unfoldable pub free_process_tree : List Node → ℕ → Heap → Outcome Heap
free_process_tree [] array heap = release array heap
free_process_tree (n ∷ nodes) array heap = do
  heap' ← release n.pid heap
  heap'' ← release n.ppid heap'
  free_process_tree nodes array heap''

-- The heap after malloc(n) has returned a pointer.
abbrev pub grown : Option ℕ → ℕ → Heap → Heap
grown none n heap = heap
grown (some p) n heap = put heap p n

-- strcpy(p, s), which writes a NUL behind s.
unfoldable pub store_text : Bytes → Option ℕ → Heap → Outcome ℕ
store_text s none heap = null_copied
store_text s (some p) heap = elim (heap p) [
  | none ↦ fault
  | some n ↦ if ltb (length s) n then got p else fault
]

-- The bytes of the array of ProcessNodes.
abbrev pub array_size : ℕ
array_size = max_processes * 16

module _ (malloc : Malloc) where
  -- A process is stored: room for both texts, and then the copies.
  unfoldable pub store_process : ProcessNode → Heap → Outcome (Node × Heap)
  store_process p heap =
      let a = malloc (length p.pid + 1) heap in
      let heap' = grown a (length p.pid + 1) heap in
      let b = malloc (length p.ppid + 1) heap' in
      let heap'' = grown b (length p.ppid + 1) heap' in
      do
        pid ← store_text p.pid a heap''
        ppid ← store_text p.ppid b heap''
        got (record { pid = pid; ppid = ppid }, heap'')

  unfoldable pub store_all : List ProcessNode → Heap → Outcome (List Node × Heap)
  store_all [] heap = got ([], heap)
  store_all (p ∷ tree) heap = do
    (n, heap') ← store_process p heap
    (nodes, heap'') ← store_all tree heap'
    got (n ∷ nodes, heap'')

  -- main from its malloc on, without what it prints: its three ways out behind GetProcessids free
  -- the same blocks.
  unfoldable pub use_heap : (Bytes → Option Bytes) → Option (List Bytes) → Heap → Outcome Heap
  use_heap files names heap = elim (malloc array_size heap) [
    | none ↦ got heap
    | some array ↦ do
      (nodes, heap') ←
          store_all (elim (get_process_ids files names) [ none ↦ [] | some tree ↦ tree ])
            (put heap array array_size)
      free_process_tree nodes array heap'
  ]
