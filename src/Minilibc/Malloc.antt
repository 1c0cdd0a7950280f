-- ===== src/Minilibc/Malloc.antt =====
-- course_code/lecture_9/minilibc/src/malloc.c: malloc and free, over the system calls mmap and
-- munmap, which are parameters: what they return and the memory behind them.
pub mod Blocks
use jyyos.Prelude.{ℕ, ◌+◌, ◌-◌, ◌*◌, ◌/◌, ◌%◌, ◌^◌, ◌==◌, if◌then◌else◌, Option, none, some}
use jyyos.Minilibc.Memory.{Memory, store_bytes, load_bytes}

-- A mapping of so many bytes: the value of the call, and the memory.
abbrev pub Mmap : Type 0
Mmap = Memory → ℕ → ℕ × Memory

-- The memory without a region, given by its address and its size.
abbrev pub Munmap : Type 0
Munmap = Memory → ℕ → ℕ → Memory

-- `(size + 7) & ~7`, on a size_t.
abbrev pub aligned : ℕ → ℕ
aligned size = (size + 7) % 2 ^ 64 / 8 * 8

-- The bytes that malloc maps, with those of the size in front.
abbrev pub total_size : ℕ → ℕ
total_size size = (aligned size + 8) % 2 ^ 64

-- The pointer, 0 for NULL, and the memory; none if the store of the size faults.
unfoldable pub malloc : Mmap → ℕ → Memory → Option (ℕ × Memory)
malloc mmap size m =
    let (block, m') = mmap m (total_size size) in
    if block == 2 ^ 64 - 1 then some (0, m') else elim (store_bytes 8 m' block (aligned size)) [
      | none ↦ none
      | some m'' ↦ some ((block + 8) % 2 ^ 64, m'')
    ]

unfoldable pub free : Munmap → ℕ → Memory → Option Memory
free munmap ptr m =
    let block = (ptr + 2 ^ 64 - 8) % 2 ^ 64 in
    if ptr == 0 then some m else elim (load_bytes 8 m block) [
      | none ↦ none
      | some size ↦ some (munmap m block ((size + 8) % 2 ^ 64))
    ]
