-- ===== src/Minilibc/Malloc/Blocks.antt =====
-- malloc.c: the blocks of malloc, its failures, and what free gives back.
use jyyos.Prelude.{ℕ, ◌+◌, ◌-◌, ◌%◌, ◌^◌, ◌<◌, ◌≤◌, ◌≡◌, Option, none, some}
use jyyos.Minilibc.Memory.{Memory, load_bytes}
use jyyos.Minilibc.Memory.Bytes.{IsMapped, SameElsewhere, poke_bytes}
use jyyos.Minilibc.Malloc.{Mmap, aligned, total_size}

-- The call mmap maps len new bytes, from a page in the lower half of the addresses on.
pub record Maps (m : Memory) (len : ℕ) (r : ℕ × Memory) : Type 0 where
  pub positive : 0 < r.0
  pub low : r.0 + len ≤ 2 ^ 47
  pub page : r.0 % 4096 ≡ 0
  pub fresh : (i : ℕ) → r.0 ≤ i → i < r.0 + len → m i ≡ none
  pub mapped : IsMapped r.1 r.0 len
  pub kept : SameElsewhere m r.1 r.0 len

-- It fails: it returns -errno, an address where nothing is mapped.
pub record Fails (m : Memory) (r : ℕ × Memory) : Type 0 where
  pub errno : 2 ^ 64 - 4095 ≤ r.0
  pub bound : r.0 < 2 ^ 64
  pub unmapped : r.1 r.0 ≡ none
  pub kept : r.1 ≡ m

-- What malloc(size) has done, by the reply of mmap.
pub data Allocates (m : Memory) (size block : ℕ) : Option (ℕ × Memory) → Type 0 where
  allocates :
      {m' : Memory}
      → (block + 8) % 8 ≡ 0
      → ((i : ℕ) → block ≤ i → i < block + 8 + size → m i ≡ none)
      → IsMapped m' (block + 8) size
      → SameElsewhere m m' block (total_size size)
      → load_bytes 8 m' block ≡ some (aligned size)
      → Allocates m size block (some (block + 8, m'))
  null : block ≡ 2 ^ 64 - 1 → Allocates m size block (some (0, m))
  fault : 2 ^ 64 - 4095 ≤ block → block < 2 ^ 64 - 1 → Allocates m size block none

module _ (mmap : Mmap) (m : Memory) (size : ℕ) where
  abbrev pub replied : ℕ × Memory
  replied = mmap m (total_size size)

  abbrev pub block : ℕ
  block = replied.0

  -- The memory behind a malloc that succeeds.
  abbrev pub with_size : Memory
  with_size = poke_bytes 8 replied.1 block (aligned size)
