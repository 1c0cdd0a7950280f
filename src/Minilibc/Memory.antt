-- ===== src/Minilibc/Memory.antt =====
-- course_code/lecture_9/minilibc/src/string.c: strlen and strcpy on memory, a byte or a fault for
-- each address. A run is none if it faults or if the fuel of a loop runs out.
pub mod Bytes
pub mod Copy
use jyyos.Prelude.{
  ℕ, zero, suc, true, false, ◌+◌, ◌-◌, ◌*◌, ◌/◌, ◌%◌, ◌==◌, if◌then◌else◌, Option, none, some,
}

-- The byte at an address, none where nothing is mapped.
abbrev pub Memory : Type 0
Memory = ℕ → Option ℕ

abbrev pub poke : Memory → ℕ → ℕ → Memory
poke m a v i = if i == a then some v else m i

-- *a = v for a char.
unfoldable pub store : Memory → ℕ → ℕ → Option Memory
store m a v = elim (m a) [ none ↦ none | some old ↦ some (poke m a v) ]

-- An integer of n bytes, the lowest byte first, as the processor stores and loads it.
unfoldable pub store_bytes : ℕ → Memory → ℕ → ℕ → Option Memory
unfolding store
store_bytes zero m a v = some m
store_bytes (suc n) m a v = elim (store m a (v % 256)) [
  | none ↦ none
  | some m' ↦ store_bytes n m' (a + 1) (v / 256)
]

abbrev pub low_first : Option ℕ → Option ℕ → Option ℕ
low_first none rest = none
low_first (some b) none = none
low_first (some b) (some rest) = some (b + 256 * rest)

unfoldable pub load_bytes : ℕ → Memory → ℕ → Option ℕ
load_bytes zero m a = some 0
load_bytes (suc n) m a = low_first (m a) (load_bytes n m (a + 1))

-- `while (*p) p++`: the last p.
unfoldable pub find_nul : ℕ → Memory → ℕ → Option ℕ
find_nul zero m p = none
find_nul (suc fuel) m p = elim (m p) [
  | none ↦ none
  | some c ↦ elim (c == 0) [ true ↦ some p | false ↦ find_nul fuel m (p + 1) ]
]

unfoldable pub strlen : ℕ → Memory → ℕ → Option ℕ
unfolding find_nul
strlen fuel m s = elim (find_nul fuel m s) [ none ↦ none | some p ↦ some (p - s) ]

-- `while ((*d++ = *src++))`
unfoldable pub copy : ℕ → Memory → ℕ → ℕ → Option Memory
unfolding store
copy zero m d src = none
copy (suc fuel) m d src = elim (m src) [
  | none ↦ none
  | some c ↦ elim (store m d c) [
    | none ↦ none
    | some m' ↦ elim (c == 0) [ true ↦ some m' | false ↦ copy fuel m' (d + 1) (src + 1) ]
  ]
]

unfoldable pub strcpy : ℕ → Memory → ℕ → ℕ → Option (ℕ × Memory)
unfolding copy
strcpy fuel m dest src = elim (copy fuel m dest src) [ none ↦ none | some m' ↦ some (dest, m') ]
