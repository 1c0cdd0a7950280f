-- ===== src/Minilibc/Tests.antt =====
-- The small C library: runs, and the theorems at them.
use jyyos.Prelude.{
  ◌+◌, ◌-◌, ◌^◌, ◌==◌, ◌&&◌, ltb, leb, if◌then◌else◌, ◌≡◌, refl, arith, none, some, List, [], ◌∷◌,
  length,
}
use jyyos.Prelude.Int.{pos, negsuc}
use jyyos.Prelude.CText.{until_nul}
use jyyos.Minilibc.{strcmp, puts, fill, copy_back, print_int, printf, format_text, string, int_min}
use jyyos.Minilibc.Memory.{Memory, store, store_bytes, strcpy}
use jyyos.Minilibc.Memory.Bytes.{poke_bytes, IsMapped}
use jyyos.Minilibc.Memory.Copy.{Copied, strcpy-Copied}
use jyyos.Minilibc.Malloc.{Mmap, Munmap, malloc, total_size}
use jyyos.Minilibc.Malloc.Blocks.{Fails}
use jyyos.Minilibc.Format.{
  Piece, byte, text, no_text, number, percent, format_of, args_of, text_of, printf-pieces,
}

minus_42 : print_int 43 (negsuc 41) ≡ some (b'-' ∷ b'4' ∷ b'2' ∷ [])
unfolding print_int fill copy_back
minus_42 = refl

ab_before_b : strcmp (b'a' ∷ b'b' ∷ []) (b'b' ∷ []) ≡ negsuc 0
unfolding strcmp
ab_before_b = refl

-- A kernel whose second write fails.
failed_newline :
    puts (λ done text. elim done [ [] ↦ pos 2 | w ∷ ws ↦ negsuc 8 ]) (b'h' ∷ b'i' ∷ [])
    ≡ ((b'h' ∷ b'i' ∷ []) ∷ (10 ∷ []) ∷ [], negsuc 0)
unfolding puts
failed_newline = refl

-- A '%' at the end of the format.
lone_percent : printf 9 (b'x' ∷ b'%' ∷ []) [] ≡ none
unfolding printf format_text
lone_percent = refl

abbrev pieces : List Piece
pieces = byte b'n' ∷ byte b'=' ∷ number (pos 7) ∷ percent ∷ text (b'o' ∷ b'k' ∷ []) ∷ no_text ∷ []

least_int : print_int 1 int_min ≡ some (b'-' ∷ [])
unfolding print_int fill copy_back
least_int = refl

-- The format ends at its NUL, and so does a string.
up_to_nul :
    printf 9 (b'x' ∷ b'%' ∷ b's' ∷ 0 ∷ b'y' ∷ []) (string (b'u' ∷ 0 ∷ []) ∷ [])
    ≡ some (b'x' ∷ b'u' ∷ [], 2)
unfolding printf format_text until_nul
up_to_nul = refl

printf-pieces_example :
    printf 8 (format_of pieces) (args_of pieces)
    ≡ some (text_of 8 pieces, length (text_of 8 pieces))
printf-pieces_example =
    printf-pieces 8 pieces (omega arith) (unfold print_int fill copy_back until_nul in omega arith)

-- "hi" at 100, and eight bytes at 200.
abbrev greeting : Memory
greeting i =
    if i == 100
    then some b'h'
    else if i == 101
    then some b'i'
    else if i == 102
    then some 0
    else if leb 200 i && ltb i 208
    then some 7
    else none

-- A kernel that maps at 4096.
abbrev mmap_page : Mmap
mmap_page m len = (4096, λ i. if leb 4096 i && ltb i (4096 + len) then some 0 else m i)

abbrev munmap_region : Munmap
munmap_region m a len i = if leb a i && ltb i (a + len) then none else m i

-- A kernel without memory: -ENOMEM.
abbrev mmap_fails : Mmap
mmap_fails m len = (2 ^ 64 - 12, m)

mmap_fails-Fails : Fails greeting (mmap_fails greeting 64)
mmap_fails-Fails = record { errno = omega arith; bound = omega arith; unmapped = refl; kept = refl }

abbrev allocated : Memory
allocated = poke_bytes 8 (mmap_page greeting 64).1 4096 56

out_of_memory : malloc mmap_fails 50 greeting ≡ none
unfolding malloc store_bytes store
out_of_memory = refl

-- The largest size wraps around to a block of no bytes.
wrapped_size : total_size (2 ^ 64 - 1) ≡ 8
wrapped_size = refl

greeting-room : IsMapped greeting 200 3
greeting-room i lo hi = ground arith

strcpy-Copied_example : Copied greeting 200 4 (b'h' ∷ b'i' ∷ []) (strcpy 4 greeting 200 100)
strcpy-Copied_example =
    strcpy-Copied 4 greeting 200 100 (b'h' ∷ b'i' ∷ []) (omega arith)
      (refl, omega arith, (refl, omega arith, refl)) greeting-room (omega arith)
