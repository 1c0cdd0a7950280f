-- ===== src/Minilibc/Format.antt =====
-- stdio.c, printf: a format is a list of pieces.
use jyyos.Prelude.{ℕ, ◌<◌, ◌≤◌, ◌≡◌, ◌≢◌, refl, arith, true, false, false, inl, inr, leb, ◌==◌}
use jyyos.Prelude.{Option, none, some, List, [], ◌∷◌, ◌++◌, length}
use jyyos.Prelude.Int.{ℤ}
use jyyos.Prelude.CText.{Bytes, until_nul}
use jyyos.Minilibc.{
  Arg, string, null, int, null_text, print_int, format_text, specifier, put_int, printf,
  buffer_size,
}
use jyyos.Minilibc.Digits.{IsInt, magnitude, print_int-Prints}

-- A byte, %s, %s with NULL, %d, and %%.
pub data Piece : Type 0 where
  byte : ℕ → Piece
  text : Bytes → Piece
  no_text : Piece
  number : ℤ → Piece
  percent : Piece

abbrev pub format_of : List Piece → Bytes
format_of [] = []
format_of (byte c ∷ ps) = c ∷ format_of ps
format_of (text s ∷ ps) = b'%' ∷ b's' ∷ format_of ps
format_of (no_text ∷ ps) = b'%' ∷ b's' ∷ format_of ps
format_of (number z ∷ ps) = b'%' ∷ b'd' ∷ format_of ps
format_of (percent ∷ ps) = b'%' ∷ b'%' ∷ format_of ps

abbrev pub args_of : List Piece → List Arg
args_of [] = []
args_of (byte c ∷ ps) = args_of ps
args_of (text s ∷ ps) = string s ∷ args_of ps
args_of (no_text ∷ ps) = null ∷ args_of ps
args_of (number z ∷ ps) = int z ∷ args_of ps
args_of (percent ∷ ps) = args_of ps

-- The text of a number.
abbrev pub text_or_empty : Option Bytes → Bytes
text_or_empty none = []
text_or_empty (some s) = s

abbrev pub text_of : ℕ → List Piece → Bytes
text_of fuel [] = []
text_of fuel (byte c ∷ ps) = c ∷ text_of fuel ps
text_of fuel (text s ∷ ps) = until_nul s ++ text_of fuel ps
text_of fuel (no_text ∷ ps) = null_text ++ text_of fuel ps
text_of fuel (number z ∷ ps) = text_or_empty (print_int fuel z) ++ text_of fuel ps
text_of fuel (percent ∷ ps) = b'%' ∷ text_of fuel ps

-- No byte piece is '%' or NUL, each number is an int, and the fuel is enough for it.
abbrev pub AllFine : ℕ → List Piece → Type 0
AllFine fuel [] = Unit {0}
AllFine fuel (byte c ∷ ps) = (c ≢ b'%') × (c ≢ 0) × AllFine fuel ps
AllFine fuel (text s ∷ ps) = AllFine fuel ps
AllFine fuel (no_text ∷ ps) = AllFine fuel ps
AllFine fuel (number z ∷ ps) = IsInt z × (magnitude z < fuel) × AllFine fuel ps
AllFine fuel (percent ∷ ps) = AllFine fuel ps

format_text-byte :
    (fuel c : ℕ) (format : Bytes) (args : List Arg) (rest : Bytes)
    → c ≢ b'%'
    → c ≢ 0
    → format_text fuel format args ≡ some rest
    → format_text fuel (c ∷ format) args ≡ some (c ∷ rest)
unfolding format_text
format_text-byte fuel c [] args rest h k e = ground (arith, e)
format_text-byte fuel c (d ∷ format) args rest h k e =
    let plain : (c == b'%') ≡ false = ground arith in
    let live : (c == 0) ≡ false = ground arith in rw (format_text, live, plain, e) refl

format_text-specifier :
    (fuel d : ℕ) (format : Bytes) (args args' : List Arg) (shown rest : Bytes)
    → (d == 0) ≡ false
    → specifier fuel d args ≡ some (shown, args')
    → format_text fuel format args' ≡ some rest
    → format_text fuel (b'%' ∷ d ∷ format) args ≡ some (shown ++ rest)
unfolding format_text
format_text-specifier fuel d format args args' shown rest live s e = rw (live, s, e) refl

put_int-some :
    (fuel : ℕ) (z : ℤ) (args : List Arg) {s : Bytes}
    → print_int fuel z ≡ some s
    → put_int fuel (int z ∷ args) ≡ some (text_or_empty (print_int fuel z), args)
put_int-some fuel z args e = rw (put_int, e) refl

print_int-ends :
    (fuel : ℕ) (z : ℤ)
    → IsInt z
    → magnitude z < fuel
    → (shown : Bytes) × (print_int fuel z ≡ some shown)
print_int-ends fuel z range h = elim (print_int-Prints fuel z range h) [
  | inl (least, e) ↦ (b'-' ∷ [], e)
  | inr (other, p) ↦ (p.text, p.prints)
]

format_text-pieces :
    (fuel : ℕ) (ps : List Piece)
    → AllFine fuel ps
    → format_text fuel (format_of ps) (args_of ps) ≡ some (text_of fuel ps)
unfolding format_text
format_text-pieces fuel [] h = refl
format_text-pieces fuel (byte c ∷ ps) (h, k, hs) =
    format_text-byte fuel c (format_of ps) (args_of ps) (text_of fuel ps) h k
      (format_text-pieces fuel ps hs)
format_text-pieces fuel (text s ∷ ps) h =
    format_text-specifier fuel b's' (format_of ps) (string s ∷ args_of ps) (args_of ps)
      (until_nul s) (text_of fuel ps) refl refl (format_text-pieces fuel ps h)
format_text-pieces fuel (no_text ∷ ps) h =
    format_text-specifier fuel b's' (format_of ps) (null ∷ args_of ps) (args_of ps) null_text
      (text_of fuel ps) refl refl (format_text-pieces fuel ps h)
format_text-pieces fuel (number z ∷ ps) (range, h, hs) =
    let (shown, p) = print_int-ends fuel z range h in
    format_text-specifier fuel b'd' (format_of ps) (int z ∷ args_of ps) (args_of ps)
      (text_or_empty (print_int fuel z)) (text_of fuel ps) refl (put_int-some fuel z (args_of ps) p)
      (format_text-pieces fuel ps hs)
format_text-pieces fuel (percent ∷ ps) h =
    format_text-specifier fuel b'%' (format_of ps) (args_of ps) (args_of ps) (b'%' ∷ [])
      (text_of fuel ps) refl refl (format_text-pieces fuel ps h)

-- On the format and the arguments of a list of pieces whose text fits in the buffer of 1024 bytes,
-- with no byte piece '%' or NUL and with an int, and fuel for it, in each number piece, printf
-- writes the pieces' text, strings up to their NUL and numbers as print_int does, and returns its
-- length.
pub printf-pieces :
    (fuel : ℕ) (ps : List Piece)
    → AllFine fuel ps
    → length (text_of fuel ps) ≤ buffer_size
    → printf fuel (format_of ps) (args_of ps) ≡ some (text_of fuel ps, length (text_of fuel ps))
unfolding printf
printf-pieces fuel ps h fits =
    let room : leb (length (text_of fuel ps)) buffer_size ≡ true = ground arith in
    rw (printf, format_text-pieces fuel ps h, room) refl
