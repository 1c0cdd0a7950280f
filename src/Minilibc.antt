-- ===== src/Minilibc.antt =====
-- course_code/lecture_9/minilibc/src/string.c and stdio.c: strcmp, print_int and printf.
pub mod Digits
pub mod Format
pub mod Memory
pub mod Malloc
mod Tests
use jyyos.Prelude.{
  ℕ, zero, suc, ◌+◌, ◌-◌, ◌^◌, ◌*◌, ◌/◌, ◌%◌, Bool, true, false, ltb, leb, ◌==◌, if◌then◌else◌,
}
use jyyos.Prelude.{Option, none, some, List, [], ◌∷◌, ◌++◌, length}
use jyyos.Prelude.Int.{ℤ, pos, negsuc, to_ℕ, is_zero, is_neg, sub_ℕ}
use jyyos.Prelude.CText.{Bytes, newline, until_nul}

-- strcmp, on the bytes before the NULs.
unfoldable pub strcmp : Bytes → Bytes → ℤ
strcmp [] [] = pos 0
strcmp [] (b ∷ s2) = sub_ℕ 0 b
strcmp (a ∷ s1) [] = sub_ℕ a 0
strcmp (a ∷ s1) (b ∷ s2) = let rest = strcmp s1 s2 in if a == b then rest else sub_ℕ a b

-- The loop of print_int that fills temp from the last digit on; none is the fuel running out.
unfoldable pub fill : ℕ → ℕ → Option Bytes
fill zero number = none
fill (suc fuel) number =
    let rest = fill fuel (number / 10) in
    if number == 0
    then some []
    else elim rest [ none ↦ none | some temp ↦ some ((b'0' + number % 10) ∷ temp) ]

-- The loop that copies temp backwards into the buffer.
unfoldable pub copy_back : Bytes → Bytes
copy_back [] = []
copy_back (d ∷ temp) = copy_back temp ++ d ∷ []

-- The ints are below 2 ^ 31; INT_MIN is the one whose magnitude is not.
abbrev pub int_limit : ℕ
int_limit = 2 ^ 31

abbrev pub int_min : ℤ
int_min = negsuc (2 ^ 31 - 1)

-- -number, for a negative int: INT_MIN wraps round to itself.
abbrev pub negated : ℤ → ℤ
negated (pos n) = pos n
negated (negsuc n) = if suc n == int_limit then negsuc n else pos (suc n)

-- The text of print_int; the loop does not run for what is still negative, as to_ℕ is 0 there.
unfoldable pub print_int : ℕ → ℤ → Option Bytes
print_int fuel number =
    let rest = negated number in
    let digits : Option Bytes = if is_zero rest then some (b'0' ∷ []) else fill fuel (to_ℕ rest) in
    let sign : Bytes = if is_neg number then b'-' ∷ [] else [] in
    elim digits [ none ↦ none | some temp ↦ some (sign ++ copy_back temp) ]

-- The arguments that va_arg takes: a string, NULL, or an int.
pub data Arg : Type 0 where
  string : Bytes → Arg
  null : Arg
  int : ℤ → Arg

-- "(null)"
abbrev pub null_text : Bytes
null_text = b'(' ∷ b'n' ∷ b'u' ∷ b'l' ∷ b'l' ∷ b')' ∷ []

abbrev pub put_string : List Arg → Option (Bytes × List Arg)
put_string (string s ∷ args) = some (until_nul s, args)
put_string (null ∷ args) = some (null_text, args)
put_string (int z ∷ args) = none
put_string [] = none

abbrev pub put_int : ℕ → List Arg → Option (Bytes × List Arg)
put_int fuel (int z ∷ args) = elim (print_int fuel z) [
  | none ↦ none
  | some text ↦ some (text, args)
]
put_int fuel (string s ∷ args) = none
put_int fuel (null ∷ args) = none
put_int fuel [] = none

-- The switch on the byte behind '%': what goes into the buffer, and the arguments left; none if
-- va_arg finds no argument of the type.
abbrev pub specifier : ℕ → ℕ → List Arg → Option (Bytes × List Arg)
specifier fuel c args =
    if c == b's'
    then put_string args
    else if c == b'd'
    then put_int fuel args
    else if c == b'%'
    then some (b'%' ∷ [], args)
    else some (b'%' ∷ c ∷ [], args)

abbrev pub prepend : Bytes → Option Bytes → Option Bytes
prepend text none = none
prepend text (some rest) = some (text ++ rest)

-- The loop over the format up to a NUL, with fuel for each number: the text for the buffer. After a
-- '%' at the end of the format the loop reads on behind the NUL: none.
unfoldable pub format_text : ℕ → Bytes → List Arg → Option Bytes
format_text fuel [] args = some []
format_text fuel (c ∷ []) args =
    if c == 0 then some [] else if c == b'%' then none else some (c ∷ [])
format_text fuel (c ∷ d ∷ format) args =
    let plain = format_text fuel (d ∷ format) args in
    let behind : Option Bytes = elim (specifier fuel d args) [
      | none ↦ none
      | some (text, args') ↦ prepend text (format_text fuel format args')
    ] in
    if c == 0
    then some []
    else if c == b'%'
    then (if d == 0 then none else behind)
    else prepend (c ∷ []) plain

-- puts: the calls write(1, ...) in order, and the value. The parameter is what write returns behind
-- the calls so far.
unfoldable pub puts : (List Bytes → Bytes → ℤ) → Bytes → List Bytes × ℤ
puts write s = if is_neg (write [] s) then (s ∷ [], negsuc 0) else (
  s ∷ (newline ∷ []) ∷ [],
  if is_neg (write (s ∷ []) (newline ∷ [])) then negsuc 0 else pos 0,
)

abbrev pub buffer_size : ℕ
buffer_size = 1024

-- printf: the bytes written and their count; none also if the text does not fit in the buffer.
unfoldable pub printf : ℕ → Bytes → List Arg → Option (Bytes × ℕ)
printf fuel format args = elim (format_text fuel format args) [
  | none ↦ none
  | some text ↦ if leb (length text) buffer_size then some (text, length text) else none
]
