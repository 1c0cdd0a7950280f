-- ===== src/Prelude/CText.antt =====
-- C strings as lists of bytes: `strlen`, `fgets` and the handling of a line's newline.
use jyyos.Prelude.Tests.{ltb, lt→ltb, ◌==◌, if◌then◌else◌}
use jyyos.Prelude.Lists.{length, get_or, take, length-append}
use Prim.Native.Nat.{ℕ, zero, suc, ◌+◌, ◌-◌, ◌<◌, ◌≤◌}
use mathlib.Core.Path.{◌≡◌, refl, ap}
use mathlib.Core.Logic.{◌≢◌}
use mathlib.Core.Bool.{◌&&◌}
use mathlib.Core.Option.{Option, none, some}
use mathlib.Core.List.{List, [], ◌∷◌, ◌++◌}
use native.Mathlib.Omega.{arith}

abbrev pub Bytes : Type 0
Bytes = List ℕ

abbrev pub newline : ℕ
newline = 10

-- The C string that a buffer with these contents holds: what stands before the first NUL. The
-- buffer's terminating NUL is not part of the list.
unfoldable pub until_nul : Bytes → Bytes
until_nul [] = []
until_nul (b ∷ bs) = if b == 0 then [] else b ∷ until_nul bs

-- At most n bytes, up to a newline and with it; and the bytes after them.
unfoldable pub take_line : ℕ → Bytes → Bytes × Bytes
take_line zero bs = ([], bs)
take_line (suc n) [] = ([], [])
take_line (suc n) (b ∷ bs) =
    let rest = take_line n bs in if b == newline then (b ∷ [], bs) else (b ∷ rest.0, rest.1)

-- `fgets(buffer, n, file)`: none at the end of the file; otherwise the contents of the buffer and
-- what is left of the file.
unfoldable pub fgets : ℕ → Bytes → Option (Bytes × Bytes)
unfolding take_line
fgets n [] = none
fgets n (b ∷ bs) = some (take_line (n - 1) (b ∷ bs))

-- len > 0 && text[len - 1] == '\n', and the text without that byte.
unfoldable pub chop_newline : Bytes → Bytes
chop_newline text =
    if ltb 0 (length text) && get_or text (length text - 1) 0 == newline
    then take (length text - 1) text
    else text

-- A text of one line: no NUL and no newline.
abbrev pub IsLine : Bytes → Type 0
IsLine [] = Unit {0}
IsLine (b ∷ bs) = (b ≢ 0) × (b ≢ newline) × IsLine bs

-- A file with these lines, each ended by a newline.
abbrev pub unlines : List Bytes → Bytes
unlines [] = []
unlines (l ∷ ls) = l ++ newline ∷ unlines ls

take_line-line :
    (n : ℕ) (l rest : Bytes)
    → IsLine l
    → length l < n
    → take_line n (l ++ newline ∷ rest) ≡ (l ++ newline ∷ [], rest)
unfolding take_line
take_line-line zero l rest h k = absurd (omega arith)
take_line-line (suc n) [] rest h k = refl
take_line-line (suc n) (b ∷ l) rest (z, nl, h) k = ground (arith, take_line-line n l rest h)

pub fgets-line :
    (n : ℕ) (l rest : Bytes)
    → IsLine l
    → length l + 1 < n
    → fgets n (l ++ newline ∷ rest) ≡ some (l ++ newline ∷ [], rest)
unfolding fgets
fgets-line n [] rest h k = rw (take_line-line (n - 1) [] rest tt (omega arith))
fgets-line n (b ∷ l) rest h k = rw (take_line-line (n - 1) (b ∷ l) rest h (omega arith))

pub until_nul-line : (l : Bytes) → IsLine l → until_nul (l ++ newline ∷ []) ≡ l ++ newline ∷ []
unfolding until_nul
until_nul-line [] h = refl
until_nul-line (b ∷ l) (z, nl, h) = ground (arith, until_nul-line l h)

pub get_or-last : (l : Bytes) (b : ℕ) → get_or (l ++ b ∷ []) (length l) 0 ≡ b
get_or-last [] b = refl
get_or-last (x ∷ l) b = get_or-last l b

pub take-length : (l m : Bytes) → take (length l) (l ++ m) ≡ l
take-length [] m = refl
take-length (x ∷ l) m = ap (λ t. x ∷ t) (take-length l m)

pub chop_newline-line : (l : Bytes) → chop_newline (l ++ newline ∷ []) ≡ l
unfolding chop_newline
chop_newline-line l =
    let len = length-append l (newline ∷ []) in
    let short : length (l ++ newline ∷ []) - 1 ≡ length l = omega arith in
    rw (
      short,
      get_or-last l newline,
      take-length l (newline ∷ []),
      lt→ltb 0 (length (l ++ newline ∷ [])) (omega arith),
    )

take_line-rest : (n : ℕ) (bs : Bytes) → length (take_line n bs).1 ≤ length bs
unfolding take_line
take_line-rest zero bs = omega arith
take_line-rest (suc n) [] = omega arith
take_line-rest (suc n) (b ∷ bs) = ground (arith, take_line-rest n bs)

-- fgets reads at least one byte, if there is room for one.
pub fgets-rest :
    (n : ℕ) (bs : Bytes) {line rest : Bytes}
    → fgets (suc (suc n)) bs ≡ some (line, rest)
    → length rest < length bs
unfolding fgets take_line
fgets-rest n [] e = cc
fgets-rest n (b ∷ bs) e = ground (arith, take_line-rest n bs, e)
