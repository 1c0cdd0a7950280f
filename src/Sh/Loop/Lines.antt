-- ===== src/Sh/Loop/Lines.antt =====
-- sh.c, getcmd and main: the loop reads all of its input, line by line.
use jyyos.Prelude.{ℕ, zero, suc, ◌+◌, ◌-◌, ◌<◌, ◌≤◌, ◌≡◌, ◌≢◌, refl, ◌∙◌, ap, ◌⊎◌, inl, inr}
use jyyos.Prelude.{
  Bool, false, ◌&&◌, ◌==◌, if◌then◌else◌, Bool-cases, arith, length-append, append_assoc,
}
use jyyos.Prelude.{Option, none, some, List, [], ◌∷◌, ◌++◌, length, drop, get_or, map}
use jyyos.Prelude.CText.{Bytes, newline, IsLine, unlines, until_nul-line, take-length}
use jyyos.Sh.Loop.{buf_size, read_bytes, getcmd, Action, chdir, spawn, action_of, shell}

-- What a call with room for n bytes reads: a line, with its newline if it is shorter than n, or the
-- end of an input that is too short.
abbrev pub ReadsLine : ℕ → Bytes → Option (Bytes × Bytes) → Type 0
ReadsLine n input none = length input < n
ReadsLine n input (some (line, rest)) =
    (line ++ rest ≡ input)
    × (length line ≤ n)
    × ((length line ≡ n) ⊎ (get_or line (length line - 1) 0 ≡ newline))

get_or-suc :
    (l : Bytes) (b : ℕ)
    → get_or l (length l - 1) 0 ≡ newline
    → get_or (b ∷ l) (length (b ∷ l) - 1) 0 ≡ newline
get_or-suc [] b e = absurd (omega (arith, e))
get_or-suc (x ∷ l) b e =
    let short : length (b ∷ x ∷ l) - 1 ≡ suc (length (x ∷ l) - 1) = omega arith in rw short e

read_bytes-ReadsLine : (n : ℕ) (input : Bytes) → ReadsLine n input (read_bytes n input)
unfolding read_bytes
read_bytes-ReadsLine zero input = (refl, omega arith, inl refl)
read_bytes-ReadsLine (suc n) [] = omega arith
read_bytes-ReadsLine (suc n) (b ∷ input) = elim (Bool-cases (b == newline)) [
  | inl e ↦ rw e (refl, omega arith, inr (ground (arith, e)))
  | inr e ↦ rw e (more (read_bytes n input) (read_bytes-ReadsLine n input))
]
  where
    more :
        (o : Option (Bytes × Bytes))
        → ReadsLine n input o
        → ReadsLine
            (suc n)
            (b ∷ input)
            (elim o [ none ↦ none | some (line, left) ↦ some (b ∷ line, left) ])
    more none h = omega (arith, h)
    more (some (line, left)) (whole, fits, inl full) =
        (ap (λ t. b ∷ t) whole, omega (arith, fits), inl (omega (arith, full)))
    more (some (line, left)) (whole, fits, inr ended) =
        (ap (λ t. b ∷ t) whole, omega (arith, fits), inr (get_or-suc line b ended))

after :
    (line : Bytes) {o : Option (List Action)}
    → o ≢ none
    → elim o [ none ↦ none | some actions ↦ some (action_of line ∷ actions) ] ≢ none
after line {o = none} h = absurd (h refl)
after line {o = some actions} h = cc

-- With fuel for each byte of the input and one round more, the loop of main ends.
pub shell-ne-none : (fuel : ℕ) (input : Bytes) → length input < fuel → shell fuel input ≢ none
unfolding shell getcmd
shell-ne-none zero input h = absurd (omega arith)
shell-ne-none (suc fuel) input h =
    round (read_bytes (buf_size - 1) input) (λ rest. shell-ne-none fuel rest)
      (read_bytes-ReadsLine (buf_size - 1) input)
  where
    shorter :
        (line rest : Bytes)
        → line ++ rest ≡ input
        → (length line ≡ 99) ⊎ (get_or line (length line - 1) 0 ≡ newline)
        → length rest < fuel
    shorter [] rest e (inl f) = absurd (omega (arith, f))
    shorter [] rest e (inr f) = absurd (omega (arith, f))
    shorter (b ∷ line) rest e f = omega (arith, length-append (b ∷ line) rest, ap length e)

    round :
        (o : Option (Bytes × Bytes))
        → ((rest : Bytes) → length rest < fuel → shell fuel rest ≢ none)
        → ReadsLine (buf_size - 1) input o
        → elim o [
          | none ↦ some []
          | some (line, rest) ↦ elim (shell fuel rest) [
            | none ↦ none
            | some actions ↦ some (action_of line ∷ actions)
          ]
        ]
          ≢ none
    round none again h = cc
    round (some (line, rest)) again (whole, fits, ended) =
        after line (again rest (shorter line rest whole ended))

-- A line that begins with "cd ".
abbrev pub is_cd : Bytes → Bool
is_cd [] = false
is_cd (a ∷ []) = false
is_cd (a ∷ b ∷ []) = false
is_cd (a ∷ b ∷ c ∷ l) = a == b'c' && b == b'd' && c == b' '

-- What is done for a line without its newline.
abbrev pub meant : Bytes → Action
meant l = if is_cd l then chdir (drop 3 l) else spawn (l ++ newline ∷ [])

action_of-line : (l : Bytes) → IsLine l → action_of (l ++ newline ∷ []) ≡ meant l
unfolding action_of
action_of-line l h =
    let len = length-append l (newline ∷ []) in
    let short : length (l ++ newline ∷ []) - 1 ≡ length l = omega (arith, len) in
    rw (until_nul-line l h, short, take-length l (newline ∷ [])) (test l)
  where
    test :
        (l : Bytes)
        → (if get_or (l ++ newline ∷ []) 0 0 == b'c'
              && get_or (l ++ newline ∷ []) 1 0 == b'd'
              && get_or (l ++ newline ∷ []) 2 0 == b' '
            then chdir (drop 3 l)
            else spawn (l ++ newline ∷ []))
          ≡ meant l
    test [] = refl
    test (a ∷ []) = ground arith
    test (a ∷ b ∷ []) = ground arith
    test (a ∷ b ∷ c ∷ l) = refl

read_bytes-line :
    (n : ℕ) (l rest : Bytes)
    → IsLine l
    → length l < n
    → read_bytes n (l ++ newline ∷ rest) ≡ some (l ++ newline ∷ [], rest)
unfolding read_bytes
read_bytes-line zero l rest h k = absurd (omega arith)
read_bytes-line (suc n) [] rest h k = refl
read_bytes-line (suc n) (b ∷ l) rest (z, nl, h) k = ground (arith, read_bytes-line n l rest h)

read_bytes-tail : (n : ℕ) (l : Bytes) → IsLine l → length l < n → read_bytes n l ≡ none
unfolding read_bytes
read_bytes-tail zero l h k = absurd (omega arith)
read_bytes-tail (suc n) [] h k = refl
read_bytes-tail (suc n) (b ∷ l) (z, nl, h) k = ground (arith, read_bytes-tail n l h)

shell-suc :
    (fuel : ℕ) (input : Bytes) {line rest : Bytes} {actions : List Action}
    → read_bytes (buf_size - 1) input ≡ some (line, rest)
    → shell fuel rest ≡ some actions
    → shell (suc fuel) input ≡ some (action_of line ∷ actions)
unfolding shell getcmd
shell-suc fuel input e k = rw (e, k)

-- Lines that fit in the buffer with their newline and the NUL.
abbrev pub AllShort : List Bytes → Type 0
AllShort [] = Unit {0}
AllShort (l ∷ ls) = IsLine l × (length l + 1 < buf_size) × AllShort ls

-- On lines that fit in the buffer, followed by a text without a newline that does too, main does
-- for each line what it means: chdir to the rest of a line that begins with "cd ", and otherwise a
-- child for the line. The text that is left is dropped.
pub shell-unlines :
    (fuel : ℕ) (ls : List Bytes) (tail : Bytes)
    → length ls < fuel
    → AllShort ls
    → IsLine tail
    → length tail + 1 < buf_size
    → shell fuel (unlines ls ++ tail) ≡ some (map meant ls)
unfolding shell getcmd
shell-unlines zero ls tail h short line fits = absurd (omega arith)
shell-unlines (suc fuel) [] tail h short line fits =
    rw (read_bytes-tail (buf_size - 1) tail line (omega arith))
shell-unlines (suc fuel) (l ∷ ls) tail h (hl, k, short) line fits =
    rw (append_assoc l (newline ∷ unlines ls) tail) (
      shell-suc fuel (l ++ newline ∷ (unlines ls ++ tail))
        (read_bytes-line (buf_size - 1) l (unlines ls ++ tail) hl (omega arith))
        (shell-unlines fuel ls tail (omega arith) short line fits)
      ∙ rw (action_of-line l hl))
