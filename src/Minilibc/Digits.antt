-- ===== src/Minilibc/Digits.antt =====
-- stdio.c, print_int: its text reads back as the number.
use jyyos.Prelude.{
  ℕ, zero, suc, ◌+◌, ◌-◌, ◌*◌, ◌/◌, ◌%◌, ◌<◌, ◌≤◌, ◌≡◌, refl, ◌∙◌, ap, arith, false, ◌==◌,
  if◌then◌else◌, Bool-cases,
}
use jyyos.Prelude.{Option, some, [], ◌∷◌, ◌++◌, ◌⊎◌, inl, inr, ◌≢◌}
use jyyos.Prelude.Int.{ℤ, pos, negsuc, to_ℕ, is_zero, is_neg}
use jyyos.Prelude.CText.{Bytes}
use jyyos.Minilibc.{fill, copy_back, int_limit, int_min, negated, print_int}

-- The decimal reader: the number so far, and the digits to come.
abbrev read_digits : ℕ → Bytes → ℕ
read_digits n [] = n
read_digits n (d ∷ ds) = read_digits (n * 10 + (d - b'0')) ds

abbrev negative : ℕ → ℤ
negative zero = pos 0
negative (suc n) = negsuc n

abbrev pub read_int : Bytes → ℤ
read_int [] = pos 0
read_int (c ∷ ds) = if c == b'-' then negative (read_digits 0 ds) else pos (read_digits 0 (c ∷ ds))

read_digits-append :
    (n : ℕ) (ds : Bytes) (d : ℕ) → read_digits n (ds ++ d ∷ []) ≡ read_digits n ds * 10 + (d - b'0')
read_digits-append n [] d = refl
read_digits-append n (x ∷ ds) d = read_digits-append (n * 10 + (x - b'0')) ds d

-- No byte is less than '0'.
abbrev AllDigits : Bytes → Type 0
AllDigits [] = Unit {0}
AllDigits (d ∷ ds) = (b'0' ≤ d) × AllDigits ds

-- What the filling loop stores.
pub record Filled (n : ℕ) (o : Option Bytes) : Type 0 where
  pub temp : Bytes
  pub fills : o ≡ some temp
  pub reads : read_digits 0 (copy_back temp) ≡ n
  pub digits : AllDigits temp

fill-Filled : (fuel n : ℕ) → n < fuel → Filled n (fill fuel n)
unfolding fill copy_back
fill-Filled zero n h = absurd (omega arith)
fill-Filled (suc fuel) n h = elim (Bool-cases (n == 0)) [
  | inl e ↦ record { temp = []; fills = rw e refl; reads = ground (arith, e); digits = tt }
  | inr e ↦
      let t = fill-Filled fuel (n / 10) (ground (arith, e)) in
      record {
        temp = (b'0' + n % 10) ∷ t.temp;
        fills = rw (e, t.fills) refl;
        reads = read_digits-append 0 (copy_back t.temp) (b'0' + n % 10) ∙ omega (arith, t.reads);
        digits = (omega arith, t.digits);
      }
]

AllDigits-append : (ds : Bytes) (d : ℕ) → AllDigits ds → b'0' ≤ d → AllDigits (ds ++ d ∷ [])
AllDigits-append [] d h k = (k, tt)
AllDigits-append (x ∷ ds) d (h, hs) k = (h, AllDigits-append ds d hs k)

copy_back-AllDigits : (ds : Bytes) → AllDigits ds → AllDigits (copy_back ds)
unfolding copy_back
copy_back-AllDigits [] h = tt
copy_back-AllDigits (d ∷ ds) (h, hs) =
    AllDigits-append (copy_back ds) d (copy_back-AllDigits ds hs) h

read_int-digits : (ds : Bytes) → AllDigits ds → read_int ds ≡ pos (read_digits 0 ds)
read_int-digits [] h = refl
read_int-digits (d ∷ ds) (h, hs) = ground arith

-- The text of print_int, with fuel for the number.
pub record Prints (number : ℤ) (o : Option Bytes) : Type 0 where
  pub text : Bytes
  pub prints : o ≡ some text
  pub reads : read_int text ≡ number

-- An int.
abbrev pub IsInt : ℤ → Type 0
IsInt (pos n) = n < int_limit
IsInt (negsuc n) = n < int_limit

abbrev pub magnitude : ℤ → ℕ
magnitude (pos n) = n
magnitude (negsuc n) = suc n

-- The text of an int: INT_MIN is shown as a lone '-'.
abbrev pub PrintsInt : ℤ → Option Bytes → Type 0
PrintsInt number o =
    (number ≡ int_min) × (o ≡ some (b'-' ∷ [])) ⊎ (number ≢ int_min) × Prints number o

module _ (fuel : ℕ) (number : ℤ) {temp : Bytes} where
  print_int-some :
      (if is_zero (negated number) then some (b'0' ∷ []) else fill fuel (to_ℕ (negated number)))
        ≡ some temp
      → print_int fuel number ≡ some ((if is_neg number then b'-' ∷ [] else []) ++ copy_back temp)
  unfolding print_int
  print_int-some e = rw (print_int, e) refl

-- n, for negsuc n.
abbrev below : ℤ → ℕ
below (pos n) = 0
below (negsuc n) = n

suc_zero : (n : ℕ) → (suc n == 0) ≡ false
suc_zero n = ground arith

-- A negative int but INT_MIN.
negative-Prints :
    (fuel n : ℕ)
    → suc n < fuel
    → (suc n == int_limit) ≡ false
    → Prints (negsuc n) (print_int fuel (negsuc n))
unfolding copy_back
negative-Prints fuel n h e =
    let f = fill-Filled fuel (suc n) h in
    record {
      text = b'-' ∷ copy_back f.temp;
      prints = print_int-some fuel (negsuc n) {temp = f.temp} (rw (e, suc_zero n) f.fills);
      reads = ap negative f.reads;
    }

positive-Prints : (fuel n : ℕ) → n < fuel → Prints (pos n) (print_int fuel (pos n))
unfolding copy_back
positive-Prints fuel zero h = record {
  text = b'0' ∷ [];
  prints = print_int-some fuel (pos zero) refl;
  reads = refl;
}
positive-Prints fuel (suc n) h =
    let f = fill-Filled fuel (suc n) h in
    record {
      text = copy_back f.temp;
      prints = print_int-some fuel (pos (suc n)) {temp = f.temp} (rw (suc_zero n) f.fills);
      reads =
          read_int-digits (copy_back f.temp) (copy_back-AllDigits f.temp f.digits) ∙ ap pos f.reads;
    }

fill_none : (fuel : ℕ) → 0 < fuel → fill fuel 0 ≡ some []
unfolding fill
fill_none zero h = absurd (omega arith)
fill_none (suc fuel) h = refl

pub print_int-Prints :
    (fuel : ℕ) (number : ℤ)
    → IsInt number
    → magnitude number < fuel
    → PrintsInt number (print_int fuel number)
unfolding copy_back
print_int-Prints fuel (pos n) int h = inr (λ e. cc, positive-Prints fuel n h)
print_int-Prints fuel (negsuc n) int h = elim (Bool-cases (suc n == int_limit)) [
  | inl e ↦
      let least : negsuc n ≡ int_min = ap negsuc (ground (arith, e)) in
      inl (least, print_int-some fuel (negsuc n) {temp = []} (rw e (fill_none fuel (omega arith))))
  | inr e ↦ inr (λ least. ground (arith, e, ap below least), negative-Prints fuel n h e)
]
