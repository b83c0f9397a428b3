-- ===== src/Decimal.antt =====
-- Numbers in records and queries: strconv.FormatUint(n, 10) and strconv.ParseInt(t, 10, 64).
use membersys.Base.{
  ℕ, zero, suc, ◌+◌, ◌*◌, ◌/◌, ◌%◌, ◌^◌, ◌<◌, ◌≡◌, ◌∙◌, refl, ap, true, false, Option, Option-cases,
  none, some, [], ◌∷◌, Text, ◌==◌, if◌then◌else◌, ltb, arith, Bool-cases, inl, inr, ℤ, pos, negsuc,
}
use membersys.Web.Numbers.{parse_uint, uint_from, uint_step}

-- The digits of `n`, at most `k` of them, before those in `acc`.
unfoldable pub digits : ℕ → ℕ → Text → Text
digits zero n acc = acc
digits (suc k) n acc = elim (ltb n 10) [
  | true ↦ (b'0' + n) ∷ acc
  | false ↦ digits k (n / 10) ((b'0' + n % 10) ∷ acc)
]

-- 20 digits are enough for 64 bits.
unfoldable pub format_uint : ℕ → Text
unfolding digits
format_uint n = digits 20 n []

-- A number with a sign: at least -2^63, at most 2^63 - 1.
unfoldable pub positive : Option ℕ → Option ℤ
positive none = none
positive (some n) = if ltb n (2 ^ 63) then some (pos n) else none

unfoldable pub negative : Option ℕ → Option ℤ
negative none = none
negative (some zero) = some (pos 0)
negative (some (suc n)) = if ltb n (2 ^ 63) then some (negsuc n) else none

unfoldable pub parse_int : Text → Option ℤ
unfolding positive negative
parse_int [] = none
parse_int (ch ∷ t) =
    if ch == b'+'
    then positive (parse_uint t)
    else if ch == b'-'
    then negative (parse_uint t)
    else positive (parse_uint (ch ∷ t))

uint_step_digit :
    (n d : ℕ) → d < 10 → n * 10 + d < 2 ^ 64 → uint_step n (b'0' + d) ≡ some (n * 10 + d)
unfolding uint_step
uint_step_digit n d h b = ground arith

next_digit :
    (n : ℕ) (acc : Text) → n < 2 ^ 64 → uint_from (n / 10) ((b'0' + n % 10) ∷ acc) ≡ uint_from n acc
unfolding uint_from
next_digit n acc b =
    rw (uint_from, uint_step_digit (n / 10) (n % 10) (omega arith) (omega arith))
      (ap (λ m. uint_from m acc) (omega arith))

zero_of : (n : ℕ) → n < 1 → n ≡ 0
zero_of n h = omega arith

shorter : (k n : ℕ) → n < 10 ^ suc k → n / 10 < 10 ^ k
shorter k n h = omega (arith, h)

-- Reading the digits of `n` from 0 gives `n`.
uint_from-digits :
    (k n : ℕ) (acc : Text)
    → n < 10 ^ k
    → n < 2 ^ 64
    → uint_from 0 (digits k n acc) ≡ uint_from n acc
unfolding digits uint_from
uint_from-digits zero n acc h b = rw (zero_of n h) refl
uint_from-digits (suc k) n acc h b = elim (Bool-cases (ltb n 10)) [
  | inl e ↦
      rw (e, digits, uint_from, uint_step_digit 0 n (ground arith) (omega arith))
        (ap (λ m. uint_from m acc) (omega arith))
  | inr e ↦
      rw (e, digits)
        (uint_from-digits k (n / 10) ((b'0' + n % 10) ∷ acc) (shorter k n h) (omega arith)
          ∙ next_digit n acc b)
]

parse_uint-digits :
    (k n d : ℕ) (acc : Text)
    → parse_uint (digits k n (d ∷ acc)) ≡ uint_from 0 (digits k n (d ∷ acc))
unfolding digits parse_uint
parse_uint-digits zero n d acc = refl
parse_uint-digits (suc k) n d acc = elim (Bool-cases (ltb n 10)) [
  | inl e ↦ rw (e, digits, parse_uint) refl
  | inr e ↦ rw (e, digits) (parse_uint-digits k (n / 10) (b'0' + n % 10) (d ∷ acc))
]

parse_uint-format-digits : (n : ℕ) → parse_uint (digits 20 n []) ≡ uint_from 0 (digits 20 n [])
unfolding digits parse_uint
parse_uint-format-digits n = elim (Bool-cases (ltb n 10)) [
  | inl e ↦ rw (e, digits, parse_uint) refl
  | inr e ↦ rw (e, digits) (parse_uint-digits 19 (n / 10) (b'0' + n % 10) [])
]

-- What FormatUint writes of a 64-bit number ParseUint reads back.
pub parse_uint-format_uint : (n : ℕ) → n < 2 ^ 64 → parse_uint (format_uint n) ≡ some n
unfolding format_uint uint_from
parse_uint-format_uint n b =
    parse_uint-format-digits n ∙ uint_from-digits 20 n [] (omega (arith, b)) b

-- strconv.FormatInt(v, 10).
unfoldable pub format_int : ℤ → Text
format_int (pos n) = format_uint n
format_int (negsuc n) = b'-' ∷ format_uint (suc n)

-- A digit is no sign.
digit_no_sign : (ch m : ℕ) → uint_step 0 ch ≡ some m → (ch == b'+' ≡ false) × (ch == b'-' ≡ false)
unfolding uint_step
digit_no_sign ch m e = ground arith

first_digit :
    (ch : ℕ) (t : Text) (n : ℕ) → parse_uint (ch ∷ t) ≡ some n → (m : ℕ) × (uint_step 0 ch ≡ some m)
unfolding parse_uint uint_from
first_digit ch t n e = elim (Option-cases (uint_step 0 ch)) [
  | inl f ↦ absurd (cc (rw (f, uint_from) at e))
  | inr r ↦ r
]

no_digits : (n : ℕ) → parse_uint [] ≡ some n → ⊥
unfolding parse_uint
no_digits n e = absurd (cc e)

-- A text that ParseUint reads begins with no sign.
parse_int-unsigned : (t : Text) (n : ℕ) → parse_uint t ≡ some n → parse_int t ≡ positive (some n)
unfolding parse_int
parse_int-unsigned [] n e = absurd (no_digits n e)
parse_int-unsigned (ch ∷ t) n e =
    let (m, f) = first_digit ch t n e in
    let (plus, minus) = digit_no_sign ch m f in rw (plus, minus, e) refl

-- The numbers of 64 bits with a sign.
abbrev pub IsInt64 : ℤ → Type 0
IsInt64 (pos n) = n < 2 ^ 63
IsInt64 (negsuc n) = n < 2 ^ 63

-- What FormatInt writes of a signed 64-bit number ParseInt reads back.
pub parse_int-format_int : (v : ℤ) → IsInt64 v → parse_int (format_int v) ≡ some v
unfolding format_int parse_int positive negative
parse_int-format_int (pos n) b =
    parse_int-unsigned (format_uint n) n (parse_uint-format_uint n (omega arith)) ∙ ground arith
parse_int-format_int (negsuc n) b = rw (parse_uint-format_uint (suc n) (omega arith)) (ground arith)
