-- ===== src/Web/Numbers.antt =====
-- Numbers in a form: strconv.ParseUint(value, 10, 64), and the decimal number of math/big that
-- ApplicantListHandler takes for a UUID.
use membersys.Base.{
  ℕ, zero, suc, ◌+◌, ◌-◌, ◌*◌, ◌/◌, ◌%◌, ◌^◌, ◌<◌, ◌≡◌, Bool, ◌&&◌, Option, none, some, [], ◌∷◌,
  ◌++◌, Text, Bytes, ◌==◌, if◌then◌else◌, ltb, leb, arith, Option-cases, inl, inr,
}

abbrev pub digit : ℕ → Option ℕ
digit ch = if leb b'0' ch && leb ch b'9' then some (ch - b'0') else none

-- The number so far with one more digit, unless it would be 2^64 or more.
unfoldable pub uint_step : ℕ → ℕ → Option ℕ
uint_step n ch = elim (digit ch) [
  | none ↦ none
  | some d ↦ if ltb (n * 10 + d) (2 ^ 64) then some (n * 10 + d) else none
]

unfoldable pub uint_from : ℕ → Text → Option ℕ
unfolding uint_step
uint_from n [] = some n
uint_from n (ch ∷ t) = elim (uint_step n ch) [ none ↦ none | some n' ↦ uint_from n' t ]

unfoldable pub parse_uint : Text → Option ℕ
unfolding uint_from
parse_uint [] = none
parse_uint (ch ∷ t) = uint_from 0 (ch ∷ t)

uint_step-lt : (n ch m : ℕ) → uint_step n ch ≡ some m → m < 2 ^ 64
unfolding uint_step
uint_step-lt n ch m h = ground arith

uint_from-lt : (n : ℕ) (t : Text) (m : ℕ) → n < 2 ^ 64 → uint_from n t ≡ some m → m < 2 ^ 64
unfolding uint_from
uint_from-lt n [] m b h = ground arith
uint_from-lt n (ch ∷ t) m b h = elim (Option-cases (uint_step n ch)) [
  | inl e ↦ absurd (cc (rw (e, uint_from) at h))
  | inr (n', e) ↦ uint_from-lt n' t m (uint_step-lt n ch n' e) (rw (e, uint_from) at h)
]

-- What ParseUint gives fits in 64 bits.
pub parse_uint-lt : (t : Text) (m : ℕ) → parse_uint t ≡ some m → m < 2 ^ 64
unfolding parse_uint
parse_uint-lt [] m h = absurd (cc)
parse_uint-lt (ch ∷ t) m h = uint_from-lt 0 (ch ∷ t) m (omega arith) h

-- The digits of a magnitude, without a bound.
unfoldable pub nat_from : ℕ → Text → Option ℕ
nat_from n [] = some n
nat_from n (ch ∷ t) = elim (digit ch) [ none ↦ none | some d ↦ nat_from (n * 10 + d) t ]

unfoldable pub magnitude : Text → Option ℕ
unfolding nat_from
magnitude [] = none
magnitude (ch ∷ t) = nat_from 0 (ch ∷ t)

-- The magnitude of `bigint.SetString(t, 10)`, whose sign neither BitLen nor Bytes looks at.
unfoldable pub parse_big : Text → Option ℕ
unfolding magnitude
parse_big [] = none
parse_big (ch ∷ t) =
    if ch == b'+' then magnitude t else if ch == b'-' then magnitude t else magnitude (ch ∷ t)

-- `bigint.BitLen() == 128`.
abbrev pub has_128_bits : ℕ → Bool
has_128_bits n = leb (2 ^ 127) n && ltb n (2 ^ 128)

-- The last `k` bytes of a number, the highest first: `bigint.Bytes()` where it has `k` bytes.
unfoldable pub be_bytes : ℕ → ℕ → Bytes
be_bytes zero n = []
be_bytes (suc k) n = be_bytes k (n / 256) ++ n % 256 ∷ []
