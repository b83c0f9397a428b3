-- ===== src/Web/Scanned.antt =====
-- What ApplicantListHandler of membersys/applicantlist.go makes of the number that MakeBarcode of
-- membersys/barcode.go writes.
use membersys.Base.{
  ℕ, zero, suc, ◌+◌, ◌*◌, ◌/◌, ◌%◌, ◌^◌, ◌≤◌, ◌<◌, ◌≡◌, ◌∙◌, sym, refl, ap, false, Bool-cases, some,
  [], ◌∷◌, ◌++◌, Text, Bytes, ◌==◌, ltb, leb, inl, inr, length, length-append, subst, All, arith,
}
use native.Mathlib.Nat.{mul-le-mul_right}
use membersys.Decimal.{digits}
use membersys.Web.Numbers.{digit, nat_from, magnitude, parse_big, has_128_bits, be_bytes}
use membersys.Web.Barcode.{be_value, uuid_number}
use membersys.Web.Single.{be_value-append}

digit_of : (d : ℕ) → d < 10 → digit (b'0' + d) ≡ some d
digit_of d h = ground arith

zero_of : (n : ℕ) → n < 1 → n ≡ 0
zero_of n h = omega arith

-- Reading the digits of `n` from 0 gives `n`.
nat_from-digits : (k n : ℕ) (acc : Text) → n < 10 ^ k → nat_from 0 (digits k n acc) ≡ nat_from n acc
unfolding digits nat_from
nat_from-digits zero n acc h = rw (zero_of n h) refl
nat_from-digits (suc k) n acc h = elim (Bool-cases (ltb n 10)) [
  | inl e ↦
      rw (e, digits, nat_from, digit_of n (ground arith)) (ap (λ m. nat_from m acc) (omega arith))
  | inr e ↦
      rw (e, digits)
        (nat_from-digits k (n / 10) ((b'0' + n % 10) ∷ acc) (omega (arith, h))
          ∙ (rw (nat_from, digit_of (n % 10) (omega arith))
              (ap (λ m. nat_from m acc) (omega arith))))
]

parse_big_unsigned :
    (d : ℕ) (t : Text) → d < 10 → parse_big ((b'0' + d) ∷ t) ≡ nat_from 0 ((b'0' + d) ∷ t)
unfolding parse_big magnitude
parse_big_unsigned d t h =
    let plus : b'0' + d == b'+' ≡ false = ground arith in
    let minus : b'0' + d == b'-' ≡ false = ground arith in rw (plus, minus) refl

parse_big-digits :
    (k n d : ℕ) (acc : Text)
    → d < 10
    → parse_big (digits k n ((b'0' + d) ∷ acc)) ≡ nat_from 0 (digits k n ((b'0' + d) ∷ acc))
unfolding digits
parse_big-digits zero n d acc h = parse_big_unsigned d acc h
parse_big-digits (suc k) n d acc h = elim (Bool-cases (ltb n 10)) [
  | inl e ↦ rw (e, digits) (parse_big_unsigned n ((b'0' + d) ∷ acc) (ground arith))
  | inr e ↦ rw (e, digits) (parse_big-digits k (n / 10) (n % 10) ((b'0' + d) ∷ acc) (omega arith))
]

one_digit : (n : ℕ) → n < 10 → nat_from 0 ((b'0' + n) ∷ []) ≡ some n
unfolding nat_from
one_digit n h = rw (nat_from, digit_of n h) (ap some (omega arith))

parse_big-all_digits : (n : ℕ) → parse_big (digits 39 n []) ≡ nat_from 0 (digits 39 n [])
unfolding digits
parse_big-all_digits n = elim (Bool-cases (ltb n 10)) [
  | inl e ↦ rw (e, digits) (parse_big_unsigned n [] (ground arith))
  | inr e ↦ rw (e, digits) (parse_big-digits 38 (n / 10) (n % 10) [] (omega arith))
]

number_reads_back : (n : ℕ) → n < 10 ^ 39 → parse_big (digits 39 n []) ≡ some n
unfolding nat_from
number_reads_back n h = parse_big-all_digits n ∙ nat_from-digits 39 n [] h

abbrev pub IsByte : ℕ → Type 0
IsByte b = b < 256

next_power : (k : ℕ) → 256 ^ suc k ≡ 256 * 256 ^ k
next_power k = omega arith

regroup : (m p : ℕ) → m * (256 * p) ≡ m * 256 * p
regroup m p = omega arith

shifted : (m k : ℕ) → m * 256 ^ suc k ≡ m * 256 * 256 ^ k
shifted m k = ap (λ p. m * p) (next_power k) ∙ regroup m (256 ^ k)

be_value-lt : (acc : ℕ) (bs : Bytes) → All IsByte bs → be_value acc bs < (acc + 1) * 256 ^ length bs
be_value-lt acc [] h = omega arith
be_value-lt acc (b ∷ bs) (h, hs) =
    let rest : be_value (acc * 256 + b) bs < (acc * 256 + b + 1) * 256 ^ length bs =
      be_value-lt (acc * 256 + b) bs hs in
    let wide : (acc * 256 + b + 1) * 256 ^ length bs ≤ ((acc + 1) * 256) * 256 ^ length bs =
      mul-le-mul_right (256 ^ length bs) (omega arith) in
    let goal : be_value (acc * 256 + b) bs < (acc + 1) * 256 ^ suc (length bs) =
      omega (arith, rest, wide, shifted (acc + 1) (length bs)) in
    goal

be_value-ge : (acc : ℕ) (bs : Bytes) → acc * 256 ^ length bs ≤ be_value acc bs
be_value-ge acc [] = omega arith
be_value-ge acc (b ∷ bs) =
    let rest : (acc * 256 + b) * 256 ^ length bs ≤ be_value (acc * 256 + b) bs =
      be_value-ge (acc * 256 + b) bs in
    let wide : acc * 256 * 256 ^ length bs ≤ (acc * 256 + b) * 256 ^ length bs =
      mul-le-mul_right (256 ^ length bs) (omega arith) in
    let goal : acc * 256 ^ suc (length bs) ≤ be_value (acc * 256 + b) bs =
      omega (arith, rest, wide, shifted acc (length bs)) in
    goal

-- The last byte of a list with one.
last-IsByte :
    (b : ℕ) (bs : Bytes)
    → All IsByte (b ∷ bs)
    → (xs : Bytes) × (c : ℕ) × (b ∷ bs ≡ xs ++ c ∷ []) × All IsByte xs × IsByte c
last-IsByte b [] (h, hs) = ([], b, refl, tt, h)
last-IsByte b (d ∷ bs) (h, hs) =
    let (xs, c, e, ks, k) = last-IsByte d bs hs in (b ∷ xs, c, ap (λ l. b ∷ l) e, (h, ks), k)

low_byte : (n c : ℕ) → c < 256 → (n * 256 + c) % 256 ≡ c
low_byte n c h = omega arith

other_bytes : (n c : ℕ) → c < 256 → (n * 256 + c) / 256 ≡ n
other_bytes n c h = omega arith

be_bytes-append :
    (k : ℕ) (xs : Bytes) (c : ℕ)
    → c < 256
    → be_bytes k (be_value 0 xs) ≡ xs
    → be_bytes (suc k) (be_value 0 (xs ++ c ∷ [])) ≡ xs ++ c ∷ []
unfolding be_bytes
be_bytes-append k xs c h e =
    rw (be_value-append 0 xs c, low_byte (be_value 0 xs) c h, other_bytes (be_value 0 xs) c h, e)
      refl

-- The last `k` bytes of what `k` bytes stand for are these.
be_bytes-be_value :
    (k : ℕ) (bs : Bytes) → length bs ≡ k → All IsByte bs → be_bytes k (be_value 0 bs) ≡ bs
unfolding be_bytes
be_bytes-be_value zero [] e h = refl
be_bytes-be_value zero (b ∷ bs) e h = absurd (omega (arith, e))
be_bytes-be_value (suc k) [] e h = absurd (omega (arith, e))
be_bytes-be_value (suc k) (b ∷ bs) e h =
    let (xs, c, split, ks, small) = last-IsByte b bs h in
    let shorter : length xs ≡ k = omega (arith, e, ap length split, length-append xs (c ∷ [])) in
    subst (λ l. be_bytes (suc k) (be_value 0 l) ≡ l) (sym split)
      (be_bytes-append k xs c small (be_bytes-be_value k xs shorter ks))

number_has_128_bits :
    (b : ℕ) (bs : Bytes)
    → IsByte b
    → All IsByte bs
    → length bs ≡ 15
    → has_128_bits (be_value 0 (b ∷ bs)) ≡ leb 128 b
number_has_128_bits b bs h hs e =
    let low : b * 256 ^ 15 ≤ be_value b bs =
      subst (λ k. b * 256 ^ k ≤ be_value b bs) e (be_value-ge b bs) in
    let high : be_value b bs < (b + 1) * 256 ^ 15 =
      subst (λ k. be_value b bs < (b + 1) * 256 ^ k) e (be_value-lt b bs hs) in
    elim (Bool-cases (leb 128 b)) [
      | inl f ↦ ground (arith, low, high)
      | inr f ↦ ground (arith, low, high)
    ]

first_byte : (b : ℕ) (bs : Bytes) → be_value b bs ≡ be_value 0 (b ∷ bs)
first_byte b bs = ap (λ n. be_value n bs) (omega arith)

below_39_digits :
    (b : ℕ) (bs : Bytes) → IsByte b → All IsByte bs → length bs ≡ 15 → be_value 0 (b ∷ bs) < 10 ^ 39
below_39_digits b bs h hs e =
    let high : be_value b bs < (b + 1) * 256 ^ 15 =
      subst (λ k. be_value b bs < (b + 1) * 256 ^ k) e (be_value-lt b bs hs) in
    let below : be_value b bs < 10 ^ 39 = omega (arith, high, h) in
    subst (λ n. n < 10 ^ 39) (first_byte b bs) below

-- The number of a UUID is read back as that number, which has 128 bits if the UUID's first byte is 128
-- or more, and whose sixteen bytes are those of the UUID.
pub uuid_number-reads_back :
    (b : ℕ) (bs : Bytes)
    → IsByte b
    → All IsByte bs
    → length bs ≡ 15
    → (parse_big (uuid_number (b ∷ bs)) ≡ some (be_value 0 (b ∷ bs)))
      × (has_128_bits (be_value 0 (b ∷ bs)) ≡ leb 128 b)
      × (be_bytes 16 (be_value 0 (b ∷ bs)) ≡ b ∷ bs)
unfolding uuid_number
uuid_number-reads_back b bs h hs e = (
  number_reads_back (be_value 0 (b ∷ bs)) (below_39_digits b bs h hs e),
  number_has_128_bits b bs h hs e,
  be_bytes-be_value 16 (b ∷ bs) (omega (arith, e)) (h, hs),
)
