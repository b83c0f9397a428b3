-- ===== src/Web/Form/Matching.antt =====
-- The regular expressions of membersys/formvalidator.go for e-mail addresses and phone numbers, as the
-- automata that they are, and what they accept.
use membersys.Base.{
  ℕ, ◌≡◌, refl, inl, inr, ◌⊎◌, Bool, true, false, Bool-cases, ◌&&◌, ◌||◌, [], ◌∷◌, ◌++◌, Text,
  is_empty, not, leb, ◌==◌, All, if◌then◌else◌, arith,
}

-- [A-Za-z0-9-_\.]
abbrev pub is_mail_char : ℕ → Bool
is_mail_char ch =
    (leb b'A' ch && leb ch b'Z')
    || ((leb b'a' ch && leb ch b'z')
        || ((leb b'0' ch && leb ch b'9') || ((ch == b'-') || ((ch == b'_') || (ch == b'.')))))

-- The part behind the @, of which `seen` tells whether it has a character yet.
unfoldable pub domain_matches : Bool → Text → Bool
domain_matches seen [] = seen
domain_matches seen (ch ∷ t) = is_mail_char ch && domain_matches true t

unfoldable pub local_matches : Bool → Text → Bool
unfolding domain_matches
local_matches seen [] = false
local_matches seen (ch ∷ t) =
    let rest = local_matches true t in
    if is_mail_char ch then rest else ((ch == b'@') && (seen && domain_matches false t))

-- ^[A-Za-z0-9-_\.]+@[A-Za-z0-9-_\.]+$
unfoldable pub email_matches : Text → Bool
unfolding local_matches
email_matches t = local_matches false t

-- [0-9 -\.]: the digits, and all from the space to the dot.
abbrev pub is_phone_char : ℕ → Bool
is_phone_char ch = (leb b'0' ch && leb ch b'9') || (leb b' ' ch && leb ch b'.')

unfoldable pub all_phone : Text → Bool
all_phone [] = true
all_phone (ch ∷ t) = is_phone_char ch && all_phone t

-- ^\+?[0-9 -\.]+$
unfoldable pub phone_matches : Text → Bool
unfolding all_phone
phone_matches [] = false
phone_matches (ch ∷ t) = all_phone (ch ∷ t) || ((ch == b'+') && (not (is_empty t) && all_phone t))

-- A text that is not empty, of the characters of an address.
abbrev pub IsWord : Text → Type 0
IsWord t = (is_empty t ≡ false) × All (λ ch. is_mail_char ch ≡ true) t

abbrev pub IsAddress : Text → Type 0
IsAddress t =
    (local : Text) × (domain : Text) × IsWord local × IsWord domain × (t ≡ local ++ b'@' ∷ domain)

domain-All :
    (seen : Bool) (t : Text) → domain_matches seen t ≡ true → All (λ ch. is_mail_char ch ≡ true) t
unfolding domain_matches
domain-All seen [] h = tt
domain-All seen (ch ∷ t) h = (ground arith, domain-All true t (ground arith))

domain_some : (t : Text) → domain_matches false t ≡ true → is_empty t ≡ false
unfolding domain_matches
domain_some [] h = absurd (cc)
domain_some (ch ∷ t) h = refl

-- From a state of the automaton: what it has still to read.
abbrev Rest : Bool → Text → Type 0
Rest seen t =
    (local : Text) × (domain : Text) × ((seen ≡ true) ⊎ (is_empty local ≡ false))
    × All (λ ch. is_mail_char ch ≡ true) local
    × IsWord domain
    × (t ≡ local ++ b'@' ∷ domain)

local-Rest : (seen : Bool) (t : Text) → local_matches seen t ≡ true → Rest seen t
unfolding local_matches
local-Rest seen [] h = absurd (cc)
local-Rest seen (ch ∷ t) h = elim (Bool-cases (is_mail_char ch)) [
  | inl e ↦
      let (local, domain, _, w, d, eq) = local-Rest true t (ground arith) in
      (ch ∷ local, domain, inr refl, (e, w), d, ground arith)
  | inr e ↦
      let tail : domain_matches false t ≡ true = ground arith in
      ([], t, inl (ground arith), tt, (domain_some t tail, domain-All false t tail), ground arith)
]

-- What the expression for addresses accepts is two words with an @ between them.
pub email_matches-IsAddress : (t : Text) → email_matches t ≡ true → IsAddress t
unfolding email_matches
email_matches-IsAddress t h =
    let (local, domain, some_local, w, d, eq) = local-Rest false t h in
    (local, domain, (elim some_local [ inl e ↦ absurd (cc) | inr e ↦ e ], w), d, eq)
