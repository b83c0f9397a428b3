-- ===== src/Tools/Order.antt =====
-- The order of the keys of members, and what is beyond a key.
use membersys.Base.{
  ◌<◌, ◌≡◌, refl, Bool, true, false, [], ◌∷◌, ◌++◌, Text, ltb, if◌then◌else◌, All, arith,
  Bool-cases, inl, inr,
}
use membersys.Membership.{Member, text_or_empty}

-- The bytes of a key decide in order, and a key is before those that begin with it.
unfoldable pub text_lt : Text → Text → Bool
text_lt [] [] = false
text_lt [] (b ∷ t) = true
text_lt (a ∷ s) [] = false
text_lt (a ∷ s) (b ∷ t) =
    let rest = text_lt s t in if ltb a b then true else if ltb b a then false else rest

abbrev pub key : Member → Text
key m = text_or_empty m.email

-- No byte is NUL.
abbrev pub HasNoNul : Text → Type 0
HasNoNul t = All (λ b. 0 < b) t

pub text_lt-nul_self : (t : Text) → text_lt (t ++ 0 ∷ []) t ≡ false
unfolding text_lt
text_lt-nul_self [] = refl
text_lt-nul_self (b ∷ t) = ground (arith, text_lt-nul_self t)

-- What is before a key is not beyond that key with a NUL.
pub text_lt-nul_before : (s t : Text) → text_lt s t ≡ true → text_lt (t ++ 0 ∷ []) s ≡ false
unfolding text_lt
text_lt-nul_before [] [] h = refl
text_lt-nul_before [] (b ∷ t) h = refl
text_lt-nul_before (a ∷ s) [] h = absurd (cc h)
text_lt-nul_before (a ∷ s) (b ∷ t) h = elim (Bool-cases (ltb a b)) [
  | inl e ↦ ground arith
  | inr e ↦ elim (Bool-cases (ltb b a)) [
    | inl f ↦ ground arith
    | inr f ↦ ground (arith, text_lt-nul_before s t (ground arith))
  ]
]

-- What is beyond a key and has no NUL is beyond that key with a NUL.
pub text_lt-nul_after :
    (s t : Text) → HasNoNul t → text_lt s t ≡ true → text_lt (s ++ 0 ∷ []) t ≡ true
unfolding text_lt
text_lt-nul_after [] [] h e = absurd (cc e)
text_lt-nul_after [] (b ∷ t) (h, hs) e = ground arith
text_lt-nul_after (a ∷ s) [] h e = absurd (cc e)
text_lt-nul_after (a ∷ s) (b ∷ t) (h, hs) e = elim (Bool-cases (ltb a b)) [
  | inl l ↦ ground arith
  | inr l ↦ elim (Bool-cases (ltb b a)) [
    | inl f ↦ absurd (ground arith)
    | inr f ↦ ground (arith, text_lt-nul_after s t hs (ground arith))
  ]
]
