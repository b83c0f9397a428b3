-- ===== src/Web/Edits.antt =====
-- What the handlers of membersys/memberlist.go that change a field do for whom.
use membersys.Base.{
  ℕ, ◌≡◌, refl, ◌⊎◌, Text, text_eq, Bool-cases, inl, inr, Bool, false, none, some, Option-cases,
  codes, arith,
}
use membersys.Database.{MembershipDb}
use membersys.Web.Handler.{Request, Site, is_outsider, status_of}
use membersys.Web.Fields.{
  change_long_field, change_bool_field, change_text_field, change_fee, is_incomplete, parse_bool,
}
use membersys.Web.Numbers.{parse_uint}

module _ (db : MembershipDb) (site : Site) (req : Request) (s : db.State) where
  -- A handler left the database alone, or the request is complete, comes from no outsider (nobody is
  -- one where there is no group of administrators) and has a value that makes the call `done`.
  abbrev pub Permitted : {A : Type 0} → Bool → (A → Type 0) → (A → db.State) → db.State → Type 0
  Permitted {A} incomplete Reads done s' =
      (s' ≡ s)
      ⊎ ((value : A) × Reads value
          × (is_outsider site req ≡ false)
          × (incomplete ≡ false)
          × (s' ≡ done value))

  abbrev pub lacks_value : Bool
  lacks_value = is_incomplete db site req (codes "email") (codes "field") (codes "value")

  abbrev pub lacks_fee : Bool
  lacks_fee = is_incomplete db site req (codes "email") (codes "fee") (codes "fee_yearly")

  -- What a handler takes for the value: the number, the Boolean or the text of the form, or the fee
  -- with its period, which is monthly for whatever is not "true".
  abbrev pub TakesNumber : ℕ → Type 0
  TakesNumber value = parse_uint (req.form (codes "value")) ≡ some value

  abbrev pub TakesFlag : Bool → Type 0
  TakesFlag value = parse_bool (req.form (codes "value")) ≡ some value

  abbrev pub TakesText : Text → Type 0
  TakesText value = req.form (codes "value") ≡ value

  abbrev pub TakesFee : ℕ × Bool → Type 0
  TakesFee (fee, yearly) =
      (parse_uint (req.form (codes "fee")) ≡ some fee)
      × (yearly ≡ text_eq (req.form (codes "fee_yearly")) (codes "true"))

  change_long_field-Permitted :
      Permitted lacks_value TakesNumber
        (λ v. (db.set_long_value (req.form (codes "email")) (req.form (codes "field")) v s).1)
        (change_long_field db site req s).2
  unfolding change_long_field
  change_long_field-Permitted = elim (Bool-cases (is_outsider site req)) [
    | inl o ↦ inl (ground arith)
    | inr o ↦ elim (Bool-cases lacks_value) [
      | inl e ↦ inl (ground arith)
      | inr e ↦ elim (Option-cases (parse_uint (req.form (codes "value")))) [
        | inl n ↦ inl (ground arith)
        | inr (value, n) ↦ inr (value, n, o, e, ground arith)
      ]
    ]
  ]

  change_bool_field-Permitted :
      Permitted lacks_value TakesFlag
        (λ v. (db.set_bool_value (req.form (codes "email")) (req.form (codes "field")) v s).1)
        (change_bool_field db site req s).2
  unfolding change_bool_field
  change_bool_field-Permitted = elim (Bool-cases (is_outsider site req)) [
    | inl o ↦ inl (ground arith)
    | inr o ↦ elim (Bool-cases lacks_value) [
      | inl e ↦ inl (ground arith)
      | inr e ↦ elim (Option-cases (parse_bool (req.form (codes "value")))) [
        | inl n ↦ inl (ground arith)
        | inr (value, n) ↦ inr (value, n, o, e, ground arith)
      ]
    ]
  ]

  change_text_field-Permitted :
      Permitted lacks_value TakesText
        (λ v. (db.set_text_value (req.form (codes "email")) (req.form (codes "field")) v s).1)
        (change_text_field db site req s).2
  unfolding change_text_field
  change_text_field-Permitted = elim (Bool-cases (is_outsider site req)) [
    | inl o ↦ inl (ground arith)
    | inr o ↦ elim (Bool-cases lacks_value) [
      | inl e ↦ inl (ground arith)
      | inr e ↦ inr (req.form (codes "value"), refl, o, e, ground arith)
    ]
  ]

  change_fee-Permitted :
      Permitted lacks_fee TakesFee
        (λ v. (db.set_member_fee (req.form (codes "email")) v.0 v.1 s).1)
        (change_fee db site req s).2
  unfolding change_fee
  change_fee-Permitted = elim (Bool-cases (is_outsider site req)) [
    | inl o ↦ inl (ground arith)
    | inr o ↦ elim (Bool-cases lacks_fee) [
      | inl e ↦ inl (ground arith)
      | inr e ↦ elim (Option-cases (parse_uint (req.form (codes "fee")))) [
        | inl n ↦ inl (ground arith)
        | inr (fee, n) ↦ inr (
          (fee, text_eq (req.form (codes "fee_yearly")) (codes "true")),
          (n, refl),
          o,
          e,
          ground arith,
        )
      ]
    ]
  ]

  -- The four handlers that change a field leave the database alone, or the request is complete and
  -- comes from no outsider, that is from an administrator, or from anybody, logged in or not, where
  -- there is no group of administrators, and the handler made its
  -- one call for the form's address and field, with the value that the form has for it; any period
  -- of a fee but "true" counts as monthly.
  pub edits_need_insider :
      Permitted lacks_value TakesNumber
        (λ v. (db.set_long_value (req.form (codes "email")) (req.form (codes "field")) v s).1)
        (change_long_field db site req s).2
      × Permitted lacks_value TakesFlag
          (λ v. (db.set_bool_value (req.form (codes "email")) (req.form (codes "field")) v s).1)
          (change_bool_field db site req s).2
      × Permitted lacks_value TakesText
          (λ v. (db.set_text_value (req.form (codes "email")) (req.form (codes "field")) v s).1)
          (change_text_field db site req s).2
      × Permitted lacks_fee TakesFee
          (λ v. (db.set_member_fee (req.form (codes "email")) v.0 v.1 s).1)
          (change_fee db site req s).2
  edits_need_insider = (
    change_long_field-Permitted, change_bool_field-Permitted, change_text_field-Permitted,
    change_fee-Permitted,
  )

  -- A complete request of an administrator (or of anybody, where there is no group) with a fee
  -- that is a number, but with a period that is neither "true" nor "false", is given the status
  -- 400, and the fee is set all the same, to be paid monthly.
  pub not_a_boolean_sets_fee :
      (fee : ℕ)
      → is_outsider site req ≡ false
      → is_incomplete db site req (codes "email") (codes "fee") (codes "fee_yearly") ≡ false
      → parse_uint (req.form (codes "fee")) ≡ some fee
      → parse_bool (req.form (codes "fee_yearly")) ≡ none
      → let (out, _, s') = change_fee db site req s in
        (status_of out ≡ 400) × (s' ≡ (db.set_member_fee (req.form (codes "email")) fee false s).1)
  unfolding change_fee
  not_a_boolean_sets_fee fee o complete number neither = (ground arith, ground arith)
