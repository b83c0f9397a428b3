-- ===== src/Web/Reports.antt =====
-- What the answer 200 of the handlers of membersys/memberlist.go says of the call of the database.
use membersys.Base.{ℕ, ◌≡◌, inl, inr, Bool, some, Option-cases, codes, arith, ok}
use membersys.Database.{MembershipDb}
use membersys.Web.Handler.{Request, Site, answer}
use membersys.Web.Fields.{
  change_long_field, change_bool_field, change_text_field, change_fee, parse_bool,
}
use membersys.Web.Numbers.{parse_uint}

module _ (db : MembershipDb) (site : Site) (req : Request) (s : db.State) where
  -- An answer 200 means that the setter of the database returned nil: its call is the one of the
  -- conclusion, and the state is the one that it left.
  pub text_field_reports :
      answer (change_text_field db site req s) ≡ some 200
      → db.set_text_value
          (req.form (codes "email"))
          (req.form (codes "field"))
          (req.form (codes "value"))
          s
        ≡ (ok tt, (change_text_field db site req s).2)
  unfolding change_text_field
  text_field_reports h = ground arith

  pub long_field_reports :
      answer (change_long_field db site req s) ≡ some 200
      → (value : ℕ) × (parse_uint (req.form (codes "value")) ≡ some value)
        × (db.set_long_value (req.form (codes "email")) (req.form (codes "field")) value s
            ≡ (ok tt, (change_long_field db site req s).2))
  unfolding change_long_field
  long_field_reports h = elim (Option-cases (parse_uint (req.form (codes "value")))) [
    | inl e ↦ absurd (ground arith)
    | inr (value, e) ↦ (value, e, ground arith)
  ]

  pub bool_field_reports :
      answer (change_bool_field db site req s) ≡ some 200
      → (value : Bool) × (parse_bool (req.form (codes "value")) ≡ some value)
        × (db.set_bool_value (req.form (codes "email")) (req.form (codes "field")) value s
            ≡ (ok tt, (change_bool_field db site req s).2))
  unfolding change_bool_field
  bool_field_reports h = elim (Option-cases (parse_bool (req.form (codes "value")))) [
    | inl e ↦ absurd (ground arith)
    | inr (value, e) ↦ (value, e, ground arith)
  ]

  pub fee_reports :
      answer (change_fee db site req s) ≡ some 200
      → (fee : ℕ) × (yearly : Bool) × (parse_uint (req.form (codes "fee")) ≡ some fee)
        × (parse_bool (req.form (codes "fee_yearly")) ≡ some yearly)
        × (db.set_member_fee (req.form (codes "email")) fee yearly s
            ≡ (ok tt, (change_fee db site req s).2))
  unfolding change_fee
  fee_reports h = elim (Option-cases (parse_uint (req.form (codes "fee")))) [
    | inl e ↦ absurd (ground arith)
    | inr (fee, e) ↦ elim (Option-cases (parse_bool (req.form (codes "fee_yearly")))) [
      | inl f ↦ absurd (ground arith)
      | inr (yearly, f) ↦ (fee, yearly, e, f, ground arith)
    ]
  ]
