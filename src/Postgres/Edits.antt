-- ===== src/Postgres/Edits.antt =====
-- The methods of db/pgsql.go that change one record, and those that store a request or a scan.
use membersys.Base.{
  ℕ, Bool, true, false, ◌||◌, Option, none, some, List, [], ◌∷◌, Text, Bytes, codes, text_eq, ℤ,
  Action, Result, ok, err, panic, Error, status, plain, not_found, internal,
}
use membersys.Decimal.{parse_int, format_int}
use membersys.Membership.{Member, MembershipMetadata, number_or_zero, bool_or_false}
use membersys.Postgres.Sql.{
  Sql, Param, text, optional, unsigned, signed, boolean, now, insert_member, update_member,
  insert_scan,
}

-- The columns that each setter takes for `field`, which becomes a part of the SQL text.
unfoldable pub is_long_column : Text → Bool
is_long_column field = text_eq field (codes "payments_caught_up_to")

unfoldable pub is_bool_column : Text → Bool
is_bool_column field = text_eq field (codes "has_key")

unfoldable pub is_text_column : Text → Bool
is_text_column field =
    text_eq field (codes "name")
    || (text_eq field (codes "street")
        || (text_eq field (codes "city")
            || (text_eq field (codes "zipcode")
                || (text_eq field (codes "country")
                    || (text_eq field (codes "phone") || (text_eq field (codes "username")))))))

abbrev pub request_columns : Member → MembershipMetadata → List (Text × Param)
request_columns m metadata =
    (codes "name", optional m.name)
    ∷ (codes "street", optional m.street)
    ∷ (codes "city", optional m.city)
    ∷ (codes "zipcode", optional m.zipcode)
    ∷ (codes "country", optional m.country)
    ∷ (codes "email", optional m.email)
    ∷ (codes "phone", optional m.phone)
    ∷ (codes "fee", unsigned (number_or_zero m.fee))
    ∷ (codes "username", optional m.username)
    ∷ (codes "pwhash", optional m.pwhash)
    ∷ (codes "fee_yearly", boolean (bool_or_false m.fee_yearly))
    ∷ (codes "request_timestamp", now)
    ∷ (codes "request_source_ip", optional metadata.request_source_ip)
    ∷ (codes "request_comment", optional metadata.comment)
    ∷ (codes "user_agent", optional metadata.user_agent)
    ∷ (codes "membership_status", text (codes "APPLICATION"))
    ∷ []

-- The error that the caller of ExecContext makes of a failure.
abbrev pub done : Error → Option (Option ℤ) → Result (Unit {0})
done e none = err e
done e (some result) = ok tt

-- LastInsertId after an INSERT, either of which may fail.
abbrev pub inserted : Error → Option (Option ℤ) → Result ℤ
inserted e none = err e
inserted e (some none) = err e
inserted e (some (some id)) = ok id

abbrev pub formatted : Result ℤ → Result Text
formatted (ok id) = ok (format_int id)
formatted (err e) = err e
formatted panic = panic

-- strconv.ParseInt(id, 10, 64), whose error becomes codes.Internal.
abbrev pub parsed : Option ℤ → Result ℤ
parsed none = err (status internal)
parsed (some id) = ok id

module _ (p : Sql) where
  open p use {State, exec}

  -- UPDATE members SET … WHERE id = ?, which succeeds also where no row has this id.
  abbrev pub update_at : List (Text × Param) → Result ℤ → Action State (Unit {0})
  update_at columns (ok id) s =
      let (r, s') = exec (update_member columns id) s in (done (status internal) r, s')
  update_at columns (err e) s = (err e, s)
  update_at columns panic s = (panic, s)

  unfoldable pub update : List (Text × Param) → Text → Action State (Unit {0})
  update columns id s = update_at columns (parsed (parse_int id)) s

  unfoldable pub set_member_fee : Text → ℕ → Bool → Action State (Unit {0})
  set_member_fee id fee yearly =
      update ((codes "fee", unsigned fee) ∷ (codes "fee_yearly", boolean yearly) ∷ []) id

  -- A setter of one column: the id is parsed before the field is looked at.
  abbrev pub known : Bool → Result ℤ → Result ℤ
  known true id = id
  known false (ok id) = err (status not_found)
  known false (err e) = err e
  known false panic = panic

  unfoldable pub set_field : Bool → Text → Text → Param → Action State (Unit {0})
  set_field is_column id field value s =
      update_at ((field, value) ∷ []) (known is_column (parsed (parse_int id))) s

  unfoldable pub set_long_value : Text → Text → ℕ → Action State (Unit {0})
  set_long_value id field value = set_field (is_long_column field) id field (unsigned value)

  unfoldable pub set_bool_value : Text → Text → Bool → Action State (Unit {0})
  set_bool_value id field value = set_field (is_bool_column field) id field (boolean value)

  unfoldable pub set_text_value : Text → Text → Text → Action State (Unit {0})
  set_text_value id field value = set_field (is_text_column field) id field (text value)

  -- The id that was given to the row.
  unfoldable pub store_membership_request : Member → MembershipMetadata → Action State Text
  store_membership_request m metadata s =
      let (r, s') = exec (insert_member (request_columns m metadata)) s in
      (formatted (inserted plain r), s')

  -- The row of the member takes the id of the scan.
  abbrev pub refer_to : ℤ → Result ℤ → Action State (Unit {0})
  refer_to member_id (ok insert_id) s =
      update_at ((codes "agreement_scan_id", signed insert_id) ∷ []) (ok member_id) s
  refer_to member_id (err e) s = (err e, s)
  refer_to member_id panic s = (panic, s)

  abbrev pub store_scan : Bytes → Result ℤ → Action State (Unit {0})
  store_scan scan (ok member_id) s =
      let (r, s') = exec (insert_scan scan) s in
      refer_to member_id (inserted (status internal) r) s'
  store_scan scan (err e) s = (err e, s)
  store_scan scan panic s = (panic, s)

  unfoldable pub store_membership_agreement : Text → Bytes → Action State (Unit {0})
  store_membership_agreement id agreement_data s =
      store_scan agreement_data (parsed (parse_int id)) s
