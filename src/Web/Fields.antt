-- ===== src/Web/Fields.antt =====
-- The handlers of membersys/memberlist.go that change a field of a member.
use membersys.Base.{
  Bool, true, false, ◌||◌, Option, none, some, [], ◌∷◌, Text, codes, text_eq, is_empty,
  if◌then◌else◌,
}
use membersys.Database.{MembershipDb}
use membersys.Web.Handler.{
  Request, Site, Handler, ◌>>=◌, ◌>>◌, emit, stop_if, or_refuse, attempt, is_outsider, write_header,
  empty_object, content_type, refuse, go,
}
use membersys.Web.Numbers.{parse_uint}

-- `if value == "true" … else if value == "false" …`.
abbrev pub parse_bool : Text → Option Bool
parse_bool value =
    if text_eq value (codes "true")
    then some true
    else if text_eq value (codes "false")
    then some false
    else none

-- The period of the fee: a text that is no Boolean is answered with 400, and goes on as false.
abbrev pub yearly_or_false : {S O : Type 0} → Option Bool → Handler S O Bool
yearly_or_false none s = (refuse 400, go false, s)
yearly_or_false (some b) s = ([], go b, s)

module _ (db : MembershipDb) (site : Site) (req : Request) where
  abbrev pub is_incomplete : Text → Text → Text → Bool
  is_incomplete a b d = is_empty (req.form a) || (is_empty (req.form b) || is_empty (req.form d))

  unfoldable pub change_long_field : Handler db.State (Unit {0}) (Unit {0})
  change_long_field = do
    stop_if (is_outsider site req) (write_header 403 ∷ [])
    stop_if (is_incomplete (codes "email") (codes "field") (codes "value")) (refuse 411)
    value ← or_refuse (parse_uint (req.form (codes "value"))) 400
    attempt (db.set_long_value (req.form (codes "email")) (req.form (codes "field")) value) 500
    emit (content_type ∷ write_header 200 ∷ empty_object ∷ [])

  unfoldable pub change_bool_field : Handler db.State (Unit {0}) (Unit {0})
  change_bool_field = do
    stop_if (is_outsider site req) (write_header 403 ∷ [])
    stop_if (is_incomplete (codes "email") (codes "field") (codes "value")) (refuse 411)
    value ← or_refuse (parse_bool (req.form (codes "value"))) 400
    attempt (db.set_bool_value (req.form (codes "email")) (req.form (codes "field")) value) 500
    emit (content_type ∷ write_header 200 ∷ empty_object ∷ [])

  unfoldable pub change_text_field : Handler db.State (Unit {0}) (Unit {0})
  change_text_field = do
    stop_if (is_outsider site req) (write_header 403 ∷ [])
    stop_if (is_incomplete (codes "email") (codes "field") (codes "value")) (refuse 411)
    attempt
        (db.set_text_value (req.form (codes "email")) (req.form (codes "field"))
          (req.form (codes "value")))
        500
    emit (content_type ∷ write_header 200 ∷ empty_object ∷ [])

  unfoldable pub change_fee : Handler db.State (Unit {0}) (Unit {0})
  change_fee = do
    stop_if (is_outsider site req) (write_header 403 ∷ [])
    stop_if (is_incomplete (codes "email") (codes "fee") (codes "fee_yearly")) (refuse 411)
    fee ← or_refuse (parse_uint (req.form (codes "fee"))) 400
    yearly ← yearly_or_false (parse_bool (req.form (codes "fee_yearly")))
    attempt (db.set_member_fee (req.form (codes "email")) fee yearly) 500
    emit (content_type ∷ write_header 200 ∷ empty_object ∷ [])
