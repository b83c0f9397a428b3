-- ===== src/Cassandra/Edit/Columns.antt =====
-- What an edit that succeeds says of the field, and the columns that each setter of db/cassandra.go writes.
use membersys.Base.{
  ℕ, ◌≡◌, refl, Bool, false, Option, some, [], ◌∷◌, Text, Bytes, codes, text_eq, text_eq_iff, ok,
  arith,
}
use membersys.Membership.{Member}
use membersys.Cassandra.Session.{Value, blob, ulong, boolean, text}
use membersys.Cassandra.Cast.{lookup}
use membersys.Cassandra.Edit.{edit_long, edit_bool, edit_text, edit_fee}
use membersys.Cassandra.Edit.Fields.{TextField, column, edit_text-IsPut}

-- The columns of every setter carry the encoded agreement, given that the edit succeeded.
pub fee_carries :
    (fee : ℕ) (yearly : Bool) (pb : Bytes)
    → lookup (codes "pb_data") (
        (codes "pb_data", blob pb)
        ∷ (codes "fee", ulong fee)
        ∷ (codes "fee_yearly", boolean yearly)
        ∷ [])
      ≡ some (blob pb)
unfolding lookup text_eq
fee_carries fee yearly pb = refl

pub field_carries :
    (field : Text) (v : Value) (pb : Bytes)
    → text_eq field (codes "pb_data") ≡ false
    → lookup (codes "pb_data") ((field, v) ∷ (codes "pb_data", blob pb) ∷ []) ≡ some (blob pb)
unfolding lookup text_eq
field_carries field v pb h = rw h

pub long_listed :
    (field : Text) (value : ℕ) (m : Option Member) (d : Member)
    → edit_long field value m ≡ ok d
    → (old : Member) × (field ≡ codes "payments_caught_up_to")
      × (m ≡ some old)
      × (d ≡ record old { payments_caught_up_to = some value })
unfolding edit_long
long_listed field value m d h = ground (arith, text_eq_iff field (codes "payments_caught_up_to"))

pub fee_listed :
    (fee : ℕ) (yearly : Bool) (m : Option Member) (d : Member)
    → edit_fee fee yearly m ≡ ok d
    → (old : Member) × (m ≡ some old)
      × (d ≡ record old { fee = some fee; fee_yearly = some yearly })
unfolding edit_fee
fee_listed fee yearly m d h = ground arith

pub bool_listed :
    (field : Text) (value : Bool) (m : Option Member) (d : Member)
    → edit_bool field value m ≡ ok d
    → (old : Member) × (field ≡ codes "has_key")
      × (m ≡ some old)
      × (d ≡ record old { has_key = some value })
unfolding edit_bool
bool_listed field value m d h = ground (arith, text_eq_iff field (codes "has_key"))

pub column-ne-pb_data : (f : TextField) → text_eq (column f) (codes "pb_data") ≡ false
unfolding text_eq
column-ne-pb_data TextField.name = refl
column-ne-pb_data _ = refl

pub long_carries :
    (field : Text) (value : ℕ) (m : Option Member) (d : Member) (pb : Bytes)
    → edit_long field value m ≡ ok d
    → lookup (codes "pb_data") ((field, ulong value) ∷ (codes "pb_data", blob pb) ∷ [])
      ≡ some (blob pb)
unfolding text_eq
long_carries field value m d pb h =
    field_carries field (ulong value) pb (rw (long_listed field value m d h).1)

pub bool_carries :
    (field : Text) (value : Bool) (m : Option Member) (d : Member) (pb : Bytes)
    → edit_bool field value m ≡ ok d
    → lookup (codes "pb_data") ((field, boolean value) ∷ (codes "pb_data", blob pb) ∷ [])
      ≡ some (blob pb)
unfolding text_eq
bool_carries field value m d pb h =
    field_carries field (boolean value) pb (rw (bool_listed field value m d h).1)

pub text_carries :
    (field value : Text) (m : Option Member) (d : Member) (pb : Bytes)
    → edit_text field value m ≡ ok d
    → lookup (codes "pb_data") ((field, text value) ∷ (codes "pb_data", blob pb) ∷ [])
      ≡ some (blob pb)
text_carries field value m d pb h =
    let put = edit_text-IsPut field value m d h in
    field_carries field (text value) pb (rw put.listed (column-ne-pb_data put.which))
