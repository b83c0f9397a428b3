-- ===== src/Cassandra/Edit/Fields.antt =====
-- Which fields the setters of db/cassandra.go edit, apart from the chain of tests in the code.
use membersys.Base.{
  ◌≡◌, refl, ◌⊎◌, inl, inr, true, false, Option, some, List, [], ◌∷◌, All, Bool-cases, Text, codes,
  text_eq, text_eq_iff, ok, err, arith, status, not_found,
}
use membersys.Membership.{Member}
use membersys.Cassandra.Edit.{edit_text, is_set}

-- The text columns that SetTextValue may change.
pub data TextField : Type 0 where
  name street city zipcode country phone username : TextField

abbrev pub column : TextField → Text
column name = codes "name"
column street = codes "street"
column city = codes "city"
column zipcode = codes "zipcode"
column country = codes "country"
column phone = codes "phone"
column username = codes "username"

abbrev pub put : TextField → Text → Member → Member
put name v d = record d { name = some v }
put street v d = record d { street = some v }
put city v d = record d { city = some v }
put zipcode v d = record d { zipcode = some v }
put country v d = record d { country = some v }
put phone v d = record d { phone = some v }
put username v d = record d { username = some v }

-- A field may be changed unless it is a user name that is set.
abbrev pub IsFree : TextField → Member → Type 0
IsFree username d = is_set d.username ≡ false
IsFree _ d = Unit

pub edit_text-column :
    (f : TextField) (v : Text) (d : Member)
    → IsFree f d
    → edit_text (column f) v (some d) ≡ ok (put f v d)
unfolding edit_text text_eq
edit_text-column name v d h = refl
edit_text-column street v d h = refl
edit_text-column city v d h = refl
edit_text-column zipcode v d h = refl
edit_text-column country v d h = refl
edit_text-column phone v d h = refl
edit_text-column username v d h = rw h

-- A successful edit is a `put` of one of the listed fields.
pub record IsPut (field v : Text) (m : Option Member) (d : Member) : Type 0 where
  pub which : TextField
  pub old : Member
  pub listed : field ≡ column which
  pub present : m ≡ some old
  pub free : IsFree which old
  pub result : d ≡ put which v old

column_edit :
    (f : TextField) (v : Text) (m : Option Member) (d : Member)
    → edit_text (column f) v m ≡ ok d
    → (old : Member) × (m ≡ some old) × IsFree f old × (d ≡ put f v old)
unfolding edit_text text_eq
column_edit name v m d h = ground arith
column_edit _ v m d h = ground arith

IsPut-by :
    (f : TextField) (field v : Text) (m : Option Member) (d : Member)
    → edit_text field v m ≡ ok d
    → text_eq field (column f) ≡ true
    → IsPut field v m d
IsPut-by f field v m d h p =
    let listed = (text_eq_iff field (column f)).0 p in
    let (old, present, free, result) = column_edit f v m d (rw listed at h) in
    record {
      which = f;
      old = old;
      listed = listed;
      present = present;
      free = free;
      result = result;
    }

-- Every test of the chain on `field` fails.
abbrev pub IsUnlisted : Text → Type 0
IsUnlisted field = (f : TextField) → text_eq field (column f) ≡ false

listed_among :
    (field : Text) (fs : List TextField)
    → ((f : TextField) × (text_eq field (column f) ≡ true))
      ⊎ All (λ f. text_eq field (column f) ≡ false) fs
listed_among field [] = inr tt
listed_among field (f ∷ fs) = elim (Bool-cases (text_eq field (column f))) [
  | inl p ↦ inl (f, p)
  | inr q ↦ elim (listed_among field fs) [ inl x ↦ inl x | inr rest ↦ inr (q, rest) ]
]

abbrev every_field : List TextField
every_field = name ∷ street ∷ city ∷ zipcode ∷ country ∷ phone ∷ username ∷ []

IsUnlisted-intro :
    (field : Text) → All (λ f. text_eq field (column f) ≡ false) every_field → IsUnlisted field
IsUnlisted-intro field (a, (b, (c, (d, (e, (f, (g, _))))))) = elim [
  | name ↦ a
  | street ↦ b
  | city ↦ c
  | zipcode ↦ d
  | country ↦ e
  | phone ↦ f
  | username ↦ g
]

pub listed-cases :
    (field : Text) → ((f : TextField) × (text_eq field (column f) ≡ true)) ⊎ IsUnlisted field
listed-cases field = elim (listed_among field every_field) [
  | inl x ↦ inl x
  | inr h ↦ inr (IsUnlisted-intro field h)
]

pub edit_text_unlisted :
    (field v : Text) (m : Option Member)
    → IsUnlisted field
    → edit_text field v m ≡ err (status not_found)
unfolding edit_text
edit_text_unlisted field v m h =
    rw (h name, h street, h city, h zipcode, h country, h phone, h username)

-- An edit succeeds exactly on a listed field of a member, and a user name only where none is set.
pub edit_text-IsPut :
    (field v : Text) (m : Option Member) (d : Member)
    → edit_text field v m ≡ ok d
    → IsPut field v m d
edit_text-IsPut field v m d h = elim (listed-cases field) [
  | inl (f, p) ↦ IsPut-by f field v m d h p
  | inr u ↦ absurd (cc (edit_text_unlisted field v m u))
]
