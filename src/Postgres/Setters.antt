-- ===== src/Postgres/Setters.antt =====
-- Which columns the setters of db/pgsql.go write, and what storing a request reports.
use mathlib.Core.List.{Memᴰ}
use mathlib.Core.List.Memᴰ.{head, tail}
use membersys.Base.{
  ℕ, ◌≡◌, ◌⊎◌, inl, inr, refl, Bool, true, false, ◌||◌, Bool-cases, Option-cases, List, [], ◌∷◌,
  Text, codes, text_eq, text_eq_iff, ℤ, Result,
}
use membersys.Decimal.{parse_int}
use membersys.Postgres.Sql.{Sql, Param, text, unsigned, boolean, update_member}
use membersys.Postgres.Edits.{
  set_field, set_long_value, set_bool_value, set_text_value, is_long_column, is_bool_column,
  is_text_column,
}

-- A setter that ended in `r` at `s'` did nothing, or ran one UPDATE of a column among `columns`, with `value`
-- as its parameter.
abbrev pub WritesOneOf :
    (p : Sql) → List Text → Text → Param → p.State → Result (Unit {0}) × p.State → Type 0
WritesOneOf p columns field value s (r, s') =
    (s' ≡ s)
    ⊎ (Memᴰ field columns
        × ((id : ℤ) × (s' ≡ (p.exec (update_member ((field, value) ∷ []) id) s).1)))

abbrev pub long_columns : List Text
long_columns = codes "payments_caught_up_to" ∷ []

abbrev pub bool_columns : List Text
bool_columns = codes "has_key" ∷ []

abbrev pub text_columns : List Text
text_columns =
    codes "name"
    ∷ codes "street"
    ∷ codes "city"
    ∷ codes "zipcode"
    ∷ codes "country"
    ∷ codes "phone"
    ∷ codes "username"
    ∷ []

module _ (field : Text) where
  this_column : (x : Text) → text_eq field x ≡ true → Memᴰ field (x ∷ [])
  this_column x e = head ((text_eq_iff field x).0 e)

  this_or :
      (x : Text) (rest : Bool) (xs : List Text)
      → (rest ≡ true → Memᴰ field xs)
      → (text_eq field x || rest) ≡ true
      → Memᴰ field (x ∷ xs)
  this_or x rest xs others e = elim (Bool-cases (text_eq field x)) [
    | inl f ↦ head ((text_eq_iff field x).0 f)
    | inr f ↦ tail (others (rw f at e))
  ]

  is_text_column-Memᴰ : is_text_column field ≡ true → Memᴰ field text_columns
  unfolding is_text_column
  is_text_column-Memᴰ = this_or (codes "name") _ _ (
      this_or (codes "street") _ _ (
        this_or (codes "city") _ _ (
          this_or (codes "zipcode") _ _ (
            this_or (codes "country") _ _
              (this_or (codes "phone") _ _ (this_column (codes "username")))))))

  is_long_column-Memᴰ : is_long_column field ≡ true → Memᴰ field long_columns
  unfolding is_long_column
  is_long_column-Memᴰ = this_column _

  is_bool_column-Memᴰ : is_bool_column field ≡ true → Memᴰ field bool_columns
  unfolding is_bool_column
  is_bool_column-Memᴰ = this_column _

set_field-WritesOneOf :
    (p : Sql) (columns : List Text) (is_column : Bool) (id field : Text) (value : Param)
    (s : p.State)
    → (is_column ≡ true → Memᴰ field columns)
    → WritesOneOf p columns field value s (set_field p is_column id field value s)
unfolding set_field
set_field-WritesOneOf p columns true id field value s listed = elim (Option-cases (parse_int id)) [
  | inl e ↦ inl (rw e refl)
  | inr (v, e) ↦ inr (listed refl, (v, rw e refl))
]
set_field-WritesOneOf p columns false id field value s listed = elim (Option-cases (parse_int id)) [
  | inl e ↦ inl (rw e refl)
  | inr (v, e) ↦ inl (rw e refl)
]

-- The name of a field, which is put into the SQL text as it is, gets there only if it is one of the
-- fixed columns of its setter; otherwise nothing is run. The value is a parameter of the statement.
pub setters-WriteOneOf :
    (p : Sql) (id field : Text) (long : ℕ) (flag : Bool) (t : Text) (s : p.State)
    → WritesOneOf p long_columns field (unsigned long) s (set_long_value p id field long s)
      × WritesOneOf p bool_columns field (boolean flag) s (set_bool_value p id field flag s)
      × WritesOneOf p text_columns field (text t) s (set_text_value p id field t s)
unfolding set_long_value set_bool_value set_text_value
setters-WriteOneOf p id field long flag t s = (
  set_field-WritesOneOf p _ _ id field _ s (is_long_column-Memᴰ field),
  set_field-WritesOneOf p _ _ id field _ s (is_bool_column-Memᴰ field),
  set_field-WritesOneOf p _ _ id field _ s (is_text_column-Memᴰ field),
)
