-- ===== src/Web/Handler.antt =====
-- What the handlers take and produce. ancientauth, net/http and the templates stand behind the
-- fields of `Request`.
use membersys.Base.{
  ℕ, Bool, true, false, ◌&&◌, not, Option, none, some, List, [], ◌∷◌, ◌++◌, Text, Bytes, is_empty,
  ℤ, Action, ok, err, panic,
}
use membersys.Cassandra.Enumerate.{Listing}

-- The error that VerifyCSRFToken returns beside its verdict.
pub data CsrfError : Type 0 where
  weak_protection broken_token : CsrfError

-- The file of a form: req.FormFile failed, ioutil.ReadAll failed, or what it read.
pub data Upload : Type 0 where
  no_file unreadable : Upload
  file : Bytes → Upload

pub record Request : Type 0 where
  -- GetAuthenticatedUser, "" for nobody, and IsAuthenticatedScope.
  pub user : Text
  pub in_scope : Text → Bool
  -- VerifyCSRFToken(req, token, false) and GenCSRFToken(req, url, …).
  pub verify_csrf : Text → Bool × Option CsrfError
  pub gen_csrf : Text → Option Text
  -- FormValue, PostFormValue and FormFile("0").
  pub form : Text → Text
  pub post_form : Text → Text
  pub upload : Upload
  -- Whether the client takes what json.Encoder or a template writes.
  pub delivers : Bool

-- The fields of a handler object.
pub record Site : Type 0 where
  pub admingroup : Text
  pub pagesize : ℤ

-- A call on the response: WriteHeader, Header().Set("Content-Type", …), Write of an error's text, Write
-- of "{}", and a value through json.Encoder or a template.
pub data Part (O : Type 0) : Type 0 where
  write_header : ℕ → Part O
  content_type message empty_object : Part O
  encoded : O → Part O

-- How a stretch of a handler ends: it runs on, has returned, or has panicked.
pub data Flow (A : Type 0) : Type 0 where
  go : A → Flow A
  returned panicked : Flow A

abbrev pub Handler : Type 0 → Type 0 → Type 0 → Type 0
Handler S O A = S → List (Part O) × Flow A × S

infixl 5 ◌>>=◌ ◌>>◌
abbrev pub ◌>>=◌ : {S O A B : Type 0} → Handler S O A → (A → Handler S O B) → Handler S O B
◌>>=◌ m f s =
    let (out, r, s') = m s in
    elim r [
      | go a ↦ let (rest, r', s'') = f a s' in (out ++ rest, r', s'')
      | returned ↦ (out, returned, s')
      | panicked ↦ (out, panicked, s')
    ]

abbrev pub ◌>>◌ : {S O B : Type 0} → Handler S O (Unit {0}) → Handler S O B → Handler S O B
m >> k = m >>= λ _. k

-- `rw.WriteHeader(code); rw.Write(…)` with the text of an error.
abbrev pub refuse : {O : Type 0} → ℕ → List (Part O)
refuse code = write_header code ∷ message ∷ []

-- `err != nil && err != ancientauth.CSRFToken_WeakProtectionError`.
abbrev pub is_fatal : Option CsrfError → Bool
is_fatal (some broken_token) = true
is_fatal _ = false

module _ {S O : Type 0} where
  abbrev pub emit : List (Part O) → Handler S O (Unit {0})
  emit out s = (out, go tt, s)

  -- `if … { …; return }`.
  abbrev pub stop_if : Bool → List (Part O) → Handler S O (Unit {0})
  stop_if true out s = (out, returned, s)
  stop_if false out s = ([], go tt, s)

  -- `if … { … }` without a return.
  abbrev pub emit_if : Bool → List (Part O) → Handler S O (Unit {0})
  emit_if true out s = (out, go tt, s)
  emit_if false out s = ([], go tt, s)

  abbrev pub or_refuse : {A : Type 0} → Option A → ℕ → Handler S O A
  or_refuse none code s = (refuse code, returned, s)
  or_refuse (some a) code s = ([], go a, s)

  -- A call of the database, and what its caller does with an error.
  abbrev pub attempt : {A : Type 0} → Action S A → ℕ → Handler S O A
  attempt m code s =
      let (r, s') = m s in
      elim r [
        | ok a ↦ ([], go a, s')
        | err e ↦ (refuse code, returned, s')
        | panic ↦ ([], panicked, s')
      ]

  abbrev pub listed : {A : Type 0} → (S → Listing A) → Handler S O (List A)
  listed list s = elim (list s).error [
    | none ↦ ([], go (list s).items, s)
    | some e ↦ (refuse 500, returned, s)
  ]

  -- `enc.Encode(…)` and what follows a failure.
  abbrev pub encode_json : Request → O → Handler S O (Unit {0})
  encode_json req v s = elim req.delivers [
    | true ↦ (content_type ∷ encoded v ∷ [], go tt, s)
    | false ↦ (content_type ∷ encoded v ∷ refuse 500, returned, s)
  ]

  -- The verification of the token, as five handlers have it.
  abbrev pub check_csrf : Request → Text → Handler S O (Unit {0})
  check_csrf req token =
      let (valid, e) = req.verify_csrf token in
      stop_if (is_fatal e) (refuse 500) >> stop_if (not valid) (refuse 403)

-- `len(m.admingroup) > 0 && !m.auth.IsAuthenticatedScope(req, m.admingroup)`.
abbrev pub is_outsider : Site → Request → Bool
is_outsider site req = not (is_empty site.admingroup) && not (req.in_scope site.admingroup)

-- The status of a response: that of the first WriteHeader, or 200 where the body starts without one.
abbrev pub status_of : {O : Type 0} → List (Part O) → ℕ
status_of [] = 200
status_of (write_header code ∷ _) = code
status_of (content_type ∷ out) = status_of out
status_of (_ ∷ _) = 200

-- The status that the client sees: a panic ends the connection without an answer.
abbrev pub answer : {S O : Type 0} → List (Part O) × Flow (Unit {0}) × S → Option ℕ
answer (out, panicked, s) = none
answer (out, go _, s) = some (status_of out)
answer (out, returned, s) = some (status_of out)
