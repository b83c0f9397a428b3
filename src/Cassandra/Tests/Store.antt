-- ===== src/Cassandra/Tests/Store.antt =====
-- A database in memory, in the place of Cassandra, gocql and proto, and the laws that it meets. What
-- an iterator delivers is a parameter.
use membersys.Base.{
  Bool, ℕ, zero, suc, ◌≡◌, refl, sym, ap, ◌≢◌, ◌∙◌, true, false, Option, none, some, List, [], ◌∷◌,
  Bytes, length, ◌==◌, if◌then◌else◌, arith, text_eq, text_eq_iff,
}
use mathlib.Core.Option.{some-injective}
use membersys.Membership.{Member}
use membersys.Cassandra.Session.{Session, Insert, Table, Scan, found, missing, Row}
use membersys.Cassandra.Laws.{Laws, same_row, apply_batch}
use membersys.Cassandra.Enumerate.Keys.{UuidLaws}
use membersys.Cassandra.Tests.Codec.{agreement_codec, member_codec}

abbrev pub Cells : Type 0
Cells = Table → Bytes → Option Bytes

-- The contents of a database, from a list of its rows.
abbrev pub cells : List (Table × Bytes × Bytes) → Cells
cells [] t k = none
cells ((t', k', pb) ∷ rows) t k = if same_row t' k' t k then some pb else cells rows t k

abbrev scan : Option Bytes → Scan
scan none = missing
scan (some pb) = found pb

abbrev pub zeros : ℕ → Bytes
zeros zero = []
zeros (suc n) = 0 ∷ zeros n

abbrev pub head : Bytes → ℕ
head [] = 0
head (b ∷ bs) = b

-- A UUID is one number here, in its first byte and in the first place of its text.
abbrev pub sized : ℕ → Bytes → Option ℕ
sized n b = if length b == n then some (head b) else none

abbrev pub decoded : {A : Type 0} → Option (A × Bytes) → Option A
decoded none = none
decoded (some (a, rest)) = some a

abbrev merged : Member → Option Member → Member
merged dst none = dst
merged dst (some src) = src

abbrev pub test_session : List Row → Session
test_session rows = record {
  State = Cells;
  Uuid = ℕ;
  scan_key = λ level t k s. scan (s t k);
  scan_username = λ username s. missing;
  iter = λ q s. record { rows = rows; close_failed = false };
  execute_batch = λ batch s. (true, λ t k. apply_batch batch t k (s t k));
  exec = λ i s. (length i.columns == i.placeholders, s);
  parse_uuid = sized 36;
  uuid_from_bytes = sized 16;
  uuid_from_time = λ now. now;
  uuid_bytes = λ n. n ∷ zeros 15;
  uuid_string = λ n. n ∷ zeros 35;
  marshal = λ a. some (agreement_codec.enc a []);
  unmarshal = λ b. decoded (agreement_codec.dec b);
  marshal_member = λ m. some (member_codec.enc m []);
  merge_agreement = λ dst src. src;
  merge_member = merged;
}

pub scan-found : (o : Option Bytes) (pb : Bytes) → scan o ≡ found pb → o ≡ some pb
scan-found o pb h = ground arith

pub scan-missing : (o : Option Bytes) → scan o ≡ missing → o ≡ none
scan-missing o h = ground arith

pub sized-length : (n : ℕ) (b : Bytes) (x : ℕ) → sized n b ≡ some x → length b ≡ n
sized-length n b x h = ground arith

-- Every batch of this database is reported done.
pub never_fails : {s s' : Cells} → ¬ (◌≡◌ {A = Bool × Cells} (true, s) (false, s'))
never_fails h = absurd (cc)

pub refuses :
    (i : Insert) (s : Cells)
    → length i.columns ≢ i.placeholders
    → ◌≡◌ {A = Bool × Cells} (length i.columns == i.placeholders, s) (false, s)
refuses i s h = ground arith

module _ (rows : List Row) where
  abbrev pub test_laws : Laws (test_session rows)
  test_laws = record {
    pb_data = λ s. s;
    scan_found = λ t k pb s h. scan-found (s t k) pb h;
    scan_missing = λ t k s h. scan-missing (s t k) h;
    batch_done = λ batch s s' _ h t k. ap (λ p. p.1 t k) (sym h);
    batch_failed = λ batch s s' _ h. absurd (never_fails h);
    exec_refuses = refuses;
    exec_frame = λ i s t k h. refl;
    unmarshal-marshal = λ a pb h.
        ap (λ b. decoded (agreement_codec.dec b)) (sym (some-injective _ _ h))
        ∙ ap decoded (agreement_codec.law a []);
  }

  abbrev pub test_uuid_laws : UuidLaws (test_session rows)
  test_uuid_laws = record {
    length-uuid_bytes = λ u. refl;
    length-uuid_string = λ u. refl;
    length_of_uuid = λ b u h. sized-length 16 b u h;
  }

-- What a one-row table holds.
pub one_row :
    (key pb : Bytes) (k x : Bytes)
    → (if text_eq key k then some pb else none) ≡ some x
    → (k ≡ key) × (x ≡ pb)
one_row key pb k x h = ground (arith, text_eq_iff key k)
