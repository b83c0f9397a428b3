-- ===== src/Cassandra/Tests/Wide.antt =====
-- The database in memory with all columns of its rows, and the laws that it meets.
use membersys.Base.{◌≡◌, refl, sym, ap, Bool, true, false, Option, [], Bytes, Text, length, ◌≢◌}
use membersys.Cassandra.Session.{Session, Table, Value, Insert}
use membersys.Cassandra.Laws.{Laws, apply_batch}
use membersys.Cassandra.Laws.Columns.{ColumnLaws, apply_to_columns}
use membersys.Cassandra.Tests.Store.{Cells, test_session, test_laws}

-- The pb_data of each row, and the values of the columns.
abbrev pub Wide : Type 0
Wide = Cells × (Table → Bytes → Text → Option Value)

abbrev base : Session
base = test_session []

abbrev pub wide_session : Session
wide_session = record {
  State = Wide;
  Uuid = base.Uuid;
  scan_key = λ level t k s. base.scan_key level t k s.0;
  scan_username = λ username s. base.scan_username username s.0;
  iter = λ q s. base.iter q s.0;
  execute_batch = λ batch s. (
    true,
    (
      λ t k. apply_batch batch t k (s.0 t k),
      λ t k col. apply_to_columns batch t k col (s.1 t k col),
    ),
  );
  exec = λ i s. ((base.exec i s.0).0, s);
  parse_uuid = base.parse_uuid;
  uuid_from_bytes = base.uuid_from_bytes;
  uuid_from_time = base.uuid_from_time;
  uuid_bytes = base.uuid_bytes;
  uuid_string = base.uuid_string;
  marshal = base.marshal;
  unmarshal = base.unmarshal;
  marshal_member = base.marshal_member;
  merge_agreement = base.merge_agreement;
  merge_member = base.merge_member;
}

pub never_fails : {s s' : Wide} → ¬ (◌≡◌ {A = Bool × Wide} (true, s) (false, s'))
never_fails h = absurd (cc)

pub refuses :
    (i : Insert) (s : Wide)
    → length i.columns ≢ i.placeholders
    → ◌≡◌ {A = Bool × Wide} ((base.exec i s.0).0, s) (false, s)
refuses i s h = ap (λ r. (r.0, s)) ((test_laws []).exec_refuses i s.0 h)

abbrev pub wide_laws : Laws wide_session
wide_laws = record {
  pb_data = λ s. s.0;
  scan_found = λ t k pb s. (test_laws []).scan_found t k pb s.0;
  scan_missing = λ t k s. (test_laws []).scan_missing t k s.0;
  batch_done = λ batch s s' _ h t k. ap (λ p. p.1.0 t k) (sym h);
  batch_failed = λ batch s s' _ h. absurd (never_fails h);
  exec_refuses = refuses;
  exec_frame = λ i s t k h. refl;
  unmarshal-marshal = (test_laws []).unmarshal-marshal;
}

abbrev pub wide_columns : ColumnLaws wide_session
wide_columns = record {
  column = λ s. s.1;
  batch_columns = λ batch s s' _ h t k col. ap (λ p. p.1.1 t k col) (sym h);
}
