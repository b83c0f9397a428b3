-- ===== src/Rpc.antt =====
-- EndUserService of rpc_server/end_user_service.go. The user name comes from the message, and the
-- caller of the RPC is nowhere looked at.
use membersys.Base.{
  ℕ, ◌≢◌, refl, Bool, Bool-cases, inl, inr, ◌||◌, is_empty, if◌then◌else◌, List, [], ◌∷◌, false,
  Option, Text, Action, Error, status, plain, not_found, internal, data_loss, unknown, Result, ok,
  err, panic,
}
use membersys.Membership.{MembershipAgreement, text_or_empty}
use membersys.Database.{MembershipDb}

-- `if err != nil && grpc.Code(err) == codes.Unknown { err = grpc.Errorf(codes.Internal, …) }`: the code of
-- an error that is no gRPC status is Unknown.
unfoldable pub compatible_error : Error → Error
compatible_error plain = status internal
compatible_error (status unknown) = status internal
compatible_error (status code) = status code

abbrev pub compatible : Result MembershipAgreement → Result MembershipAgreement
compatible (ok a) = ok a
compatible (err e) = err (compatible_error e)
compatible panic = panic

-- The UserIdentifier has an optional user name.
unfoldable pub get_member_detail :
    (db : MembershipDb) → Option Text → Action db.State MembershipAgreement
get_member_detail db username s =
    let (r, s') = db.get_member_detail_by_username (text_or_empty username) s in (compatible r, s')

-- The errors that the RPC returns are gRPC statuses other than Unknown.
abbrev pub IsKnown : Result MembershipAgreement → Type 0
IsKnown (err plain) = ⊥
IsKnown (err (status unknown)) = ⊥
IsKnown _ = Unit

compatible-IsKnown : (r : Result MembershipAgreement) → IsKnown (compatible r)
unfolding compatible_error
compatible-IsKnown (ok a) = tt
compatible-IsKnown (err plain) = tt
compatible-IsKnown (err (status not_found)) = tt
compatible-IsKnown (err (status internal)) = tt
compatible-IsKnown (err (status data_loss)) = tt
compatible-IsKnown (err (status unknown)) = tt
compatible-IsKnown panic = tt

-- The RPC never answers with an error that has no gRPC code, or has the code Unknown.
get_member_detail-IsKnown :
    (db : MembershipDb) (username : Option Text) (s : db.State)
    → IsKnown (get_member_detail db username s).0
unfolding get_member_detail
get_member_detail-IsKnown db username s =
    compatible-IsKnown (db.get_member_detail_by_username (text_or_empty username) s).0

-- The credentials of the gRPC server: none, a certificate and its key out of files, or those of a tls.Config,
-- which has certificates and may ask for the certificate of a client.
pub record TlsConfig : Type 0 where
  pub certificates : List Text
  pub asks_clients : Bool

pub data Transport : Type 0 where
  insecure : Transport
  from_files : Text → Text → Transport
  tls : TlsConfig → Transport

-- `&tls.Config{}`: no certificate, and ClientAuth is NoClientCert.
abbrev pub empty_config : TlsConfig
empty_config = record { certificates = []; asks_clients = false }

-- The branches of main by the three files of the command line.
unfoldable pub transport : Text → Text → Text → Transport
transport key_file cert_file ca_file =
    if is_empty key_file || is_empty cert_file
    then insecure
    else if is_empty ca_file
    then from_files cert_file key_file
    else tls empty_config

-- A server with these credentials has a certificate to show.
abbrev pub HasCertificate : Transport → Type 0
HasCertificate insecure = ⊥
HasCertificate (from_files cert key) = Unit
HasCertificate (tls config) = config.certificates ≢ []

-- With the file of a client CA, the server has no certificate to show, whatever files are given.
no_certificate :
    (key cert : Text) (ch : ℕ) (ca : Text) → ¬ HasCertificate (transport key cert (ch ∷ ca))
unfolding transport
no_certificate key cert ch ca = elim (Bool-cases (is_empty key || is_empty cert)) [
  | inl h ↦ rw h (λ x. x)
  | inr h ↦ rw h (λ x. x refl)
]
