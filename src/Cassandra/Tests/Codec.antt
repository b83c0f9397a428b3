-- ===== src/Cassandra/Tests/Codec.antt =====
-- An encoding of agreements as bytes with its inverse, in the place of proto.Marshal and
-- proto.Unmarshal.
use membersys.Base.{
  ℕ, zero, suc, ◌≡◌, refl, ap, ◌∙◌, Bool, true, false, Option, none, some, [], ◌∷◌, ◌++◌, Text,
  Bytes, length,
}
use membersys.Membership.{Member, MembershipMetadata, MembershipAgreement}

-- `enc a rest` puts the encoding of `a` in front of `rest`.
pub record Codec (A : Type 0) : Type 0 where
  pub enc : A → Bytes → Bytes
  pub dec : Bytes → Option (A × Bytes)
  pub law : (a : A) (rest : Bytes) → dec (enc a rest) ≡ some (a, rest)

abbrev dec_nat : Bytes → Option (ℕ × Bytes)
dec_nat [] = none
dec_nat (n ∷ rest) = some (n, rest)

abbrev nat_codec : Codec ℕ
nat_codec = record { enc = λ n rest. n ∷ rest; dec = dec_nat; law = λ n rest. refl }

abbrev dec_bool : Bytes → Option (Bool × Bytes)
dec_bool [] = none
dec_bool (zero ∷ rest) = some (false, rest)
dec_bool (suc n ∷ rest) = some (true, rest)

abbrev enc_bool : Bool → Bytes → Bytes
enc_bool false rest = 0 ∷ rest
enc_bool true rest = 1 ∷ rest

pub bool_law : (b : Bool) (rest : Bytes) → dec_bool (enc_bool b rest) ≡ some (b, rest)
bool_law false rest = refl
bool_law true rest = refl

abbrev bool_codec : Codec Bool
bool_codec = record { enc = enc_bool; dec = dec_bool; law = bool_law }

abbrev push : ℕ → Option (Text × Bytes) → Option (Text × Bytes)
push b none = none
push b (some (t, rest)) = some (b ∷ t, rest)

abbrev split : ℕ → Bytes → Option (Text × Bytes)
split zero rest = some ([], rest)
split (suc n) [] = none
split (suc n) (b ∷ rest) = push b (split n rest)

abbrev dec_text : Bytes → Option (Text × Bytes)
dec_text [] = none
dec_text (n ∷ rest) = split n rest

pub text_law : (t : Text) (rest : Bytes) → split (length t) (t ++ rest) ≡ some (t, rest)
text_law [] rest = refl
text_law (b ∷ t) rest = ap (push b) (text_law t rest)

abbrev text_codec : Codec Text
text_codec = record { enc = λ t rest. length t ∷ (t ++ rest); dec = dec_text; law = text_law }

module _ {A : Type 0} (x : Codec A) where
  abbrev dec_option_tail : Option (A × Bytes) → Option (Option A × Bytes)
  dec_option_tail none = none
  dec_option_tail (some (a, rest)) = some (some a, rest)

  abbrev dec_option : Bytes → Option (Option A × Bytes)
  dec_option [] = none
  dec_option (zero ∷ rest) = some (none, rest)
  dec_option (suc n ∷ rest) = dec_option_tail (x.dec rest)

  abbrev enc_option : Option A → Bytes → Bytes
  enc_option none rest = 0 ∷ rest
  enc_option (some a) rest = 1 ∷ x.enc a rest

  pub option_law : (o : Option A) (rest : Bytes) → dec_option (enc_option o rest) ≡ some (o, rest)
  option_law none rest = refl
  option_law (some a) rest = ap dec_option_tail (x.law a rest)

  abbrev option_codec : Codec (Option A)
  option_codec = record { enc = enc_option; dec = dec_option; law = option_law }

module _ {A B : Type 0} (x : Codec A) (y : Codec B) where
  abbrev dec_second : A → Option (B × Bytes) → Option ((A × B) × Bytes)
  dec_second a none = none
  dec_second a (some (b, rest)) = some ((a, b), rest)

  abbrev dec_first : Option (A × Bytes) → Option ((A × B) × Bytes)
  dec_first none = none
  dec_first (some (a, rest)) = dec_second a (y.dec rest)

  pub pair_law :
      (p : A × B) (rest : Bytes) → dec_first (x.dec (x.enc p.0 (y.enc p.1 rest))) ≡ some (p, rest)
  pair_law (a, b) rest = ap dec_first (x.law a (y.enc b rest)) ∙ ap (dec_second a) (y.law b rest)

  abbrev pair_codec : Codec (A × B)
  pair_codec = record {
    enc = λ p rest. x.enc p.0 (y.enc p.1 rest);
    dec = λ b. dec_first (x.dec b);
    law = pair_law;
  }

module _ {A B : Type 0} (to : A → B) (from : B → A) (x : Codec A) where
  abbrev dec_map : Option (A × Bytes) → Option (B × Bytes)
  dec_map none = none
  dec_map (some (a, rest)) = some (to a, rest)

  abbrev map_codec : ((b : B) → to (from b) ≡ b) → Codec B
  map_codec same = record {
    enc = λ b rest. x.enc (from b) rest;
    dec = λ b. dec_map (x.dec b);
    law = λ b rest. ap dec_map (x.law (from b) rest) ∙ ap (λ z. some (z, rest)) (same b);
  }

abbrev T : Codec (Option Text)
T = option_codec text_codec

abbrev N : Codec (Option ℕ)
N = option_codec nat_codec

abbrev B : Codec (Option Bool)
B = option_codec bool_codec

infixr 60 ◌⊗◌
abbrev ◌⊗◌ : {X Y : Type 0} → Codec X → Codec Y → Codec (X × Y)
x ⊗ y = pair_codec x y

abbrev pub metadata_codec : Codec MembershipMetadata
metadata_codec =
    map_codec
      (λ (t : Option ℕ
          × (Option Text
              × (Option Text
                  × (Option ℕ
                      × (Option Text
                          × (Option Text
                              × (Option Text × (Option ℕ × (Option Text × Option Text))))))))).
        let (a, r) = t in
        let (b, r) = r in
        let (c, r) = r in
        let (d, r) = r in
        let (e, r) = r in
        let (f, r) = r in
        let (g, r) = r in
        let (h, r) = r in
        let (i, j) = r in
        record {
          request_timestamp = a;
          request_source_ip = b;
          verification_email = c;
          approval_timestamp = d;
          approver_uid = e;
          comment = f;
          user_agent = g;
          goodbye_timestamp = h;
          goodbye_initiator = i;
          goodbye_reason = j;
        })
      (λ m. (
        m.request_timestamp,
        (
          m.request_source_ip,
          (
            m.verification_email,
            (
              m.approval_timestamp,
              (
                m.approver_uid,
                (
                  m.comment,
                  (m.user_agent, (m.goodbye_timestamp, (m.goodbye_initiator, m.goodbye_reason))),
                ),
              ),
            ),
          ),
        ),
      ))
      (N ⊗ T ⊗ T ⊗ N ⊗ T ⊗ T ⊗ T ⊗ N ⊗ T ⊗ T) (λ m. refl)

abbrev pub member_codec : Codec Member
member_codec =
    map_codec
      (λ (t : Option ℕ
          × (Option Text
              × (Option Text
                  × (Option Text
                      × (Option Text
                          × (Option Text
                              × (Option Text
                                  × (Option Bool
                                      × (Option Text
                                          × (Option ℕ
                                              × (Option Text
                                                  × (Option Text
                                                      × (Option Bool
                                                          × (Option Bool × Option ℕ)))))))))))))).
        let (a, r) = t in
        let (b, r) = r in
        let (c, r) = r in
        let (d, r) = r in
        let (e, r) = r in
        let (f, r) = r in
        let (g, r) = r in
        let (h, r) = r in
        let (i, r) = r in
        let (j, r) = r in
        let (k, r) = r in
        let (l, r) = r in
        let (m, r) = r in
        let (n, o) = r in
        record {
          id = a;
          name = b;
          street = c;
          city = d;
          zipcode = e;
          country = f;
          email = g;
          email_verified = h;
          phone = i;
          fee = j;
          username = k;
          pwhash = l;
          fee_yearly = m;
          has_key = n;
          payments_caught_up_to = o;
        })
      (λ m. (
        m.id,
        (
          m.name,
          (
            m.street,
            (
              m.city,
              (
                m.zipcode,
                (
                  m.country,
                  (
                    m.email,
                    (
                      m.email_verified,
                      (
                        m.phone,
                        (
                          m.fee,
                          (
                            m.username,
                            (m.pwhash, (m.fee_yearly, (m.has_key, m.payments_caught_up_to))),
                          ),
                        ),
                      ),
                    ),
                  ),
                ),
              ),
            ),
          ),
        ),
      ))
      (N ⊗ T ⊗ T ⊗ T ⊗ T ⊗ T ⊗ T ⊗ B ⊗ T ⊗ N ⊗ T ⊗ T ⊗ B ⊗ B ⊗ N) (λ m. refl)

abbrev pub agreement_codec : Codec MembershipAgreement
agreement_codec =
    map_codec
      (λ (t : Bytes × (Option Member × Option MembershipMetadata)).
        let (a, r) = t in
        let (b, d) = r in record { agreement_pdf = a; member_data = b; metadata = d })
      (λ a. (a.agreement_pdf, (a.member_data, a.metadata)))
      (text_codec ⊗ option_codec member_codec ⊗ option_codec metadata_codec) (λ a. refl)
