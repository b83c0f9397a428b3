-- ===== src/Web/Guards.antt =====
-- Which requests reach the database, and which only look refused.
use membersys.Base.{
  ◌≡◌, ◌⊎◌, inl, inr, true, false, Bool-cases, List, Text, codes, is_empty, arith, Bytes,
}
use membersys.Database.{MembershipDb}
use membersys.Web.Handler.{Request, Site, Part, is_outsider, is_fatal, status_of, file, Flow}
use membersys.Web.Applicants.{accept_member, reject_member, upload_agreement}
use membersys.Web.Queues.{cancel_queued}
use membersys.Web.Members.{say_goodbye_to_member}

-- Somebody is logged in, and the token is good.
pub record IsVerified (req : Request) (token : Text) : Type 0 where
  pub logged_in : is_empty req.user ≡ false
  pub accepted : (req.verify_csrf token).0 ≡ true
  pub sound : is_fatal (req.verify_csrf token).1 ≡ false

-- The reasons for which the check of a token ends a handler.
IsVerified-cases :
    (req : Request) (token : Text)
    → IsVerified req token
      ⊎ ((is_empty req.user ≡ true)
          ⊎ ((is_fatal (req.verify_csrf token).1 ≡ true) ⊎ ((req.verify_csrf token).0 ≡ false)))
IsVerified-cases req token = elim (Bool-cases (is_empty req.user)) [
  | inl e ↦ inr (inl e)
  | inr e ↦ elim (Bool-cases (is_fatal (req.verify_csrf token).1)) [
    | inl f ↦ inr (inr (inl f))
    | inr f ↦ elim (Bool-cases (req.verify_csrf token).0) [
      | inl g ↦ inl (record { logged_in = e; accepted = g; sound = f })
      | inr g ↦ inr (inr (inr g))
    ]
  ]
]

module _ (db : MembershipDb) (site : Site) (req : Request) (s : db.State) where
  -- MemberAcceptHandler leaves the database alone, or somebody who is logged in, is no outsider (nobody
  -- is one where there is no group of administrators) and sent a good token made it call
  -- MoveApplicantToNewMember once, for the id of the form and in that user's name.
  pub accept_needs_insider :
      ((accept_member db site req s).2 ≡ s)
      ⊎ IsVerified req (req.post_form (codes "csrf_token"))
        × (is_outsider site req ≡ false)
        × ((accept_member db site req s).2
            ≡ (db.move_applicant_to_new_member (req.post_form (codes "uuid")) req.user s).1)
  unfolding accept_member
  accept_needs_insider = elim (Bool-cases (is_outsider site req)) [
    | inl f ↦
        inl (elim (Bool-cases (is_empty req.user)) [ inl e ↦ ground arith | inr e ↦ ground arith ])
    | inr f ↦ elim (IsVerified-cases req (req.post_form (codes "csrf_token"))) [
      | inl v ↦ inr (v, f, ground (arith, v.logged_in, v.accepted, v.sound))
      | inr (inl e) ↦ inl (ground arith)
      | inr (inr (inl e)) ↦
          inl
            (elim (Bool-cases (is_empty req.user)) [ inl g ↦ ground arith | inr g ↦ ground arith ])
      | inr (inr (inr e)) ↦ inl (ground arith)
    ]
  ]

  -- A handler that asks for a token left the database alone, or somebody who is logged in sent a good
  -- token and it made its one call.
  abbrev pub Verified : Text → db.State → db.State → Type 0
  Verified token s' done = (s' ≡ s) ⊎ IsVerified req token × (s' ≡ done)

  reject_needs_token :
      Verified
        (req.post_form (codes "csrf_token"))
        (reject_member db site req s).2
        (db.move_applicant_to_trash (req.post_form (codes "uuid")) req.user s).1
  unfolding reject_member
  reject_needs_token = elim (IsVerified-cases req (req.post_form (codes "csrf_token"))) [
    | inl v ↦ inr (v, ground (arith, v.logged_in, v.accepted, v.sound))
    | inr (inl e) ↦ inl (ground arith)
    | inr (inr (inl e)) ↦ inl (ground arith)
    | inr (inr (inr e)) ↦ inl (ground arith)
  ]

  cancel_needs_token :
      Verified
        (req.post_form (codes "csrf_token"))
        (cancel_queued db site req s).2
        (db.move_queued_record_to_trash (req.post_form (codes "uuid")) req.user s).1
  unfolding cancel_queued
  cancel_needs_token = elim (IsVerified-cases req (req.post_form (codes "csrf_token"))) [
    | inl v ↦ inr (v, ground (arith, v.logged_in, v.accepted, v.sound))
    | inr (inl e) ↦ inl (ground arith)
    | inr (inr (inl e)) ↦ inl (ground arith)
    | inr (inr (inr e)) ↦ inl (ground arith)
  ]

  goodbye_needs_token :
      Verified
        (req.post_form (codes "csrf_token"))
        (say_goodbye_to_member db site req s).2
        (db.move_member_to_trash
          (req.post_form (codes "id"))
          req.user
          (req.post_form (codes "reason"))
          s).1
  unfolding say_goodbye_to_member
  goodbye_needs_token = elim (IsVerified-cases req (req.post_form (codes "csrf_token"))) [
    | inl v ↦ inr (v, ground (arith, v.logged_in, v.accepted, v.sound))
    | inr (inl e) ↦ inl (ground arith)
    | inr (inr (inl e)) ↦ inl (ground arith)
    | inr (inr (inr e)) ↦ inl (ground arith)
  ]

  upload_needs_token :
      (bytes : Bytes)
      → req.upload ≡ file bytes
      → Verified
          (req.form (codes "csrf_token"))
          (upload_agreement db site req s).2
          (db.store_membership_agreement (req.form (codes "uuid")) bytes s).1
  unfolding upload_agreement
  upload_needs_token bytes u = elim (IsVerified-cases req (req.form (codes "csrf_token"))) [
    | inl v ↦ inr (v, ground (arith, v.logged_in, v.accepted, v.sound))
    | inr (inl e) ↦ inl (ground arith)
    | inr (inr (inl e)) ↦ inl (ground arith)
    | inr (inr (inr e)) ↦ inl (ground arith)
  ]

  -- For a request with an uploaded file, the handlers that reject an applicant, cancel a queued
  -- member, end a membership and upload a scan leave the database alone, or somebody who is logged
  -- in sent a good token and each made its one call, for the ids of the form and in that user's
  -- name.
  pub writes_need_token :
      (bytes : Bytes)
      → req.upload ≡ file bytes
      → Verified
          (req.post_form (codes "csrf_token"))
          (reject_member db site req s).2
          (db.move_applicant_to_trash (req.post_form (codes "uuid")) req.user s).1
        × Verified
            (req.post_form (codes "csrf_token"))
            (cancel_queued db site req s).2
            (db.move_queued_record_to_trash (req.post_form (codes "uuid")) req.user s).1
        × Verified
            (req.post_form (codes "csrf_token"))
            (say_goodbye_to_member db site req s).2
            (db.move_member_to_trash
              (req.post_form (codes "id"))
              req.user
              (req.post_form (codes "reason"))
              s).1
        × Verified
            (req.form (codes "csrf_token"))
            (upload_agreement db site req s).2
            (db.store_membership_agreement (req.form (codes "uuid")) bytes s).1
  writes_need_token bytes u =
      (reject_needs_token, cancel_needs_token, goodbye_needs_token, upload_needs_token bytes u)

  -- The response has the status 403, and the database is as the call leaves it.
  abbrev pub Overridden : List (Part (Unit {0})) × Flow (Unit {0}) × db.State → db.State → Type 0
  Overridden (out, _, s') done = (status_of out ≡ 403) × (s' ≡ done)

  -- For somebody who is logged in and sent a good token, but is outside the group of
  -- administrators, with an upload that has a file, these four handlers write the status 403, and
  -- the rejection, the cancellation, the end of the membership and the upload are carried out all
  -- the same.
  pub forbidden_writes_go_through :
      (bytes : Bytes)
      → req.upload ≡ file bytes
      → is_outsider site req ≡ true
      → IsVerified req (req.post_form (codes "csrf_token"))
      → IsVerified req (req.form (codes "csrf_token"))
      → Overridden
          (reject_member db site req s)
          (db.move_applicant_to_trash (req.post_form (codes "uuid")) req.user s).1
        × Overridden
            (cancel_queued db site req s)
            (db.move_queued_record_to_trash (req.post_form (codes "uuid")) req.user s).1
        × Overridden
            (say_goodbye_to_member db site req s)
            (db.move_member_to_trash
              (req.post_form (codes "id"))
              req.user
              (req.post_form (codes "reason"))
              s).1
        × Overridden
            (upload_agreement db site req s)
            (db.store_membership_agreement (req.form (codes "uuid")) bytes s).1
  unfolding reject_member cancel_queued say_goodbye_to_member upload_agreement
  forbidden_writes_go_through bytes u o v w = (
    (
      ground (arith, v.logged_in, v.accepted, v.sound),
      ground (arith, v.logged_in, v.accepted, v.sound),
    ),
    (
      ground (arith, v.logged_in, v.accepted, v.sound),
      ground (arith, v.logged_in, v.accepted, v.sound),
    ),
    (
      ground (arith, v.logged_in, v.accepted, v.sound),
      ground (arith, v.logged_in, v.accepted, v.sound),
    ),
    (
      ground (arith, w.logged_in, w.accepted, w.sound),
      ground (arith, w.logged_in, w.accepted, w.sound),
    ),
  )
