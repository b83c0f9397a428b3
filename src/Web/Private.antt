-- ===== src/Web/Private.antt =====
-- What the handlers show, and to whom.
use membersys.Base.{
  ◌≡◌, refl, ◌⊎◌, inl, inr, Bool, true, false, Bool-cases, Option, none, some, List, [], ◌∷◌, Text,
  codes, arith, not, ◌&&◌, text_eq, is_empty, Result-cases, All, Bytes, Option-cases, subst,
}
use membersys.Membership.{Member, MembershipAgreement, MemberWithKey, text_or_empty}
use membersys.Cassandra.Enumerate.{Listing}
use membersys.Database.{MembershipDb}
use membersys.Web.Handler.{Request, Site, Part, Flow, encoded, is_outsider}
use membersys.Web.Applicants.{list_applicants}
use membersys.Web.Queues.{list_queued, list_dequeued, list_trash, list_queue_of}
use membersys.Web.Members.{
  show_member, list_members, show_total, TotalPage, login, own_detail, everything, username_of,
  all_records,
}

-- The values that a response shows.
abbrev pub values : {O : Type 0} → List (Part O) → List O
values [] = []
values (encoded v ∷ out) = v ∷ values out
values (_ ∷ out) = values out

-- The password hash of a member's data, if there is any.
abbrev pub pwhash_of : Option Member → Option Text
pwhash_of none = none
pwhash_of (some m) = m.pwhash

module _ (db : MembershipDb) (site : Site) (req : Request) (s : db.State) where
  -- The record shows no password hash and no scan, and its reader is logged in and is the member or no
  -- outsider.
  abbrev pub IsFit : MembershipAgreement → Type 0
  IsFit a =
      (is_empty req.user ≡ false)
      × (a.agreement_pdf ≡ [])
      × (pwhash_of a.member_data ≡ none)
      × ((text_eq (username_of a.member_data) req.user ≡ true) ⊎ (is_outsider site req ≡ false))

  -- The reader of a record is the member, or no outsider.
  abbrev MayRead : MembershipAgreement → Type 0
  MayRead a = not (text_eq (username_of a.member_data) req.user) && is_outsider site req ≡ false

  MayRead-cases : (b o : Bool) → not b && o ≡ false → (b ≡ true) ⊎ (o ≡ false)
  MayRead-cases true o h = inl refl
  MayRead-cases false o h = inr h

  -- MemberDetailHandler shows nothing, or, to somebody logged in, the record that it read without its
  -- hash and its scan.
  abbrev Shows : List MembershipAgreement → Type 0
  Shows shown =
      (shown ≡ [])
      ⊎ ((is_empty req.user ≡ false)
          × (a : MembershipAgreement) × (m : Member) × (a.member_data ≡ some m)
          × MayRead a
          × (shown
              ≡ record a { agreement_pdf = []; member_data = some (record m { pwhash = none }) }
                ∷ []))

  shown-Shows : Shows (values (show_member db site req s).0)
  unfolding show_member
  shown-Shows = elim (Bool-cases (is_empty req.user)) [
    | inl e ↦ inl (ground arith)
    | inr e ↦ elim (Bool-cases (is_empty (req.form (codes "email")))) [
      | inl f ↦ inl (ground arith)
      | inr f ↦ elim (Result-cases (db.get_member_detail (req.form (codes "email")) s).0) [
        | inl (a, got) ↦
            elim (Bool-cases
              (not (text_eq (username_of a.member_data) req.user) && is_outsider site req)) [
                | inl g ↦ inl (ground arith)
                | inr g ↦ elim (Option-cases a.member_data) [
                  | inl h ↦ inl (ground arith)
                  | inr (m, h) ↦ inr (
                    e,
                    a,
                    m,
                    h,
                    g,
                    elim (Bool-cases req.delivers) [ inl d ↦ ground arith | inr d ↦ ground arith ],
                  )
                ]
              ]
        | inr (inl (x, got)) ↦ inl (ground arith)
        | inr (inr got) ↦ inl (ground arith)
      ]
    ]
  ]

  -- What MemberDetailHandler shows, if anything, has neither the password hash nor the scan of the
  -- agreement, and is shown to somebody logged in who is the member, by the user name of the login, or
  -- is no outsider: an administrator, or anybody logged in where there is no group of administrators.
  pub show_member-IsFit : All IsFit (values (show_member db site req s).0)
  show_member-IsFit = elim shown-Shows [
    | inl none_shown ↦ rw none_shown tt
    | inr (logged_in, a, m, present, may, shown) ↦ rw shown (
      (
        logged_in,
        refl,
        refl,
        MayRead-cases (text_eq (text_or_empty m.username) req.user) (is_outsider site req) (
            subst (λ d. not (text_eq (username_of d) req.user) && is_outsider site req ≡ false)
              present may),
      ),
      tt,
    )
  ]

  -- The page is one of all records only for somebody who is logged in and is no outsider.
  abbrev pub IsGranted : TotalPage → Type 0
  IsGranted (everything r) = (is_empty req.user ≡ false) × (is_outsider site req ≡ false)
  IsGranted _ = Unit

  total-cases :
      (values (show_total db site req s).0 ≡ [])
      ⊎ ((p : TotalPage) × IsGranted p × (values (show_total db site req s).0 ≡ p ∷ []))
  unfolding show_total
  total-cases = elim (Bool-cases (is_empty req.user)) [
    | inl e ↦ inr (login, tt, ground arith)
    | inr e ↦ elim (Bool-cases (is_outsider site req)) [
      | inl f ↦ elim (Result-cases (db.get_member_detail_by_username req.user s).0) [
        | inl (a, got) ↦ inr (own_detail a.member_data, tt, ground arith)
        | inr (inl (x, got)) ↦ inl (ground arith)
        | inr (inr got) ↦ inl (ground arith)
      ]
      | inr f ↦ inr (everything (all_records db site req s), (e, f), ground arith)
    ]
  ]

  -- TotalListHandler shows the lists to those only who are logged in and are no outsiders.
  pub show_total-IsGranted : All IsGranted (values (show_total db site req s).0)
  show_total-IsGranted = elim total-cases [
    | inl nothing ↦ rw nothing tt
    | inr (p, granted, shown) ↦ rw shown (granted, tt)
  ]

  -- A list in JSON leaves the database alone, and shows something to the group of administrators only.
  abbrev pub Restricted : {O : Type 0} → List (Part O) × Flow (Unit {0}) × db.State → Type 0
  Restricted (out, _, s') = ((values out ≡ []) ⊎ (req.in_scope site.admingroup ≡ true)) × (s' ≡ s)

  scope_cases :
      {O : Type 0} (out : List (Part O))
      → (req.in_scope site.admingroup ≡ false → values out ≡ [])
      → (values out ≡ []) ⊎ (req.in_scope site.admingroup ≡ true)
  scope_cases out h = elim (Bool-cases (req.in_scope site.admingroup)) [
    | inl e ↦ inr e
    | inr e ↦ inl (h e)
  ]

  queue-Restricted :
      (list : db.State → Listing MemberWithKey) → Restricted (list_queue_of db site req list s)
  queue-Restricted list =
      (scope_cases ((list_queue_of db site req list s).0) (λ h. ground arith), ground arith)

  trash-Restricted : Restricted (list_trash db site req s)
  unfolding list_trash
  trash-Restricted = (scope_cases ((list_trash db site req s).0) (λ h. ground arith), ground arith)

  members-Restricted : Restricted (list_members db site req s)
  unfolding list_members
  members-Restricted =
      (scope_cases ((list_members db site req s).0) (λ h. ground arith), ground arith)

  -- The five lists in JSON show something only to the group of administrators, without an exception for
  -- a site that has no such group; those of the queues, the trash and the members leave the database
  -- alone.
  pub lists_need_scope :
      (uuid_text : Bytes → Option Text)
      (merge : MembershipAgreement → MembershipAgreement → MembershipAgreement)
      → ((values (list_applicants uuid_text merge db site req s).0 ≡ [])
          ⊎ (req.in_scope site.admingroup ≡ true))
        × Restricted (list_queued db site req s)
        × Restricted (list_dequeued db site req s)
        × Restricted (list_trash db site req s)
        × Restricted (list_members db site req s)
  unfolding list_applicants list_queued list_dequeued
  lists_need_scope uuid_text merge = (
    scope_cases ((list_applicants uuid_text merge db site req s).0) (λ h. ground arith),
    queue-Restricted (db.enumerate_queued_members (req.form (codes "start")) site.pagesize),
    queue-Restricted (db.enumerate_de_queued_members (req.form (codes "start")) site.pagesize),
    trash-Restricted,
    members-Restricted,
  )
