-- ===== src/Creator/Account.antt =====
-- The names, accounts and groups of member_creator/member_creator.go.
use membersys.Base.{
  ℕ, Bool, false, ◌||◌, not, some, List, [], ◌∷◌, ◌++◌, Text, codes, text_eq, is_empty, ltb,
  if◌then◌else◌,
}
use membersys.Decimal.{format_uint}
use membersys.Membership.{Member, MemberWithKey, text_or_empty}
use membersys.Creator.Directory.{LdapConfig, Attribute, AddRequest}

-- Dropping the runes from 128 on drops the bytes from 128 on: in UTF-8 these are the bytes of such
-- runes, and a byte that begins no rune decodes to U+FFFD.
unfoldable pub ascii_filter : Text → Text
ascii_filter [] = []
ascii_filter (ch ∷ t) = let rest = ascii_filter t in if ltb ch 128 then ch ∷ rest else rest

abbrev pub username_of : MemberWithKey → Text
username_of r = text_or_empty r.member.username

unfoldable pub user_dn : LdapConfig → Text → Text
unfolding ascii_filter
user_dn c user =
    codes "uid="
    ++ (ascii_filter user ++ (codes "," ++ (c.new_user_suffix ++ (codes "," ++ c.base))))

abbrev pub group_dn : LdapConfig → Text → Text
group_dn c group = codes "cn=" ++ (group ++ (codes ",ou=Groups," ++ c.base))

abbrev pub one : Text → Text → Attribute
one name value = record { type_name = name; values = value ∷ [] }

-- The account of `r`, whose user name is `user`, under the number `uid`.
unfoldable pub account : LdapConfig → ℕ → Text → Member → AddRequest
unfolding user_dn ascii_filter format_uint
account c uid user m = record {
  dn = user_dn c user;
  attributes =
      one (codes "uidNumber") (format_uint uid)
      ∷ one (codes "gecos") (ascii_filter (text_or_empty m.name))
      ∷ one (codes "shadowLastChange") (codes "11457")
      ∷ one (codes "shadowMax") (codes "9999")
      ∷ one (codes "shadowWarning") (codes "7")
      ∷ one (codes "gidNumber") (format_uint c.new_user_gid)
      ∷ record {
        type_name = codes "objectClass";
        values = codes "account" ∷ codes "posixAccount" ∷ codes "shadowAccount" ∷ codes "top" ∷ [];
      }
      ∷ one (codes "uid") (ascii_filter user)
      ∷ one (codes "cn") (ascii_filter user)
      ∷ one (codes "homeDirectory") (codes "/home/" ++ ascii_filter user)
      ∷ one (codes "loginShell") c.new_user_shell
      ∷ one (codes "userPassword") (text_or_empty m.pwhash)
      ∷ [];
}

unfoldable pub groups_filter : Text → Text
unfolding ascii_filter
groups_filter user =
    codes "(&(objectClass=posixGroup)(memberUid=" ++ (ascii_filter user ++ codes "))")

abbrev pub is_among : Text → List Text → Bool
is_among cn [] = false
is_among cn (group ∷ groups) = text_eq cn group || is_among cn groups

-- `entry.GetAttributeValue("cn")`: the first value, or "".
abbrev pub first_value : List Text → Text
first_value [] = []
first_value (v ∷ vs) = v

-- `groups_differ`: a group with a name that the configuration does not list.
unfoldable pub groups_differ : LdapConfig → List (List Text) → Bool
groups_differ c [] = false
groups_differ c (entry ∷ entries) =
    let rest = groups_differ c entries in
    let cn = first_value entry in
    if is_empty cn
    then rest
    else not (is_among cn c.new_user_group || is_among cn c.ignore_user_group) || rest

-- `request.Id = proto.Uint64(greatestUid)`.
abbrev pub with_id : MemberWithKey → ℕ → MemberWithKey
with_id r uid = record r { member = record r.member { id = some uid } }
