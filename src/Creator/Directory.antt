-- ===== src/Creator/Directory.antt =====
-- What member_creator/member_creator.go uses of gopkg.in/ldap.v2 and welcomemail.go, its settings, and
-- the calls of a run.
use membersys.Base.{ℕ, Bool, Option, List, Text}
use membersys.Membership.{Member, MemberWithKey}

-- The fields of config.LdapConfig that are used after the connection is made.
pub record LdapConfig : Type 0 where
  pub base : Text
  pub new_user_suffix : Text
  pub new_user_group : List Text
  pub new_user_gid : ℕ
  pub new_user_shell : Text
  pub ignore_user_group : List Text

pub record Attribute : Type 0 where
  pub type_name : Text
  pub values : List Text

pub record AddRequest : Type 0 where
  pub dn : Text
  pub attributes : List Attribute

-- A ModifyRequest that adds or deletes values of one attribute.
pub data ModifyRequest : Type 0 where
  add_values delete_values : Text → Text → List Text → ModifyRequest

-- gopkg.in/ldap.v2 and welcomemail.go. `add`, `modify`, `del` and `send_mail` say whether they succeeded;
-- `search` gives, for each entry that matches a filter, the values of the attribute asked for.
pub record Directory : Type 1 where
  pub State : Type 0
  pub search : Text → Text → State → Option (List (List Text)) × State
  pub add : AddRequest → State → Bool × State
  pub modify : ModifyRequest → State → Bool × State
  pub del : Text → State → Bool × State
  pub send_mail : Member → State → Bool × State

-- A call of the run, with what came back.
pub data Call : Type 0 where
  searched : Text → Option (List (List Text)) → Call
  added : AddRequest → Bool → Call
  modified : ModifyRequest → Bool → Call
  deleted : Text → Bool → Call
  moved archived : MemberWithKey → Bool → Call
  mailed : Member → Bool → Call

-- The flags and the configuration: -dry-run, LdapConfig, and whether there is a WelcomeMailConfig.
pub record Settings : Type 0 where
  pub noop : Bool
  pub ldap : LdapConfig
  pub has_welcome : Bool
