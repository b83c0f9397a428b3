-- ===== src/Creator/Tests.antt =====
-- The theorems about member_creator at a concrete run: Ada is queued, her number is the next one, and
-- an account that leaves is not deleted.
use mathlib.Core.List.Memᴰ.{head}
use membersys.Base.{
  ℕ, ◌+◌, ◌≡◌, refl, Bool, true, false, none, some, List, [], ◌∷◌, Text, codes, arith, text_eq,
  if◌then◌else◌,
}
use membersys.Database.{MembershipDb, cassandra_db}
use membersys.Cassandra.Tests.Sample.{session, one_queued, queued_ada}
use membersys.Web.Numbers.{parse_uint, uint_from, uint_step}
use membersys.Creator.Directory.{LdapConfig, Directory, Settings}
use membersys.Creator.Numbers.{highest_uid, highest_of, first_uid}
use membersys.Creator.Run.{World, run_creator, create_all, remove_all}
use membersys.Creator.Rules.{Ends}
use membersys.Creator.Backing.{AllBacked, moved_members-AllBacked}
use membersys.Creator.Uids.{Falling, new_uids-Falling}
use membersys.Creator.Above.{AllAbove, new_uids-AllAbove}
use membersys.Creator.Removal.{AllCleared, removals-AllCleared}
use membersys.Creator.Loops.{moves, all_to, to_members, to_archive, IsUntouched}
use membersys.Creator.DryRun.{queued_at, leaving_at, dry_run_moves}

abbrev ldap_config : LdapConfig
ldap_config = record {
  base = codes "dc=example";
  new_user_suffix = codes "ou=People";
  new_user_group = codes "users" ∷ [];
  new_user_gid = 100;
  new_user_shell = codes "/bin/bash";
  ignore_user_group = [];
}

-- The values of uidNumber in the directory.
abbrev numbers : List (List Text)
numbers = (codes "1041" ∷ []) ∷ []

-- A server that finds the numbers, and the group of new users, adds accounts, and deletes none.
abbrev directory : Directory
directory = record {
  State = ℕ;
  search = λ filter attribute s. (
    some (if text_eq attribute (codes "uidNumber") then numbers else (codes "users" ∷ []) ∷ []),
    s,
  );
  add = λ request s. (true, s + 1);
  modify = λ request s. (true, s);
  del = λ dn s. (false, s);
  send_mail = λ m s. (true, s);
}

abbrev settings : Bool → Settings
settings noop = record { noop = noop; ldap = ldap_config; has_welcome = true }

-- The database in memory, which lists Ada in both queues.
abbrev data_base : MembershipDb
data_base = record (cassandra_db session 0) {
  enumerate_queued_members = λ prev num s. record { items = queued_ada ∷ []; error = none };
  enumerate_de_queued_members = λ prev num s. record { items = queued_ada ∷ []; error = none };
}

abbrev start : (noop : Bool) → World data_base directory (settings noop)
start noop = record { data_base = one_queued; directory = 0; calls = [] }

moved_members-AllBacked_example :
    AllBacked ldap_config (run_creator data_base directory (settings false) (start false)).1.calls
moved_members-AllBacked_example =
    moved_members-AllBacked data_base directory (settings false) (start false) refl refl

new_uids-Falling_example :
    (high : ℕ) × Falling 1041 high
      (create_all data_base directory (settings false) 1041 (queued_ada ∷ []) (start false)).1.calls
new_uids-Falling_example =
    new_uids-Falling data_base directory (settings false) 1041 (queued_ada ∷ []) (start false)
      (omega arith) refl

highest_number : highest_uid numbers first_uid ≡ 1041
unfolding highest_uid highest_of parse_uint uint_from uint_step
highest_number = refl

new_uids-AllAbove_example :
    AllAbove 1041 (run_creator data_base directory (settings false) (start false)).1.calls
unfolding highest_uid highest_of parse_uint uint_from uint_step text_eq
new_uids-AllAbove_example =
    new_uids-AllAbove data_base directory (settings false) (start false) numbers refl refl
      (omega arith) refl (codes "1041" ∷ []) (codes "1041") 1041 (head refl) (head refl) refl

removals-AllCleared_example :
    AllCleared ldap_config
      (remove_all data_base directory (settings false) (queued_ada ∷ []) (start false)).1.calls
removals-AllCleared_example =
    removals-AllCleared data_base directory (settings false) (queued_ada ∷ []) (start false) refl

dry_run_moves_example :
    Ends
      (λ _ calls.
        (moves calls
          ≡ all_to to_archive
              (leaving_at data_base directory (settings true) (start true))
              (all_to to_members (queued_at data_base directory (settings true) (start true)) []))
        × IsUntouched calls)
      IsUntouched
      (run_creator data_base directory (settings true) (start true)).0
      (run_creator data_base directory (settings true) (start true)).1.calls
dry_run_moves_example = dry_run_moves data_base directory (settings true) (start true) refl refl
