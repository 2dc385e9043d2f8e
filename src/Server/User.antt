-- ===== src/Server/User.antt =====
-- User accounts and their passwords (sandpolis-server/src/user/mod.rs, user/config.rs and
-- user/server.rs). Names, passwords, hashes and tokens are lists of code points or bytes, realms are
-- numbered, and times are natural numbers except an account's expiration, which the realm config may
-- set before 1970. The tables of a `UserManager` are keyed by realm.
pub mod Passwords
pub mod Login
pub mod Connect
pub mod Configured
use sandpolis.Prelude.{
  ℕ, ◌*◌, ◌^◌, Bool, true, false, not, ◌&&◌, ◌||◌, Option, none, some, List, [], ◌∷◌, filter,
  length, find, ltb, leb, if◌then◌else◌,
}
use sandpolis.Prelude.Maps.{Table, Assoc}
use sandpolis.Database.Revision.{DataRevision, latest, previous, ℤ, pos, negsuc}
use sandpolis.Database.Resident.{Row}
use sandpolis.Instance.Permission.{Permission, same_string, all}

-- `^[a-z0-9]{4,32}$`.
abbrev is_name_char : ℕ → Bool
is_name_char c = (leb 97 c && leb c 122) || (leb 48 c && leb c 57)

unfoldable pub valid_name : List ℕ → Bool
unfolding all
valid_name s = leb 4 (length s) && leb (length s) 32 && all is_name_char s

pub record UserData : Type 0 where
  pub username : List ℕ
  pub permissions : List Permission
  pub email : Option (List ℕ)
  pub phone : Option (List ℕ)
  pub expiration : Option ℤ

pub record UserConfig : Type 0 where
  pub username : List ℕ
  pub email : Option (List ℕ)
  pub phone : Option (List ℕ)
  pub expiration : Option ℤ
  pub permissions : List Permission

pub record UsersConfig : Type 0 where
  pub totp : Bool
  pub token_lifetime : Option ℕ
  pub users : List UserConfig

-- Durations in nanoseconds.
abbrev pub second : ℕ
second = 10 ^ 9

abbrev pub default_token_lifetime : ℕ
default_token_lifetime = 30 * 24 * 60 * 60 * second

pub record PasswordData : Type 0 where
  pub id : ℕ
  pub revision : DataRevision
  pub creation : ℕ
  pub user : List ℕ
  pub iterations : ℕ
  pub salt : List ℕ
  pub hash : List ℕ
  pub totp_secret : Option (List ℕ)

pub record Claims : Type 0 where
  pub sub : List ℕ
  pub exp : ℕ
  pub perms : List Permission
  pub realm : ℕ

pub record UserManager : Type 0 where
  pub users : Table (Assoc (Row UserData))
  pub configs : Table UsersConfig
  -- The secret of a realm, which both of its keys are made of.
  pub jwt_keys : Table (List ℕ)
  pub stream_permissions : Table (Option Permission)
  pub is_local : Bool

unfoldable pub find_user : List ℕ → Assoc (Row UserData) → Option UserData
unfolding same_string
find_user name [] = none
find_user name ((k, r) ∷ rows) =
    if same_string r.content.username name then some r.content else find_user name rows

users_of : List ℕ → Option (Assoc (Row UserData)) → Option UserData
unfolding find_user
users_of name none = none
users_of name (some rows) = find_user name rows

-- `user`: no realm and no user are the same error to its callers.
unfoldable pub user : UserManager → ℕ → List ℕ → Option UserData
unfolding users_of
user m realm name = users_of name (m.users realm)

abbrev pub has_rows : Option (Assoc (Row UserData)) → Bool
has_rows none = false
has_rows (some []) = false
has_rows (some (r ∷ rows)) = true

unfoldable pub users_configured : UserManager → ℕ → Bool
users_configured m realm = has_rows (m.users realm)

abbrev pub wants_totp : Option UsersConfig → Bool
wants_totp none = false
wants_totp (some c) = c.totp

unfoldable pub totp_required : UserManager → ℕ → Bool
totp_required m realm = wants_totp (m.configs realm)

abbrev pub unwrap_or : Option ℕ → ℕ → ℕ
unwrap_or none d = d
unwrap_or (some n) d = n

-- `unwrap_or_default` of a string.
abbrev pub or_empty : Option (List ℕ) → List ℕ
or_empty none = []
or_empty (some s) = s

abbrev configured_lifetime : Option UsersConfig → Option ℕ
configured_lifetime none = none
configured_lifetime (some c) = c.token_lifetime

unfoldable pub token_lifetime : UserManager → ℕ → ℕ
token_lifetime m realm = unwrap_or (configured_lifetime (m.configs realm)) default_token_lifetime

-- `is_some_and(|expiration| expiration <= now)`, in seconds since 1970.
abbrev pub expired : Option ℤ → ℕ → Bool
expired none now = false
expired (some (negsuc e)) now = true
expired (some (pos e)) now = leb e now
