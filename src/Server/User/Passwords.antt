-- ===== src/Server/User/Passwords.antt =====
-- The rows of passwords (`password`, `new_password`, `new_password_with_totp` and `add_totp` of
-- sandpolis-server/src/user/server.rs). The hash function, the generator of a TOTP secret with its
-- URL, the fresh identifier of a row and the clock are the caller's `Entropy`; `stores` says whether
-- the realm's database takes a write. Rows stand in the order of their keys, as a scan returns them.
pub mod Tidy
pub mod Changes
pub mod Newest
use sandpolis.Prelude.{
  ℕ, Bool, true, false, ◌&&◌, Option, none, some, List, [], ◌∷◌, ◌>>=◌, leb, if◌then◌else◌,
}
use sandpolis.Prelude.Maps.{Assoc, store, get}
use sandpolis.Database.Revision.{DataRevision, latest, previous}
use sandpolis.Server.User.{PasswordData}
use sandpolis.Instance.Permission.{same_string}

pub record Entropy : Type 0 where
  pub fresh_id : ℕ
  pub created : ℕ
  pub salt : List ℕ
  -- Iterations, salt and password.
  pub derive : ℕ → List ℕ → List ℕ → List ℕ
  -- The URL of a new secret for an account's name.
  pub totp_url : List ℕ → Option (List ℕ)
  pub stores : Bool

abbrev pub hash_iterations : ℕ
hash_iterations = 15000

abbrev is_absent : Option PasswordData → Bool
is_absent none = true
is_absent (some p) = false

abbrev pub is_latest : DataRevision → Bool
is_latest (latest v) = true
is_latest (previous v) = false

-- What `sort_by_key` (which is stable) and `pop` take: the last of the rows created latest.
abbrev pub later : PasswordData → Option PasswordData → PasswordData
later p none = p
later p (some q) = if leb p.creation q.creation then q else p

unfoldable pub password : List ℕ → Assoc PasswordData → Option PasswordData
unfolding same_string
password user [] = none
password user ((k, p) ∷ rows) =
    let rest = password user rows in
    if same_string p.user user && is_latest p.revision then some (later p rest) else rest

unfoldable pub new_row : Entropy → List ℕ → List ℕ → Option (List ℕ) → PasswordData
new_row e user pass totp = record {
  id = e.fresh_id;
  revision = latest 1;
  creation = e.created;
  user = user;
  iterations = hash_iterations;
  salt = e.salt;
  hash = e.derive hash_iterations e.salt pass;
  totp_secret = totp;
}

-- The stored row with the table after it; nothing when the write fails.
abbrev pub Stored : Type 0
Stored = Option (PasswordData × Assoc PasswordData)

-- `insert`, which refuses a key that is there, and `upsert`, each in a transaction of its own.
unfoldable pub insert_row : Entropy → PasswordData → Assoc PasswordData → Stored
insert_row e p rows =
    if e.stores && is_absent (get p.id rows) then some (p, store p.id p rows) else none

unfoldable pub upsert_row : Entropy → PasswordData → Assoc PasswordData → Stored
upsert_row e p rows = if e.stores then some (p, store p.id p rows) else none

unfoldable pub new_password : Entropy → List ℕ → List ℕ → Assoc PasswordData → Stored
unfolding new_row insert_row
new_password e user pass rows = insert_row e (new_row e user pass none) rows

unfoldable pub new_password_with_totp : Entropy → List ℕ → List ℕ → Assoc PasswordData → Stored
unfolding new_row insert_row
new_password_with_totp e user pass rows = do
  url ← e.totp_url user
  insert_row e (new_row e user pass (some url)) rows

unfoldable pub add_totp : Entropy → PasswordData → Assoc PasswordData → Stored
unfolding upsert_row
add_totp e current rows = do
  url ← e.totp_url current.user
  upsert_row e (record current { totp_secret = some url }) rows
