-- ===== src/Server/User/Configured.antt =====
-- The accounts of a realm's config brought into its database (`sync_users` and `delete_passwords` of
-- sandpolis-server/src/user/server.rs), over the realm's cached users. Whether the transaction that
-- deletes passwords commits, and the identifier of a new row, are arguments. Warnings about
-- permissions that match nothing are not modelled.
pub mod Step
pub mod Removal
pub mod Loops
use sandpolis.Prelude.{
  ℕ, Bool, true, false, not, Option, none, some, List, [], ◌∷◌, ◌++◌, Result, ok, err, any,
  if◌then◌else◌,
}
use sandpolis.Prelude.Maps.{Assoc}
use sandpolis.Database.Revision.{latest}
use sandpolis.Database.Resident.{Row, Write, Env}
use sandpolis.Database.Resident.Vec.{Outcome, update_at, push_inner, remove_inner}
use sandpolis.Database.Resident
use sandpolis.Instance.Permission.{same_string}
use sandpolis.Server.User.{UserData, UserConfig, PasswordData, valid_name}

pub data SyncError : Type 0 where
  row_failed : Resident.Error → SyncError
  passwords_kept invalid_name : SyncError

pub record SyncEnv : Type 0 where
  pub rows : Env UserData
  pub deletes : Bool
  pub new_id : UserConfig → ℕ

pub record Synced : Type 0 where
  pub result : Result SyncError (Unit {0})
  pub users : Assoc (Row UserData)
  pub passwords : Assoc PasswordData
  pub writes : List (Write UserData)

-- The rows of the user, of every revision.
unfoldable pub without : List ℕ → Assoc PasswordData → Assoc PasswordData
unfolding same_string
without user [] = []
without user ((k, p) ∷ rows) =
    let rest = without user rows in if same_string p.user user then rest else (k, p) ∷ rest

unfoldable pub listed : List ℕ → List UserConfig → Bool
unfolding any same_string
listed name config = any (λ c. same_string c.username name) config

abbrev with_fields : UserConfig → UserData → UserData
with_fields c u = record u {
  email = c.email;
  phone = c.phone;
  expiration = c.expiration;
  permissions = c.permissions;
}

unfoldable pub new_user : UserConfig → UserData
new_user c = record {
  username = c.username;
  permissions = c.permissions;
  email = c.email;
  phone = c.phone;
  expiration = c.expiration;
}

unfoldable pub find_row : List ℕ → Assoc (Row UserData) → Option (ℕ × Row UserData)
unfolding same_string
find_row name [] = none
find_row name ((k, r) ∷ rows) =
    if same_string r.content.username name then some (k, r) else find_row name rows

pub then_if : Result Resident.Error (Unit {0}) → Synced → (Synced → Synced) → Synced
then_if (ok u) t next = next t
then_if (err e) t next = record t { result = err (row_failed e) }

-- Goes on after a successful change of a row.
after : Outcome UserData → Synced → (Synced → Synced) → Synced
unfolding then_if
after o s next = then_if o.result (record s { users = o.rows; writes = s.writes ++ o.writes }) next

module _ (v : SyncEnv) where
  -- `delete_passwords`.
  delete_passwords : List ℕ → Synced → (Synced → Synced) → Synced
  unfolding without
  delete_passwords name s next =
      if v.deletes
      then next (record s { passwords = without name s.passwords })
      else record s { result = err passwords_kept }

  -- The first loop, over the rows that were cached when it began.
  unfoldable pub remove_absent : List UserConfig → Assoc (Row UserData) → Synced → Synced
  unfolding listed remove_inner after delete_passwords
  remove_absent config [] s = s
  remove_absent config ((k, r) ∷ more) s =
      let rest = λ (t : Synced). remove_absent config more t in
      if listed r.content.username config
      then rest s
      else after (remove_inner v.rows false r.id s.users) s
          (λ t. delete_passwords r.content.username t rest)

  pub put_config : UserConfig → Assoc (Row UserData) → Option (ℕ × Row UserData) → Outcome UserData
  unfolding update_at push_inner new_user
  put_config c users (some (k, r)) =
      update_at v.rows (λ row. some (record row { content = with_fields c row.content })) false k r
        users
  put_config c users none =
      push_inner v.rows false
        (record { id = v.new_id c; revision = latest 1; content = new_user c }) users

  -- The second loop.
  unfoldable pub apply_config : List UserConfig → Synced → Synced
  unfolding put_config find_row after valid_name
  apply_config [] s = s
  apply_config (c ∷ more) s =
      let rest = λ (t : Synced). apply_config more t in
      if not (valid_name c.username)
      then record s { result = err invalid_name }
      else after (put_config c s.users (find_row c.username s.users)) s rest

  resume : List UserConfig → Synced → Result SyncError (Unit {0}) → Synced
  unfolding apply_config
  resume config s (ok u) = apply_config config s
  resume config s (err e) = s

  unfoldable pub sync_users : List UserConfig → Assoc (Row UserData) → Assoc PasswordData → Synced
  unfolding remove_absent resume
  sync_users config users passwords =
      let s =
        remove_absent config users
          (record { result = ok tt; users = users; passwords = passwords; writes = [] }) in
      resume config s s.result
