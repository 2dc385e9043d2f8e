-- ===== src/Examples/Configured.antt =====
-- A realm's config brought into its database, at concrete inputs: `zoe` is no longer configured, and
-- `anna` is configured twice.
use sandpolis.Prelude.{ℕ, ◌≡◌, refl, true, false, none, some, List, [], ◌∷◌, ok, if◌then◌else◌}
use sandpolis.Prelude.Maps.{Assoc, store, get}
use sandpolis.Database.Revision.{latest}
use sandpolis.Database.Scope.{full, global, permits}
use sandpolis.Database.Resident.{Row}
use sandpolis.Instance.Permission.{same_string}
use sandpolis.Server.User.{UserData, UserConfig, PasswordData, find_user}
use sandpolis.Server.User.Passwords.{password}
use sandpolis.Server.User.Configured.{SyncEnv, sync_users}
use sandpolis.Server.User.Configured.Removal.{AreFiled, dropped, deletions, absent}
use sandpolis.Server.User.Configured.Loops.{last_entry, declared_or, sync_users_lem}

abbrev anna : List ℕ
anna = 97 ∷ 110 ∷ 110 ∷ 97 ∷ []

abbrev zoe : List ℕ
zoe = 122 ∷ 111 ∷ 101 ∷ 101 ∷ []

abbrev entry : List ℕ → UserConfig
entry mail = record {
  username = anna;
  email = some mail;
  phone = none;
  expiration = none;
  permissions = [];
}

abbrev config : List UserConfig
config = entry (1 ∷ []) ∷ entry (2 ∷ []) ∷ []

abbrev zoe_row : Row UserData
zoe_row = record {
  id = 4;
  revision = latest 1;
  content = record {
    username = zoe;
    permissions = [];
    email = none;
    phone = none;
    expiration = none;
  };
}

abbrev users : Assoc (Row UserData)
users = (4, zoe_row) ∷ []

abbrev zoe_password : PasswordData
zoe_password = record {
  id = 9;
  revision = latest 1;
  creation = 1;
  user = zoe;
  iterations = 15000;
  salt = [];
  hash = [];
  totp_secret = none;
}

abbrev passwords : Assoc PasswordData
passwords = (9, zoe_password) ∷ []

abbrev env : SyncEnv
env = record {
  rows = record {
    authority = full;
    commits = λ ws. true;
    scope = λ u. global;
    temporal = false;
    same_content = λ a b. false;
    random = 0;
  };
  deletes = true;
  new_id = λ c. 7;
}

succeeds : (sync_users env config users passwords).result ≡ ok tt
unfolding sync_users same_string get store permits
succeeds = refl

forgotten : password zoe (sync_users env config users passwords).passwords ≡ none
unfolding sync_users same_string get store permits password
forgotten = refl

filed : AreFiled users users
unfolding get
filed = (refl, tt)

sync_users_lem_example :
    let s = sync_users env config users passwords in
    (deletions s.writes ≡ absent config users)
    × (find_user anna s.users ≡ declared_or (last_entry anna config) (find_user anna users))
    × (password anna s.passwords
        ≡ (if dropped anna config users then none else password anna passwords))
sync_users_lem_example =
    sync_users_lem env config users passwords (λ a b h. cc h) (tt, tt) filed succeeds anna
