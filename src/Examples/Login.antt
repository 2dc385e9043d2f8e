-- ===== src/Examples/Login.antt =====
-- Logins at concrete inputs: realm 0 has the user `alice`, whose hash is her password and whose code
-- is the URL of her secret.
use sandpolis.Prelude.{
  ℕ, ◌≡◌, ◌≢◌, refl, ap, subst, Bool, true, false, Option, none, some, List, [], ◌∷◌, ok, arith,
}
use sandpolis.Prelude.Maps.{get, store}
use sandpolis.Database.Revision.{latest}
use sandpolis.Database.Resident.{Row}
use sandpolis.Instance.Permission.{wildcard, same_string}
use sandpolis.Server.User.{
  UserData, UserManager, UsersConfig, PasswordData, user, expired, totp_required, token_lifetime,
}
use sandpolis.Server.User.Passwords.{
  Entropy, password, hash_iterations, new_row, new_password, new_password_with_totp,
}
use sandpolis.Server.User.Passwords.Changes.{HasPassword}
use sandpolis.Server.User.Passwords.Tidy.{IsTidy}
use sandpolis.Server.User.Login.{
  LoginEnv, LoginRequest, logged_in, RealmRows, post_login, with_password, lifetime_of,
}
use sandpolis.Server.User.Login.Minted.{IsMinted}
use sandpolis.Server.User.Login.Sessions.{Proven, CodeFits, post_login-Proven}
use sandpolis.Server.User.Login.Kept.{Attempt, logins, logins_keep}
use sandpolis.Server.User.Login.Again.{setup_then_login}
use sandpolis.Server.User.Login.Races.{setup_races}
use sandpolis.Server.User.Login.Records.{Verified, Recorded, post_login-Records}
use sandpolis.Server.User.Login.Answers.{post_login-answers}

abbrev pub alice : List ℕ
alice = 97 ∷ 108 ∷ 105 ∷ 99 ∷ 101 ∷ []

abbrev pub alice_data : UserData
alice_data = record {
  username = alice;
  permissions = record { layer = wildcard; action = wildcard } ∷ [];
  email = none;
  phone = none;
  expiration = none;
}

abbrev pub alice_row : Row UserData
alice_row = record { id = 5; revision = latest 1; content = alice_data }

abbrev config : Bool → UsersConfig
config totp = record { totp = totp; token_lifetime = some 100; users = [] }

abbrev manager : Bool → UserManager
manager totp = record {
  users = λ realm. some ((5, alice_row) ∷ []);
  configs = λ realm. some (config totp);
  jwt_keys = λ realm. some (7 ∷ []);
  stream_permissions = λ tag. none;
  is_local = false;
}

abbrev entropy : ℕ → ℕ → Entropy
entropy id time = record {
  fresh_id = id;
  created = time;
  salt = id ∷ [];
  derive = λ rounds salt pass. pass;
  totp_url = λ name. some (name);
  stores = true;
}

abbrev env : ℕ → ℕ → LoginEnv
env id time = record {
  validates = λ request. true;
  checked_at = time;
  logged_at = time;
  minted_at = time;
  reads = true;
  audits = true;
  entropy = entropy id time;
  from_url = λ url. some (same_string url);
  verify = λ rounds salt pass hash. same_string pass hash;
  encode = λ key claims. some claims.sub;
}

abbrev request : List ℕ → Bool → LoginRequest
request pass setup = record {
  username = alice;
  password = pass;
  setup = setup;
  totp_token = some alice;
  lifetime = some 50;
}

abbrev pass : List ℕ
pass = 1 ∷ 2 ∷ []

abbrev other : List ℕ
other = 3 ∷ []

abbrev empty_db : RealmRows
empty_db = record { passwords = []; attempts = [] }

abbrev stored : PasswordData
stored = record {
  id = 30;
  revision = latest 1;
  creation = 4;
  user = alice;
  iterations = hash_iterations;
  salt = 30 ∷ [];
  hash = pass;
  totp_secret = none;
}

abbrev db : RealmRows
db = record { passwords = (30, stored) ∷ []; attempts = [] }

post_login-Proven_example :
    (u : UserData) × (user (manager false) 0 alice ≡ some u)
    × (u.username ≡ alice)
    × (expired u.expiration 6 ≡ false)
    × Proven (env 31 6) (manager false) 0 (request pass false) db
    × IsMinted (env 31 6) (manager false) 0 (request pass false) u alice
unfolding post_login password user totp_required token_lifetime same_string
post_login-Proven_example =
    post_login-Proven (env 31 6) (manager false) 0 (request pass false) db {t = alice} refl

-- A wrong password, the user's own, and another setup.
abbrev more : List Attempt
more =
    record { env = env 31 6; manager = manager false; request = request other false }
    ∷ record { env = env 32 7; manager = manager true; request = request pass false }
    ∷ record { env = env 33 8; manager = manager false; request = request other true }
    ∷ []

db-IsTidy : IsTidy db.passwords
db-IsTidy = ((tt, tt), (refl, refl, tt))

logins_keep_example :
    (q : PasswordData) × (password alice (logins 0 more db).passwords ≡ some q)
    × HasPassword stored q
unfolding password same_string
logins_keep_example = logins_keep 0 more alice db {p = stored} db-IsTidy refl

abbrev secret_of : Option PasswordData → Option (List ℕ)
secret_of none = none
secret_of (some p) = p.totp_secret

setup_then_login_example :
    (post_login (env 40 9) (manager true) 0 (request pass false) (
      logins 0 more
        (post_login (env 30 4) (manager true) 0 (request pass true) empty_db).rows)).response
    ≡ some (ok (logged_in alice))
unfolding post_login password same_string user totp_required token_lifetime store get logins
    lifetime_of new_password_with_totp
setup_then_login_example =
    setup_then_login (env 30 4) (env 40 9) (manager true) (manager true) 0 (request pass true)
      (request pass false) empty_db more (some alice) alice_data {key = 7 ∷ []} {token = alice}
      (tt, tt) refl refl refl refl refl refl refl refl refl
      (λ p h.
        subst (CodeFits (env 40 9) (manager true) 0 (request pass false)) (ap secret_of h)
          (same_string alice, refl, refl))
      (omega arith) refl refl

setup_races_example :
    (password alice
        (with_password
          (env 30 4)
          (manager false)
          0
          (request pass true)
          alice_data
          empty_db
          none).rows.passwords
      ≡ some (new_row (entropy 30 4) alice pass none))
    × (password alice
          (with_password
            (env 31 5)
            (manager false)
            0
            (request other true)
            alice_data
            (with_password
              (env 30 4)
              (manager false)
              0
              (request pass true)
              alice_data
              empty_db
              none).rows
            none).rows.passwords
        ≡ some (new_row (entropy 31 5) alice other none))
unfolding with_password password totp_required get store same_string new_password
setup_races_example =
    setup_races (env 30 4) (env 31 5) (manager false) 0 (request pass true) (request other true)
      alice_data alice_data empty_db refl refl refl refl refl refl refl refl refl (omega arith)

post_login-Records_example :
    Recorded
      (env 31 6)
      (manager false)
      0
      (request other false)
      (Verified (env 31 6) (manager false) 0 (request other false) db)
      (post_login (env 31 6) (manager false) 0 (request other false) db).response
      []
      (post_login (env 31 6) (manager false) 0 (request other false) db).rows.attempts
post_login-Records_example =
    post_login-Records (env 31 6) (manager false) 0 (request other false) db refl

post_login-answers_example :
    (post_login (env 31 6) (manager false) 0 (request pass false) db).response ≢ none
unfolding token_lifetime
post_login-answers_example =
    post_login-answers (env 31 6) (manager false) 0 (request pass false) db (omega arith) db-IsTidy
