-- ===== src/Server/User/Login.antt =====
-- The login handler (sandpolis-server/src/login/server.rs and login/mod.rs). What the handler takes
-- from its surroundings is a `LoginEnv`: the clock at each place that reads it, the check of a
-- password against a hash, the one of a code against a TOTP URL (which may not parse), the signing of
-- claims, and which accesses to the database succeed. A handler that panics gives no response.
pub mod Minted
pub mod Sessions
pub mod Kept
pub mod Setup
pub mod Again
pub mod Races
pub mod Records
pub mod Answers
use sandpolis.Prelude.{
  ℕ, ◌+◌, ◌*◌, ◌/◌, ◌^◌, Bool, true, false, not, ◌&&◌, Option, none, some, List, [], ◌∷◌, Result,
  ok, err, ltb, leb, ◌==◌, if◌then◌else◌,
}
use sandpolis.Prelude.Maps.{Assoc}
use sandpolis.Server.User.{
  or_empty, UserData, UserManager, PasswordData, Claims, user, totp_required, token_lifetime,
  unwrap_or, expired, second,
}
use sandpolis.Server.User.Passwords.{
  Entropy, Stored, password, new_password, new_password_with_totp, add_totp,
}

pub record LoginRequest : Type 0 where
  pub username : List ℕ
  pub password : List ℕ
  pub setup : Bool
  pub totp_token : Option (List ℕ)
  pub lifetime : Option ℕ

pub data LoginResponse : Type 0 where
  logged_in : List ℕ → LoginResponse
  password_setup_required : Bool → LoginResponse
  totp_setup_required : List ℕ → LoginResponse
  invalid account_expired denied : LoginResponse

pub record LoginAttemptData : Type 0 where
  pub timestamp : ℕ
  pub username : List ℕ
  pub allowed : Bool

pub record LoginEnv : Type 0 where
  pub validates : LoginRequest → Bool
  pub checked_at : ℕ
  pub logged_at : ℕ
  -- In nanoseconds.
  pub minted_at : ℕ
  pub reads : Bool
  pub audits : Bool
  pub entropy : Entropy
  pub from_url : List ℕ → Option (List ℕ → Bool)
  -- Iterations, salt, password and hash.
  pub verify : ℕ → List ℕ → List ℕ → List ℕ → Bool
  pub encode : List ℕ → Claims → Option (List ℕ)

-- The rows of a realm's database that a login uses.
pub record RealmRows : Type 0 where
  pub passwords : Assoc PasswordData
  pub attempts : List LoginAttemptData

-- `Ok` or `Err` with a response, or nothing after a panic; and the rows.
pub record Answer : Type 0 where
  pub response : Option (Result LoginResponse LoginResponse)
  pub rows : RealmRows

-- The largest seconds that a `SystemTime` holds.
abbrev pub time_limit : ℕ
time_limit = 2 ^ 63 * second

abbrev is_none : Option (List ℕ) → Bool
is_none none = true
is_none (some s) = false

abbrev min : ℕ → ℕ → ℕ
min a b = if leb a b then a else b

module _ (e : LoginEnv) (m : UserManager) (realm : ℕ) (request : LoginRequest) where
  unfoldable pub record_attempt : Bool → RealmRows → RealmRows
  record_attempt allowed db =
      if e.audits
      then record db {
        attempts =
            record { timestamp = e.logged_at; username = request.username; allowed = allowed }
            ∷ db.attempts;
      }
      else db

  signed : Option (List ℕ) → Result LoginResponse LoginResponse
  signed none = err denied
  signed (some token) = ok (logged_in token)

  -- `new_token`.
  with_key : Claims → Option (List ℕ) → Result LoginResponse LoginResponse
  unfolding signed
  with_key claims none = err denied
  with_key claims (some key) = signed (e.encode key claims)

  unfoldable pub claims_of : UserData → ℕ → Claims
  claims_of u lifetime = record {
    sub = u.username;
    exp = (e.minted_at + lifetime) / second;
    perms = u.permissions;
    realm = realm;
  }

  mint : UserData → ℕ → Option (Result LoginResponse LoginResponse)
  unfolding claims_of with_key
  mint u lifetime =
      if ltb (e.minted_at + lifetime) time_limit
      then some (with_key (claims_of u lifetime) (m.jwt_keys realm))
      else none

  pub allow : UserData → ℕ → RealmRows → Answer
  unfolding mint record_attempt
  allow u lifetime db = record { response = mint u lifetime; rows = record_attempt true db }

  refuse : LoginResponse → RealmRows → Answer
  unfolding record_attempt
  refuse r db = record { response = some (err r); rows = record_attempt false db }

  -- No attempt is recorded.
  abbrev unrecorded : Result LoginResponse LoginResponse → RealmRows → Answer
  unrecorded r db = record { response = some r; rows = db }

  unfoldable pub lifetime_of : ℕ
  lifetime_of =
      let max_lifetime = token_lifetime m realm in
      min (unwrap_or request.lifetime max_lifetime) max_lifetime

  after_setup : UserData → RealmRows → Option (List ℕ) → Answer
  unfolding allow lifetime_of
  after_setup u db (some url) = unrecorded (ok (totp_setup_required url)) db
  after_setup u db none = allow u lifetime_of db

  pub set_up : UserData → RealmRows → Stored → Answer
  unfolding after_setup
  set_up u db none = unrecorded (err invalid) db
  set_up u db (some (stored, rows)) =
      after_setup u (record db { passwords = rows }) stored.totp_secret

  -- The user has no password yet.
  unfoldable pub first_login : UserData → RealmRows → Answer
  unfolding set_up
  first_login u db =
      if not request.setup
      then unrecorded (ok (password_setup_required (totp_required m realm))) db
      else set_up u db (
          if totp_required m realm
          then new_password_with_totp e.entropy request.username request.password db.passwords
          else new_password e.entropy request.username request.password db.passwords)

  -- The handler panics where `add_totp` has set no secret.
  expect_secret : RealmRows → Option (List ℕ) → Answer
  expect_secret rows none = record { response = none; rows = rows }
  expect_secret rows (some url) = unrecorded (ok (totp_setup_required url)) rows

  enrolled : RealmRows → Stored → Answer
  unfolding expect_secret
  enrolled db none = unrecorded (err invalid) db
  enrolled db (some (stored, rows)) =
      expect_secret (record db { passwords = rows }) stored.totp_secret

  -- Past the TOTP check. `NonZero::new(0).unwrap()` panics.
  check_password : UserData → RealmRows → PasswordData → Answer
  unfolding refuse enrolled allow lifetime_of
  check_password u db p =
      if p.iterations == 0
      then record { response = none; rows = db }
      else if not (e.verify p.iterations p.salt request.password p.hash)
      then refuse denied db
      else if totp_required m realm && is_none p.totp_secret
      then enrolled db (add_totp e.entropy p db.passwords)
      else allow u lifetime_of db

  check_code : UserData → RealmRows → PasswordData → Option (List ℕ → Bool) → Answer
  unfolding check_password refuse
  check_code u db p none = unrecorded (err invalid) db
  check_code u db p (some check_current) =
      if not (check_current (or_empty request.totp_token))
      then refuse denied db
      else check_password u db p

  check_totp : UserData → RealmRows → PasswordData → Option (List ℕ) → Answer
  unfolding check_code check_password
  check_totp u db p none = check_password u db p
  check_totp u db p (some url) = check_code u db p (e.from_url url)

  -- The password that was read, and the rows when the handler goes on.
  unfoldable pub with_password : UserData → RealmRows → Option PasswordData → Answer
  unfolding first_login check_totp
  with_password u db none = first_login u db
  with_password u db (some p) = check_totp u db p p.totp_secret

  with_user : RealmRows → Option UserData → Answer
  unfolding refuse with_password
  with_user db none = refuse denied db
  with_user db (some u) =
      if expired u.expiration e.checked_at
      then refuse account_expired db
      else if not e.reads
      then unrecorded (err invalid) db
      else with_password u db (password request.username db.passwords)

  unfoldable pub post_login : RealmRows → Answer
  unfolding with_user
  post_login db =
      if not (e.validates request)
      then unrecorded (err invalid) db
      else with_user db (user m realm request.username)
