-- ===== src/Server/User/Login/Again.antt =====
-- The logins of a user after the first (`post_login` of sandpolis-server/src/login/server.rs).
use sandpolis.Prelude.{
  ℕ, ◌+◌, ◌<◌, ◌≡◌, refl, ap, ◌∙◌, true, false, ◌&&◌, Option, none, some, List, ◌==◌, arith, ok,
  lt→ltb,
}
use sandpolis.Server.User.{UserData, UserManager, PasswordData, user, totp_required, expired}
use sandpolis.Server.User.Passwords.{password, hash_iterations}
use sandpolis.Server.User.Passwords.Tidy.{IsTidy}
use sandpolis.Server.User.Passwords.Changes.{Changed-IsTidy}
use sandpolis.Server.User.Login.Sessions.{CodeFits}
use sandpolis.Server.User.Login.Setup.{AnswersSetup, post_login-Stores}
use sandpolis.Server.User.Login.Kept.{Attempt, logins, logins_keep, post_login-Changes}
use sandpolis.Server.User.Login.{
  LoginEnv, LoginRequest, logged_in, RealmRows, post_login, with_password, with_user, allow, mint,
  with_key, signed, claims_of, check_password, check_code, check_totp, is_none, lifetime_of,
  time_limit,
}

module _ (e : LoginEnv) (m : UserManager) (realm : ℕ) (request : LoginRequest) (db : RealmRows)
    (u : UserData) where
  module _ (p : PasswordData)
      (verified : e.verify p.iterations p.salt request.password p.hash ≡ true)
      (rounds : p.iterations ≡ hash_iterations) where
    check_password-allow :
        (totp_required m realm && is_none p.totp_secret) ≡ false
        → check_password e m realm request u db p
          ≡ allow e m realm request u (lifetime_of e m realm request) db
    unfolding check_password
    check_password-allow t =
        let z : (p.iterations == 0) ≡ false = ground arith in rw (z, verified, t) refl

    check_totp-allow :
        (s : Option (List ℕ))
        → p.totp_secret ≡ s
        → CodeFits e m realm request s
        → check_totp e m realm request u db p s
          ≡ allow e m realm request u (lifetime_of e m realm request) db
    unfolding check_totp check_code
    check_totp-allow none q f = check_password-allow (ground arith)
    check_totp-allow (some url) q (check, c, y) = rw (c, y) (check_password-allow (ground arith))

  -- The password that is on record, with a code that fits the secret if there is one.
  post_login-allow :
      (p : PasswordData)
      → e.validates request ≡ true
      → e.reads ≡ true
      → user m realm request.username ≡ some u
      → expired u.expiration e.checked_at ≡ false
      → password request.username db.passwords ≡ some p
      → p.iterations ≡ hash_iterations
      → e.verify p.iterations p.salt request.password p.hash ≡ true
      → CodeFits e m realm request p.totp_secret
      → post_login e m realm request db
        ≡ allow e m realm request u (lifetime_of e m realm request) db
  unfolding post_login with_user with_password
  post_login-allow p v r f x h i w c =
      rw (v, f, x, r, h) (check_totp-allow p w i p.totp_secret refl c)

  allow-logged_in :
      (l : ℕ) {key token : List ℕ}
      → e.minted_at + l < time_limit
      → m.jwt_keys realm ≡ some key
      → e.encode key (claims_of e m realm request u l) ≡ some token
      → (allow e m realm request u l db).response ≡ some (ok (logged_in token))
  unfolding allow mint with_key signed
  allow-logged_in l {key} b k t = rw (lt→ltb (e.minted_at + l) time_limit b, k, t) refl

module _ (e e' : LoginEnv) (m m' : UserManager) (realm : ℕ) (r r' : LoginRequest) (db : RealmRows)
    (more : List Attempt) (secret : Option (List ℕ)) (u : UserData) where
  abbrev at_last : RealmRows
  at_last = logins realm more (post_login e m realm r db).rows

  -- A user who had no password and whose setup was answered with a token or a secret is let in after any
  -- logins of anyone, by a login with the same name and password, if the account exists then and has
  -- not expired, the request is valid and the database can be read, the hash function verifies what it
  -- derived, the code fits the secret on record then (or none is required), and the clock's range, the
  -- realm's key and the encoder allow a token.
  pub setup_then_login :
      {key token : List ℕ}
      → IsTidy db.passwords
      → password r.username db.passwords ≡ none
      → AnswersSetup e m realm r secret (post_login e m realm r db).response
      → r'.username ≡ r.username
      → r'.password ≡ r.password
      → e'.validates r' ≡ true
      → e'.reads ≡ true
      → user m' realm r'.username ≡ some u
      → expired u.expiration e'.checked_at ≡ false
      → e'.verify hash_iterations e.entropy.salt r.password
          (e.entropy.derive hash_iterations e.entropy.salt r.password)
        ≡ true
      → ((p : PasswordData)
          → password r.username at_last.passwords ≡ some p
          → CodeFits e' m' realm r' p.totp_secret)
      → e'.minted_at + lifetime_of e' m' realm r' < time_limit
      → m'.jwt_keys realm ≡ some key
      → e'.encode key (claims_of e' m' realm r' u (lifetime_of e' m' realm r')) ≡ some token
      → (post_login e' m' realm r' at_last).response ≡ some (ok (logged_in token))
  setup_then_login {key} {token} t n a same_user same_password v reads f x verifies codes b k tok =
      let (p, h, s, w) = post_login-Stores e m realm r db secret n a in
      let t' =
        Changed-IsTidy r.username db.passwords (post_login e m realm r db).rows.passwords t
          (post_login-Changes e m realm r db) in
      let (q, g, k') =
        logins_keep realm more r.username (post_login e m realm r db).rows {p = p} t' h in
      let found : password r'.username at_last.passwords ≡ some q =
        ap (λ z. password z at_last.passwords) same_user ∙ g in
      let verified : e'.verify q.iterations q.salt r'.password q.hash ≡ true =
        cc (
          verifies, k'.iterations, s.iterations, k'.salt, s.salt, k'.hash, s.hash, same_password,
        ) in
      ap (λ o. o.response)
        (post_login-allow e' m' realm r' at_last u q v reads f x found
          (k'.iterations ∙ s.iterations) verified (codes q g))
      ∙ allow-logged_in e' m' realm r' at_last u (lifetime_of e' m' realm r') {key = key}
          {token = token} b k tok
