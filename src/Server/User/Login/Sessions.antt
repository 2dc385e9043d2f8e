-- ===== src/Server/User/Login/Sessions.antt =====
-- What a login that hands out a token has checked (`post_login` of
-- sandpolis-server/src/login/server.rs).
use sandpolis.Prelude.{
  ℕ, ◌≡◌, refl, ◌⊎◌, inl, inr, Bool, true, false, Option, none, some, List, [], ◌∷◌, ok, arith,
  Bool-cases, Option-cases, ◌&&◌, ◌==◌,
}
use sandpolis.Prelude.Maps.{Assoc}
use sandpolis.Instance.Permission.{same_string-true}
use sandpolis.Database.Resident.{Row}
use sandpolis.Server.User.{
  or_empty, UserData, UserManager, PasswordData, user, users_of, find_user, totp_required, expired,
}
use sandpolis.Server.User.Passwords.{
  Stored, password, new_password, new_password_with_totp, add_totp,
}
use sandpolis.Server.User.Login.{
  LoginEnv, LoginRequest, logged_in, RealmRows, post_login, with_password, with_user, first_login,
  expect_secret, enrolled, check_password, check_code, check_totp, refuse, lifetime_of, is_none,
}
use sandpolis.Server.User.Login.Minted.{
  IsMinted, Answers, lifetime_of-le, allow-IsMinted, set_up-allow, with_totp-has_secret,
}

find_user-username :
    (name : List ℕ) (rows : Assoc (Row UserData)) {u : UserData}
    → find_user name rows ≡ some u
    → u.username ≡ name
unfolding find_user
find_user-username name [] h = cc h
find_user-username name ((k, r) ∷ rows) {u} h =
    ground (arith, same_string-true r.content.username name, find_user-username name rows {u = u})

users_of-username :
    (name : List ℕ) (o : Option (Assoc (Row UserData))) {u : UserData}
    → users_of name o ≡ some u
    → u.username ≡ name
unfolding users_of
users_of-username name none h = cc h
users_of-username name (some rows) h = find_user-username name rows h

module _ (e : LoginEnv) (m : UserManager) (realm : ℕ) (request : LoginRequest) where
  -- The code fits the secret; without a secret none is required.
  abbrev pub CodeFits : Option (List ℕ) → Type 0
  CodeFits none = totp_required m realm ≡ false
  CodeFits (some url) =
      (check : List ℕ → Bool) × (e.from_url url ≡ some check)
      × (check (or_empty request.totp_token) ≡ true)

  abbrev pub Proven : RealmRows → Type 0
  Proven db =
      ((password request.username db.passwords ≡ none)
        × (request.setup ≡ true)
        × (totp_required m realm ≡ false))
      ⊎ ((p : PasswordData) × (password request.username db.passwords ≡ some p)
          × (e.verify p.iterations p.salt request.password p.hash ≡ true)
          × CodeFits p.totp_secret)

  first_login-Proven :
      (u : UserData) (db : RealmRows) {t : List ℕ}
      → Answers (first_login e m realm request u db) t
      → (request.setup ≡ true) × (totp_required m realm ≡ false) × IsMinted e m realm request u t
  unfolding first_login
  first_login-Proven u db {t} h = elim (Bool-cases request.setup) [
    | inr n ↦ absurd (ground arith)
    | inl s ↦ elim (Bool-cases (totp_required m realm)) [
      | inl r ↦
          let (p, rows, o, n, minted) =
            set_up-allow e m realm request u db
              (new_password_with_totp e.entropy request.username request.password db.passwords)
              {t = t} (ground arith) in
          absurd (with_totp-has_secret e m realm request db.passwords o n)
      | inr f ↦
          let (p, rows, o, n, minted) =
            set_up-allow e m realm request u db
              (new_password e.entropy request.username request.password db.passwords) {t = t}
              (ground arith) in
          (s, f, minted)
    ]
  ]

  enrolled-logged_in :
      (db : RealmRows) (o : Stored) {t : List ℕ} → ¬ Answers (enrolled e m realm request db o) t
  unfolding enrolled expect_secret
  enrolled-logged_in db none h = cc h
  enrolled-logged_in db (some (p, rows)) h = elim (Option-cases p.totp_secret) [
    | inl n ↦ ground (arith, h, n)
    | inr (url, s) ↦ ground (arith, h, s)
  ]

  check_password-Proven :
      (u : UserData) (db : RealmRows) (p : PasswordData) {t : List ℕ}
      → Answers (check_password e m realm request u db p) t
      → (e.verify p.iterations p.salt request.password p.hash ≡ true)
        × (is_none p.totp_secret ≡ true → totp_required m realm ≡ false)
        × IsMinted e m realm request u t
  unfolding check_password refuse
  check_password-Proven u db p {t} h = elim (Bool-cases (p.iterations == 0)) [
    | inl z ↦ absurd (ground arith)
    | inr z ↦ elim (Bool-cases (e.verify p.iterations p.salt request.password p.hash)) [
      | inr n ↦ absurd (ground arith)
      | inl v ↦ elim (Bool-cases (totp_required m realm && is_none p.totp_secret)) [
        | inl q ↦
            absurd
              (enrolled-logged_in db (add_totp e.entropy p db.passwords) {t = t} (ground arith))
        | inr q ↦ (
          v,
          λ n. ground arith,
          allow-IsMinted e m realm request u (lifetime_of e m realm request) db {t = t}
              (lifetime_of-le e m realm request) (ground arith),
        )
      ]
    ]
  ]

  check_code-Proven :
      (u : UserData) (db : RealmRows) (p : PasswordData) (o : Option (List ℕ → Bool)) {t : List ℕ}
      → Answers (check_code e m realm request u db p o) t
      → (check : List ℕ → Bool) × (o ≡ some check)
        × (check (or_empty request.totp_token) ≡ true)
        × (e.verify p.iterations p.salt request.password p.hash ≡ true)
        × IsMinted e m realm request u t
  unfolding check_code refuse
  check_code-Proven u db p none h = cc h
  check_code-Proven u db p (some check) {t} h =
      elim (Bool-cases (check (or_empty request.totp_token))) [
        | inr n ↦ absurd (ground arith)
        | inl c ↦
            let (v, f, minted) = check_password-Proven u db p {t = t} (ground arith) in
            (check, refl, c, v, minted)
      ]

  check_totp-Proven :
      (u : UserData) (db : RealmRows) (p : PasswordData) (s : Option (List ℕ)) {t : List ℕ}
      → p.totp_secret ≡ s
      → Answers (check_totp e m realm request u db p s) t
      → (e.verify p.iterations p.salt request.password p.hash ≡ true)
        × CodeFits s
        × IsMinted e m realm request u t
  unfolding check_totp
  check_totp-Proven u db p none {t} q h =
      let (v, f, minted) = check_password-Proven u db p {t = t} h in (v, f (ground arith), minted)
  check_totp-Proven u db p (some url) {t} q h =
      let (check, o, c, v, minted) = check_code-Proven u db p (e.from_url url) {t = t} h in
      (v, (check, o, c), minted)

  with_password-Proven :
      (u : UserData) (db : RealmRows) (o : Option PasswordData) {t : List ℕ}
      → password request.username db.passwords ≡ o
      → Answers (with_password e m realm request u db o) t
      → Proven db × IsMinted e m realm request u t
  unfolding with_password
  with_password-Proven u db none {t} q h =
      let (s, r, minted) = first_login-Proven u db {t = t} h in (inl (q, s, r), minted)
  with_password-Proven u db (some p) {t} q h =
      let (v, c, minted) = check_totp-Proven u db p p.totp_secret {t = t} refl h in
      (inr (p, q, v, c), minted)

  with_user-Proven :
      (db : RealmRows) (o : Option UserData) {t : List ℕ}
      → Answers (with_user e m realm request db o) t
      → (u : UserData) × (o ≡ some u)
        × (expired u.expiration e.checked_at ≡ false)
        × Proven db
        × IsMinted e m realm request u t
  unfolding with_user refuse
  with_user-Proven db none h = cc h
  with_user-Proven db (some u) {t} h = elim (Bool-cases (expired u.expiration e.checked_at)) [
    | inl x ↦ absurd (ground arith)
    | inr x ↦ elim (Bool-cases e.reads) [
      | inr n ↦ absurd (ground arith)
      | inl r ↦
          let (proven, minted) =
            with_password-Proven u db (password request.username db.passwords) {t = t} refl
              (ground arith) in
          (u, refl, x, proven, minted)
    ]
  ]

  -- A login that hands out a token found the user, whose account had not expired, and either it set
  -- up the first password of a user who had none, where no TOTP is required, or the password sent
  -- verifies against the newest that is stored and the code fits its secret, which it has where TOTP
  -- is required; and the token is signed with the realm's key for claims of that user's name and
  -- present permissions in this realm, which end within the realm's longest lifetime.
  pub post_login-Proven :
      (db : RealmRows) {t : List ℕ}
      → (post_login e m realm request db).response ≡ some (ok (logged_in t))
      → (u : UserData) × (user m realm request.username ≡ some u)
        × (u.username ≡ request.username)
        × (expired u.expiration e.checked_at ≡ false)
        × Proven db
        × IsMinted e m realm request u t
  unfolding post_login user
  post_login-Proven db {t} h = elim (Bool-cases (e.validates request)) [
    | inr n ↦ absurd (ground arith)
    | inl v ↦
        let (u, o, x, proven, minted) =
          with_user-Proven db (user m realm request.username) {t = t} (ground arith) in
        (u, o, users_of-username request.username (m.users realm) o, x, proven, minted)
  ]
