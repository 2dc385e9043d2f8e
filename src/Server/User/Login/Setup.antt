-- ===== src/Server/User/Login/Setup.antt =====
-- The first login of a user and the next one (`post_login` of sandpolis-server/src/login/server.rs):
-- the password that was set is the one that is asked for, and what two first logins at once leave.
use sandpolis.Prelude.{
  ℕ, ◌≡◌, refl, sym, ap, ◌∙◌, inl, inr, Bool, true, false, not, Option, none, some, List,
  if◌then◌else◌, arith, Option-cases, Result, ok, err,
}
use sandpolis.Prelude.Maps.{Assoc}
use sandpolis.Server.User.{UserData, UserManager, PasswordData, user, totp_required, expired}
use sandpolis.Server.User.Passwords.{
  Stored, password, new_password, new_password_with_totp, new_row, insert_row, hash_iterations,
}
use sandpolis.Server.User.Passwords.Changes.{insert_row-some, with_totp-some}
use sandpolis.Server.User.Passwords.Newest.{AllOlder, password-newest}
use sandpolis.Server.User.Login.Records.{record_attempt-passwords}
use sandpolis.Server.User.Login.{
  LoginEnv, LoginRequest, LoginResponse, logged_in, totp_setup_required, password_setup_required,
  invalid, denied, account_expired, RealmRows, Answer, post_login, with_password, with_user, allow,
  mint, with_key, signed, claims_of, first_login, set_up, after_setup, refuse, lifetime_of,
}

-- What a first login stores.
pub record IsSetUp (e : LoginEnv) (request : LoginRequest) (p : PasswordData) : Type 0 where
  pub iterations : p.iterations ≡ hash_iterations
  pub salt : p.salt ≡ e.entropy.salt
  pub hash : p.hash ≡ e.entropy.derive hash_iterations e.entropy.salt request.password

module _ (e : LoginEnv) (m : UserManager) (realm : ℕ) (request : LoginRequest) where
  -- How a first login answers when the row has this secret.
  abbrev pub AnswersSetup : Option (List ℕ) → Option (Result LoginResponse LoginResponse) → Type 0
  AnswersSetup none r = (token : List ℕ) × (r ≡ some (ok (logged_in token)))
  AnswersSetup (some url) r = r ≡ some (ok (totp_setup_required url))

  after_setup-password :
      (u : UserData) (rows : RealmRows) (o : Option (List ℕ))
      → (after_setup e m realm request u rows o).rows.passwords ≡ rows.passwords
  unfolding after_setup allow
  after_setup-password u rows none = record_attempt-passwords e m realm request true rows
  after_setup-password u rows (some url) = refl

  -- A setup leaves the new row in the place of the user's password, whatever was stored since the
  -- handler looked, if it is the latest to be created.
  pub set_up-password :
      (u : UserData) (db : RealmRows) (totp : Option (List ℕ)) {q : PasswordData}
      {after : Assoc PasswordData}
      → insert_row e.entropy (new_row e.entropy request.username request.password totp) db.passwords
        ≡ some (q, after)
      → AllOlder request.username
          (new_row e.entropy request.username request.password totp)
          db.passwords
      → password request.username (set_up e m realm request u db (some (q, after))).rows.passwords
        ≡ some (new_row e.entropy request.username request.password totp)
  unfolding set_up
  set_up-password u db totp {q} {after} h older =
      let p = new_row e.entropy request.username request.password totp in
      let (g, w, z) = insert_row-some e.entropy p db.passwords {q = q} {after = after} h in
      rw (after_setup-password u (record db { passwords = after }) q.totp_secret) (
        ap (password request.username) (sym w)
        ∙ password-newest request.username p (unfold new_row in refl) (unfold new_row in refl)
            db.passwords (unfold new_row in g) older)

  signed-totp :
      (o : Option (List ℕ)) {url : List ℕ}
      → ¬ (signed e m realm request o ≡ ok (totp_setup_required url))
  unfolding signed
  signed-totp none h = cc h
  signed-totp (some t) h = cc h

  allow-totp :
      (u : UserData) (l : ℕ) (db : RealmRows) {url : List ℕ}
      → ¬ ((allow e m realm request u l db).response ≡ some (ok (totp_setup_required url)))
  unfolding allow mint with_key
  allow-totp u l db {url} h = elim (Option-cases (m.jwt_keys realm)) [
    | inl n ↦ ground arith
    | inr (key, k) ↦
        signed-totp (e.encode key (claims_of e m realm request u l)) {url = url} (ground arith)
  ]

  abbrev pub Stores : Option (List ℕ) → Answer → Type 0
  Stores secret a =
      (p : PasswordData) × (password request.username a.rows.passwords ≡ some p)
      × IsSetUp e request p
      × (p.totp_secret ≡ secret)

  answered_secret :
      (u : UserData) (rows : RealmRows) (o secret : Option (List ℕ))
      → AnswersSetup secret (after_setup e m realm request u rows o).response
      → o ≡ secret
  unfolding after_setup
  answered_secret u rows none none a = refl
  answered_secret u rows none (some url) a =
      absurd (allow-totp u (lifetime_of e m realm request) rows {url = url} a)
  answered_secret u rows (some url) none (t, h) = cc h
  answered_secret u rows (some url) (some w) a = ground arith

  -- From the answer of a setup to the row that it stored.
  set_up-Stores :
      (u : UserData) (db : RealmRows) (totp secret : Option (List ℕ)) {q : PasswordData}
      {after : Assoc PasswordData}
      → password request.username db.passwords ≡ none
      → insert_row e.entropy (new_row e.entropy request.username request.password totp) db.passwords
        ≡ some (q, after)
      → AnswersSetup secret (set_up e m realm request u db (some (q, after))).response
      → Stores secret (set_up e m realm request u db (some (q, after)))
  unfolding set_up
  set_up-Stores u db totp secret {q} {after} n h a =
      let p = new_row e.entropy request.username request.password totp in
      let (g, w, z) = insert_row-some e.entropy p db.passwords {q = q} {after = after} h in
      (
        p,
        set_up-password u db totp {q = q} {after = after} h (λ r f. cc (n, f)),
        record {
          iterations = unfold new_row in refl;
          salt = unfold new_row in refl;
          hash = unfold new_row in refl;
        },
        ap (λ (r : PasswordData). r.totp_secret) z
            ∙ answered_secret u (record db { passwords = after }) q.totp_secret secret a,
      )

  AnswersSetup-setup :
      (secret : Option (List ℕ)) (b : Bool)
      → ¬ AnswersSetup secret (some (ok (password_setup_required b)))
  AnswersSetup-setup none b (t, h) = cc h
  AnswersSetup-setup (some url) b h = cc h

  AnswersSetup-err :
      (secret : Option (List ℕ)) (r : LoginResponse) → ¬ AnswersSetup secret (some (err r))
  AnswersSetup-err none r (t, h) = cc h
  AnswersSetup-err (some url) r h = cc h

  new_password-Stores :
      (u : UserData) (db : RealmRows) (secret : Option (List ℕ)) (o : Stored)
      → password request.username db.passwords ≡ none
      → o ≡ new_password e.entropy request.username request.password db.passwords
      → AnswersSetup secret (set_up e m realm request u db o).response
      → Stores secret (set_up e m realm request u db o)
  unfolding new_password
  new_password-Stores u db secret none n h a =
      absurd (AnswersSetup-err secret invalid (unfold set_up in a))
  new_password-Stores u db secret (some (q, after)) n h a =
      set_up-Stores u db none secret {q = q} {after = after} n (sym h) a

  with_totp-Stores :
      (u : UserData) (db : RealmRows) (secret : Option (List ℕ)) (o : Stored)
      → password request.username db.passwords ≡ none
      → o ≡ new_password_with_totp e.entropy request.username request.password db.passwords
      → AnswersSetup secret (set_up e m realm request u db o).response
      → Stores secret (set_up e m realm request u db o)
  with_totp-Stores u db secret none n h a =
      absurd (AnswersSetup-err secret invalid (unfold set_up in a))
  with_totp-Stores u db secret (some (q, after)) n h a =
      let (url, w) =
        with_totp-some e.entropy request.username request.password db.passwords {q = q}
          {after = after} (sym h) in
      set_up-Stores u db (some url) secret {q = q} {after = after} n w a

  choice-Stores :
      (secret : Option (List ℕ)) (b : Bool) (x y : Answer)
      → (AnswersSetup secret x.response → Stores secret x)
      → (AnswersSetup secret y.response → Stores secret y)
      → AnswersSetup secret (if b then x else y).response
      → Stores secret (if b then x else y)
  choice-Stores secret true x y f g = f
  choice-Stores secret false x y f g = g

  first_login-Stores :
      (u : UserData) (db : RealmRows) (secret : Option (List ℕ))
      → password request.username db.passwords ≡ none
      → AnswersSetup secret (first_login e m realm request u db).response
      → Stores secret (first_login e m realm request u db)
  unfolding first_login
  first_login-Stores u db secret n =
      choice-Stores secret (not request.setup) _ _
        (λ a. absurd (AnswersSetup-setup secret (totp_required m realm) a))
        (set_up_either (totp_required m realm))
    where
      set_up_either :
          (b : Bool)
          → AnswersSetup secret
              (set_up e m realm request u db (
                if b
                then new_password_with_totp e.entropy request.username request.password db.passwords
                else new_password e.entropy request.username request.password
                    db.passwords)).response
          → Stores secret (
              set_up e m realm request u db (
                if b
                then new_password_with_totp e.entropy request.username request.password db.passwords
                else new_password e.entropy request.username request.password db.passwords))
      set_up_either true = with_totp-Stores u db secret _ n refl
      set_up_either false = new_password-Stores u db secret _ n refl

  with_user-Stores :
      (db : RealmRows) (secret : Option (List ℕ)) (o : Option UserData)
      → password request.username db.passwords ≡ none
      → AnswersSetup secret (with_user e m realm request db o).response
      → Stores secret (with_user e m realm request db o)
  unfolding with_user refuse
  with_user-Stores db secret none n = λ a. absurd (AnswersSetup-err secret denied a)
  with_user-Stores db secret (some u) n =
      choice-Stores secret (expired u.expiration e.checked_at) _ _
        (λ a. absurd (AnswersSetup-err secret account_expired a))
        (choice-Stores secret (not e.reads) _ _ (λ a. absurd (AnswersSetup-err secret invalid a))
          (rw n (unfold with_password in first_login-Stores u db secret n)))

  -- A user without a password who is answered with a token or a secret has the password sent.
  pub post_login-Stores :
      (db : RealmRows) (secret : Option (List ℕ))
      → password request.username db.passwords ≡ none
      → AnswersSetup secret (post_login e m realm request db).response
      → Stores secret (post_login e m realm request db)
  unfolding post_login
  post_login-Stores db secret n =
      choice-Stores secret (not (e.validates request)) _ _
        (λ a. absurd (AnswersSetup-err secret invalid a))
        (with_user-Stores db secret (user m realm request.username) n)
