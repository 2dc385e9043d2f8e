-- ===== src/Server/User/Login/Records.antt =====
-- The audit trail of logins (`post_login` and `record_attempt` of
-- sandpolis-server/src/login/server.rs).
use sandpolis.Prelude.{
  ℕ, ◌+◌, ◌≡◌, refl, sym, subst, ◌⊎◌, inl, inr, Bool, true, false, not, ◌&&◌, Option, none, some,
  List, ◌∷◌, Result, ok, err, ◌==◌, if◌then◌else◌, arith, Option-cases, ltb,
}
use sandpolis.Prelude.Maps.{Assoc}
use sandpolis.Server.User.{
  or_empty, UserData, UserManager, PasswordData, user, totp_required, expired, Claims,
}
use sandpolis.Server.User.Passwords.{Stored, password, add_totp}
use sandpolis.Server.User.Login.{
  LoginEnv, LoginRequest, LoginResponse, logged_in, password_setup_required, totp_setup_required,
  invalid, denied, account_expired, LoginAttemptData, RealmRows, Answer, post_login, with_password,
  with_user, allow, mint, with_key, signed, claims_of, first_login, set_up, after_setup,
  expect_secret, enrolled, check_password, check_code, check_totp, refuse, record_attempt, is_none,
  lifetime_of, time_limit,
}

module _ (e : LoginEnv) (m : UserManager) (realm : ℕ) (request : LoginRequest) where
  pub record_attempt-passwords :
      (b : Bool) (rows : RealmRows)
      → (record_attempt e m realm request b rows).passwords ≡ rows.passwords
  unfolding record_attempt
  record_attempt-passwords b rows = ground arith

  abbrev pub entry : Bool → LoginAttemptData
  entry allowed = record { timestamp = e.logged_at; username = request.username; allowed = allowed }

  -- The code that was sent fits the secret, where there is one.
  abbrev pub CodePasses : Option (List ℕ) → Type 0
  CodePasses none = Unit {0}
  CodePasses (some url) =
      (check : List ℕ → Bool) × (e.from_url url ≡ some check)
      × (check (or_empty request.totp_token) ≡ true)

  -- The login sets up the first password, or the password that was sent verifies against the stored
  -- one and the code passes.
  abbrev pub Verified : RealmRows → Type 0
  Verified db =
      ((password request.username db.passwords ≡ none) × (request.setup ≡ true))
      ⊎ ((p : PasswordData) × (password request.username db.passwords ≡ some p)
          × (e.verify p.iterations p.salt request.password p.hash ≡ true)
          × CodePasses p.totp_secret)

  -- What is added to the attempts `old`, by the answer; an attempt is allowed only where `V`.
  abbrev pub Recorded :
      Type 0
      → Option (Result LoginResponse LoginResponse)
      → List LoginAttemptData
      → List LoginAttemptData
      → Type 0
  Recorded V none old new = (new ≡ old) ⊎ ((new ≡ entry true ∷ old) × V)
  Recorded V (some (ok (logged_in token))) old new = (new ≡ entry true ∷ old) × V
  Recorded V (some (ok (password_setup_required b))) old new = new ≡ old
  Recorded V (some (ok (totp_setup_required url))) old new = new ≡ old
  Recorded V (some (ok invalid)) old new = ⊥
  Recorded V (some (ok account_expired)) old new = ⊥
  Recorded V (some (ok denied)) old new = ⊥
  Recorded V (some (err (logged_in token))) old new = ⊥
  Recorded V (some (err (password_setup_required b))) old new = ⊥
  Recorded V (some (err (totp_setup_required url))) old new = ⊥
  Recorded V (some (err invalid)) old new = new ≡ old
  Recorded V (some (err account_expired)) old new = new ≡ entry false ∷ old
  Recorded V (some (err denied)) old new =
      (new ≡ entry false ∷ old) ⊎ ((new ≡ entry true ∷ old) × V)

  module _ (db : RealmRows) (audits : e.audits ≡ true) where
    abbrev Records : Answer → Type 0
    Records a = Recorded (Verified db) a.response db.attempts a.rows.attempts

    if-Records :
        (b : Bool) (x y : Answer)
        → (b ≡ true → Records x)
        → (b ≡ false → Records y)
        → Records (if b then x else y)
    if-Records true x y f g = f refl
    if-Records false x y f g = g refl

    recorded :
        (b : Bool) (rows : RealmRows)
        → (record_attempt e m realm request b rows).attempts ≡ entry b ∷ rows.attempts
    unfolding record_attempt
    recorded b rows = rw audits refl

    signed-Recorded :
        (o : Option (List ℕ)) (old : List LoginAttemptData)
        → Verified db
        → Recorded (Verified db) (some (signed e m realm request o)) old (entry true ∷ old)
    unfolding signed
    signed-Recorded none old v = inr (refl, v)
    signed-Recorded (some t) old v = (refl, v)

    with_key-Recorded :
        (c : Claims) (o : Option (List ℕ)) (old : List LoginAttemptData)
        → Verified db
        → Recorded (Verified db) (some (with_key e m realm request c o)) old (entry true ∷ old)
    unfolding with_key
    with_key-Recorded c none old v = inr (refl, v)
    with_key-Recorded c (some key) old v = signed-Recorded (e.encode key c) old v

    minted :
        (b : Bool) (r : Result LoginResponse LoginResponse) (old : List LoginAttemptData)
        → Verified db
        → Recorded (Verified db) (some r) old (entry true ∷ old)
        → Recorded (Verified db) (if b then some r else none) old (entry true ∷ old)
    minted true r old v h = h
    minted false r old v h = inr (refl, v)

    allow-Recorded :
        (u : UserData) (l : ℕ) (rows : RealmRows)
        → Verified db
        → Recorded
            (Verified db)
            (allow e m realm request u l rows).response
            rows.attempts
            (allow e m realm request u l rows).rows.attempts
    unfolding allow mint
    allow-Recorded u l rows v = rw (recorded true rows) (
        minted (ltb (e.minted_at + l) time_limit) _ rows.attempts v
          (with_key-Recorded (claims_of e m realm request u l) (m.jwt_keys realm) rows.attempts v))

    set_up-Records :
        (u : UserData) (o : Stored) → Verified db → Records (set_up e m realm request u db o)
    unfolding set_up after_setup
    set_up-Records u none v = refl
    set_up-Records u (some (p, after)) v = elim (Option-cases p.totp_secret) [
      | inl n ↦
          rw n
            (allow-Recorded u (lifetime_of e m realm request) (record db { passwords = after }) v)
      | inr (url, s) ↦ rw s refl
    ]

    expect-Records :
        (after : Assoc PasswordData) (o : Option (List ℕ))
        → Records (expect_secret e m realm request (record db { passwords = after }) o)
    unfolding expect_secret
    expect-Records after none = inl refl
    expect-Records after (some url) = refl

    enrolled-Records : (o : Stored) → Records (enrolled e m realm request db o)
    unfolding enrolled
    enrolled-Records none = refl
    enrolled-Records (some (p, after)) = expect-Records after p.totp_secret

    check_password-Records :
        (u : UserData) (p : PasswordData)
        → password request.username db.passwords ≡ some p
        → CodePasses p.totp_secret
        → Records (check_password e m realm request u db p)
    unfolding check_password refuse
    check_password-Records u p f c =
        if-Records (p.iterations == 0) _ _ (λ z. inl refl)
          (λ z.
            if-Records (not (e.verify p.iterations p.salt request.password p.hash)) _ _
              (λ w. inl (recorded false db))
              (λ w.
                if-Records (totp_required m realm && is_none p.totp_secret) _ _
                  (λ t. enrolled-Records (add_totp e.entropy p db.passwords))
                  (λ t.
                    allow-Recorded u (lifetime_of e m realm request) db
                      (inr (p, f, ground (arith, w), c)))))

    check_totp-Records :
        (u : UserData) (p : PasswordData) (s : Option (List ℕ))
        → password request.username db.passwords ≡ some p
        → p.totp_secret ≡ s
        → Records (check_totp e m realm request u db p s)
    unfolding check_totp check_code refuse
    check_totp-Records u p none f q = check_password-Records u p f (subst CodePasses (sym q) tt)
    check_totp-Records u p (some url) f q = elim (Option-cases (e.from_url url)) [
      | inl n ↦ rw n refl
      | inr (check, c) ↦ rw c (
          if-Records (not (check (or_empty request.totp_token))) _ _ (λ w. inl (recorded false db))
            (λ w.
              check_password-Records u p f
                (subst CodePasses (sym q) (check, c, ground (arith, w)))))
    ]

    with_password-Records :
        (u : UserData) (o : Option PasswordData)
        → password request.username db.passwords ≡ o
        → Records (with_password e m realm request u db o)
    unfolding with_password first_login
    with_password-Records u none f =
        if-Records (not request.setup) _ _ (λ w. refl)
          (λ w. set_up-Records u _ (inl (f, ground (arith, w))))
    with_password-Records u (some p) f = check_totp-Records u p p.totp_secret f refl

    with_user-Records : (o : Option UserData) → Records (with_user e m realm request db o)
    unfolding with_user refuse
    with_user-Records none = inl (recorded false db)
    with_user-Records (some u) =
        if-Records (expired u.expiration e.checked_at) _ _ (λ x. recorded false db)
          (λ x.
            if-Records (not e.reads) _ _ (λ w. refl)
              (λ w. with_password-Records u (password request.username db.passwords) refl))

    -- Where the audit trail can be written, a login adds exactly one entry when it hands out a token
    -- (allowed) or the account has expired (not allowed), one entry when it is denied, and none when
    -- it asks for a password or an enrolment or is invalid. An entry says that a login was allowed only
    -- if it set up the user's first password, or its password verified against the stored one and its
    -- code passed where there is a secret.
    pub post_login-Records : Records (post_login e m realm request db)
    unfolding post_login
    post_login-Records =
        if-Records (not (e.validates request)) _ _ (λ w. refl)
          (λ w. with_user-Records (user m realm request.username))
