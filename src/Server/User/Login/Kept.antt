-- ===== src/Server/User/Login/Kept.antt =====
-- What any number of logins leaves of the stored passwords (`post_login` of
-- sandpolis-server/src/login/server.rs), one after another.
use sandpolis.Prelude.{
  ℕ, ◌≡◌, refl, sym, subst, inl, inr, Bool, true, false, not, ◌&&◌, Option, none, some, List, [],
  ◌∷◌, ◌==◌, if◌then◌else◌, arith, Option-cases,
}
use sandpolis.Prelude.Maps.{Assoc}
use sandpolis.Server.User.{
  or_empty, UserData, UserManager, PasswordData, user, totp_required, expired,
}
use sandpolis.Server.User.Passwords.{Stored, password, add_totp}
use sandpolis.Server.User.Passwords.Tidy.{IsTidy}
use sandpolis.Server.User.Passwords.Changes.{
  Changed, unchanged, Changed-IsTidy, Changed-keeps, HasPassword, HasPassword-refl,
  HasPassword-trans, new_password-Changed, with_totp-Changed, add_totp-Changed,
}
use sandpolis.Server.User.Login.Records.{record_attempt-passwords}
use sandpolis.Server.User.Login.{
  LoginEnv, LoginRequest, RealmRows, Answer, post_login, with_password, with_user, allow,
  first_login, set_up, after_setup, expect_secret, enrolled, check_password, check_code, check_totp,
  refuse, record_attempt, is_none, LoginResponse, denied, account_expired, lifetime_of,
}

module _ (e : LoginEnv) (m : UserManager) (realm : ℕ) (request : LoginRequest)
    (db : RealmRows) where
  abbrev Changes : Answer → Type 0
  Changes a = Changed request.username db.passwords a.rows.passwords

  recorded-Changed :
      (b : Bool) (rows : RealmRows)
      → Changed request.username db.passwords rows.passwords
      → Changed request.username db.passwords (record_attempt e m realm request b rows).passwords
  recorded-Changed b rows c =
      subst (Changed request.username db.passwords)
        (sym (record_attempt-passwords e m realm request b rows)) c

  if-Changes :
      (b : Bool) (x y : Answer)
      → (b ≡ true → Changes x)
      → (b ≡ false → Changes y)
      → Changes (if b then x else y)
  if-Changes true x y f g = f refl
  if-Changes false x y f g = g refl

  abbrev Writes : Stored → Type 0
  Writes o =
      (p : PasswordData) (after : Assoc PasswordData)
      → o ≡ some (p, after)
      → Changed request.username db.passwords after

  after_setup-Changes :
      (u : UserData) (o : Option (List ℕ)) (rows : RealmRows)
      → Changed request.username db.passwords rows.passwords
      → Changes (after_setup e m realm request u rows o)
  unfolding after_setup allow
  after_setup-Changes u none rows c = recorded-Changed true rows c
  after_setup-Changes u (some url) rows c = c

  set_up-Changes :
      (u : UserData) (o : Stored) → Writes o → Changes (set_up e m realm request u db o)
  unfolding set_up
  set_up-Changes u none c = unchanged
  set_up-Changes u (some (p, after)) c =
      after_setup-Changes u p.totp_secret (record db { passwords = after }) (c p after refl)

  enrolled-Changes : (o : Stored) → Writes o → Changes (enrolled e m realm request db o)
  unfolding enrolled expect_secret
  enrolled-Changes none c = unchanged
  enrolled-Changes (some (p, after)) c = elim (Option-cases p.totp_secret) [
    | inl n ↦ rw n (c p after refl)
    | inr (url, s) ↦ rw s (c p after refl)
  ]

  if-Writes : (b : Bool) (x y : Stored) → Writes x → Writes y → Writes (if b then x else y)
  if-Writes true x y f g = f
  if-Writes false x y f g = g

  first_login-Changes :
      (u : UserData)
      → password request.username db.passwords ≡ none
      → Changes (first_login e m realm request u db)
  unfolding first_login
  first_login-Changes u n =
      if-Changes (not request.setup) _ _ (λ s. unchanged)
        (λ s. set_up-Changes u _ (
          if-Writes (totp_required m realm) _ _
            (λ p after.
              with_totp-Changed e.entropy request.username request.password db.passwords {q = p}
                {after = after} n)
            (λ p after.
              new_password-Changed e.entropy request.username request.password db.passwords {q = p}
                {after = after} n)))

  refuse-Changes : (r : LoginResponse) → Changes (refuse e m realm request r db)
  unfolding refuse
  refuse-Changes r = recorded-Changed false db unchanged

  allow-Changes : (u : UserData) (l : ℕ) → Changes (allow e m realm request u l db)
  unfolding allow
  allow-Changes u l = recorded-Changed true db unchanged

  no_secret : (b : Bool) (o : Option (List ℕ)) → (b && is_none o) ≡ true → o ≡ none
  no_secret b none h = refl
  no_secret b (some s) h = ground arith

  check_password-Changes :
      (u : UserData) (p : PasswordData)
      → password request.username db.passwords ≡ some p
      → Changes (check_password e m realm request u db p)
  unfolding check_password
  check_password-Changes u p f =
      if-Changes (p.iterations == 0) _ _ (λ z. unchanged)
        (λ z.
          if-Changes (not (e.verify p.iterations p.salt request.password p.hash)) _ _
            (λ w. refuse-Changes denied)
            (λ w.
              if-Changes (totp_required m realm && is_none p.totp_secret) _ _
                (λ t. enrolled-Changes (add_totp e.entropy p db.passwords) (λ q after.
                  add_totp-Changed e.entropy request.username p db.passwords {q = q} {after = after}
                    f (no_secret (totp_required m realm) p.totp_secret t)))
                (λ t. allow-Changes u (lifetime_of e m realm request))))

  check_totp-Changes :
      (u : UserData) (p : PasswordData) (s : Option (List ℕ))
      → password request.username db.passwords ≡ some p
      → Changes (check_totp e m realm request u db p s)
  unfolding check_totp check_code
  check_totp-Changes u p none f = check_password-Changes u p f
  check_totp-Changes u p (some url) f = elim (Option-cases (e.from_url url)) [
    | inl n ↦ rw n unchanged
    | inr (check, c) ↦ rw c (
        if-Changes (not (check (or_empty request.totp_token))) _ _ (λ w. refuse-Changes denied)
          (λ w. check_password-Changes u p f))
  ]

  with_password-Changes :
      (u : UserData) (o : Option PasswordData)
      → password request.username db.passwords ≡ o
      → Changes (with_password e m realm request u db o)
  unfolding with_password
  with_password-Changes u none h = first_login-Changes u h
  with_password-Changes u (some p) h = check_totp-Changes u p p.totp_secret h

  with_user-Changes : (o : Option UserData) → Changes (with_user e m realm request db o)
  unfolding with_user
  with_user-Changes none = refuse-Changes denied
  with_user-Changes (some u) =
      if-Changes (expired u.expiration e.checked_at) _ _ (λ x. refuse-Changes account_expired)
        (λ x.
          if-Changes (not e.reads) _ _ (λ r. unchanged)
            (λ r. with_password-Changes u (password request.username db.passwords) refl))

  pub post_login-Changes : Changes (post_login e m realm request db)
  unfolding post_login
  post_login-Changes =
      if-Changes (not (e.validates request)) _ _ (λ v. unchanged)
        (λ v. with_user-Changes (user m realm request.username))

-- Logins one after another, each in its surroundings and under the users and settings of its time.
pub record Attempt : Type 0 where
  pub env : LoginEnv
  pub manager : UserManager
  pub request : LoginRequest

unfoldable pub logins : ℕ → List Attempt → RealmRows → RealmRows
logins realm [] db = db
logins realm (a ∷ more) db = logins realm more (post_login a.env a.manager realm a.request db).rows

-- Once a user has a password in a table whose rows were hashed with the usual number of rounds and
-- stand under their ascending identifiers, no login
-- of anyone replaces it, one login after another: the user's password stays the same row with the same
-- hash, salt and rounds, and a TOTP secret that it has stays.
pub logins_keep :
    (realm : ℕ) (more : List Attempt) (user : List ℕ) (db : RealmRows) {p : PasswordData}
    → IsTidy db.passwords
    → password user db.passwords ≡ some p
    → (q : PasswordData) × (password user (logins realm more db).passwords ≡ some q)
      × HasPassword p q
unfolding logins
logins_keep realm [] user db {p} t h = (p, h, HasPassword-refl p)
logins_keep realm (a ∷ more) user db {p} t h =
    let next = post_login a.env a.manager realm a.request db in
    let c = post_login-Changes a.env a.manager realm a.request db in
    let (q, f, k) =
      Changed-keeps a.request.username user db.passwords next.rows.passwords {q = p} t c h in
    let (r, g, l) =
      logins_keep realm more user next.rows {p = q}
        (Changed-IsTidy a.request.username db.passwords next.rows.passwords t c) f in
    (r, g, HasPassword-trans p q r k l)
