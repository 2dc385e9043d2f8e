-- ===== src/Server/User/Login/Answers.antt =====
-- When the login handler answers (`post_login` of sandpolis-server/src/login/server.rs): it panics where
-- a stored password has no rounds, where no secret was set, and where a clock is out of range.
use sandpolis.Prelude.{
  ℕ, ◌+◌, ◌<◌, ◌≡◌, ◌≢◌, refl, inl, inr, Bool, true, false, not, ◌&&◌, Option, none, some, List,
  ◌==◌, if◌then◌else◌, arith, Option-cases, lt→ltb,
}
use sandpolis.Prelude.Maps.{Assoc}
use sandpolis.Server.User.{
  or_empty, UserData, UserManager, PasswordData, user, totp_required, token_lifetime, expired,
}
use sandpolis.Server.User.Passwords.{Stored, password, add_totp, upsert_row, hash_iterations}
use sandpolis.Server.User.Passwords.Tidy.{IsTidy, password-get}
use sandpolis.Server.User.Login.Minted.{lifetime_of-le}
use sandpolis.Server.User.Login.{
  LoginEnv, LoginRequest, RealmRows, Answer, post_login, with_password, with_user, allow, mint,
  first_login, set_up, after_setup, expect_secret, enrolled, check_password, check_code, check_totp,
  refuse, is_none, lifetime_of, time_limit,
}

module _ (e : LoginEnv) (m : UserManager) (realm : ℕ) (request : LoginRequest) (db : RealmRows)
    (in_time : e.minted_at + token_lifetime m realm < time_limit) where
  abbrev Responds : Answer → Type 0
  Responds a = a.response ≢ none

  if-Responds :
      (b : Bool) (x y : Answer)
      → (b ≡ true → Responds x)
      → (b ≡ false → Responds y)
      → Responds (if b then x else y)
  if-Responds true x y f g = f refl
  if-Responds false x y f g = g refl

  allow-Responds :
      (u : UserData) (rows : RealmRows)
      → Responds (allow e m realm request u (lifetime_of e m realm request) rows)
  unfolding allow mint
  allow-Responds u rows =
      let b = lifetime_of-le e m realm request in
      let l = lt→ltb (e.minted_at + lifetime_of e m realm request) time_limit (omega arith) in
      rw l (λ h. cc h)

  set_up-Responds : (u : UserData) (o : Stored) → Responds (set_up e m realm request u db o)
  unfolding set_up after_setup
  set_up-Responds u none = λ h. cc h
  set_up-Responds u (some (p, after)) = elim (Option-cases p.totp_secret) [
    | inl n ↦ rw n (allow-Responds u (record db { passwords = after }))
    | inr (url, s) ↦ rw s (λ h. cc h)
  ]

  expect-Responds :
      (rows : RealmRows) (o : Option (List ℕ))
      → o ≢ none
      → Responds (expect_secret e m realm request rows o)
  unfolding expect_secret
  expect-Responds rows none n h = n refl
  expect-Responds rows (some url) n h = cc h

  enrolled-Responds :
      (o : Stored)
      → ((p : PasswordData) (after : Assoc PasswordData)
          → o ≡ some (p, after)
          → p.totp_secret ≢ none)
      → Responds (enrolled e m realm request db o)
  unfolding enrolled
  enrolled-Responds none n = λ h. cc h
  enrolled-Responds (some (p, after)) n =
      expect-Responds (record db { passwords = after }) p.totp_secret (n p after refl)

  add_totp-has_secret :
      (p : PasswordData) (rows : Assoc PasswordData) (q : PasswordData) (after : Assoc PasswordData)
      → add_totp e.entropy p rows ≡ some (q, after)
      → q.totp_secret ≢ none
  unfolding add_totp upsert_row
  add_totp-has_secret p rows q after h n = ground arith

  check_password-Responds :
      (u : UserData) (p : PasswordData)
      → p.iterations ≡ hash_iterations
      → Responds (check_password e m realm request u db p)
  unfolding check_password refuse
  check_password-Responds u p rounds =
      if-Responds (p.iterations == 0) _ _ (λ z. absurd (ground arith))
        (λ z.
          if-Responds (not (e.verify p.iterations p.salt request.password p.hash)) _ _ (λ v h. cc h)
            (λ v.
              if-Responds (totp_required m realm && is_none p.totp_secret) _ _
                (λ t.
                  enrolled-Responds (add_totp e.entropy p db.passwords)
                    (add_totp-has_secret p db.passwords))
                (λ t. allow-Responds u db)))

  check_totp-Responds :
      (u : UserData) (p : PasswordData) (s : Option (List ℕ))
      → p.iterations ≡ hash_iterations
      → Responds (check_totp e m realm request u db p s)
  unfolding check_totp check_code refuse
  check_totp-Responds u p none rounds = check_password-Responds u p rounds
  check_totp-Responds u p (some url) rounds = elim (Option-cases (e.from_url url)) [
    | inl n ↦ rw n (λ h. cc h)
    | inr (check, c) ↦ rw c (
        if-Responds (not (check (or_empty request.totp_token))) _ _ (λ v h. cc h)
          (λ v. check_password-Responds u p rounds))
  ]

  with_password-Responds :
      (u : UserData) (o : Option PasswordData)
      → IsTidy db.passwords
      → password request.username db.passwords ≡ o
      → Responds (with_password e m realm request u db o)
  unfolding with_password first_login
  with_password-Responds u none t f =
      if-Responds (not request.setup) _ _ (λ v h. cc h) (λ v. set_up-Responds u _)
  with_password-Responds u (some p) t f =
      check_totp-Responds u p p.totp_secret
        (password-get request.username db.passwords {p = p} t f).2

  with_user-Responds :
      (o : Option UserData) → IsTidy db.passwords → Responds (with_user e m realm request db o)
  unfolding with_user refuse
  with_user-Responds none t = λ h. cc h
  with_user-Responds (some u) t =
      if-Responds (expired u.expiration e.checked_at) _ _ (λ v h. cc h)
        (λ v.
          if-Responds (not e.reads) _ _ (λ r h. cc h)
            (λ r. with_password-Responds u (password request.username db.passwords) t refl))

  -- With a table of passwords that were hashed with the usual number of rounds, and while the clock plus
  -- the realm's longest lifetime is in range, the handler gives a response, whatever it is sent.
  pub post_login-answers : IsTidy db.passwords → (post_login e m realm request db).response ≢ none
  unfolding post_login
  post_login-answers t =
      if-Responds (not (e.validates request)) _ _ (λ v h. cc h)
        (λ v. with_user-Responds (user m realm request.username) t)
