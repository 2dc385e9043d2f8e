-- ===== src/Server/User/Login/Minted.antt =====
-- What the token of a login says, and the login that sets up a password (`mint` and `post_login` of
-- sandpolis-server/src/login/server.rs).
use sandpolis.Prelude.{
  ℕ, ◌+◌, ◌/◌, ◌≤◌, ◌≡◌, ◌≢◌, refl, inl, inr, Option, none, some, List, ok, arith, Option-cases,
  leb→le,
}
use sandpolis.Prelude.Maps.{Assoc}
use sandpolis.Server.User.{
  UserData, UserManager, PasswordData, Claims, token_lifetime, second, unwrap_or,
}
use sandpolis.Server.User.Passwords.{Stored, new_password_with_totp}
use sandpolis.Server.User.Login.{
  LoginEnv, LoginRequest, logged_in, RealmRows, Answer, allow, mint, with_key, signed, claims_of,
  set_up, after_setup, lifetime_of, min,
}

min-le : (a b : ℕ) → min a b ≤ b
min-le a b = ground (arith, leb→le a b)

abbrev pub Answers : Answer → List ℕ → Type 0
Answers a token = a.response ≡ some (ok (logged_in token))

module _ (e : LoginEnv) (m : UserManager) (realm : ℕ) (request : LoginRequest) where
  -- The token is signed for the user's own name and present permissions, in this realm, and does
  -- not outlive the realm's longest lifetime.
  pub record IsMinted (u : UserData) (token : List ℕ) : Type 0 where
    pub key : List ℕ
    pub claims : Claims
    pub has_key : m.jwt_keys realm ≡ some key
    pub encoded : e.encode key claims ≡ some token
    pub sub : claims.sub ≡ u.username
    pub perms : claims.perms ≡ u.permissions
    pub of_realm : claims.realm ≡ realm
    pub lasts : claims.exp ≤ (e.minted_at + token_lifetime m realm) / second

  pub lifetime_of-le : lifetime_of e m realm request ≤ token_lifetime m realm
  unfolding lifetime_of
  lifetime_of-le =
      min-le (unwrap_or request.lifetime (token_lifetime m realm)) (token_lifetime m realm)

  signed-logged_in :
      (o : Option (List ℕ)) {t : List ℕ}
      → signed e m realm request o ≡ ok (logged_in t)
      → o ≡ some t
  unfolding signed
  signed-logged_in none h = cc h
  signed-logged_in (some s) h = cc h

  with_key-IsMinted :
      (u : UserData) (l : ℕ) (o : Option (List ℕ)) {t : List ℕ}
      → m.jwt_keys realm ≡ o
      → l ≤ token_lifetime m realm
      → with_key e m realm request (claims_of e m realm request u l) o ≡ ok (logged_in t)
      → IsMinted u t
  unfolding with_key
  with_key-IsMinted u l none k b h = cc h
  with_key-IsMinted u l (some key) {t} k b h = record {
    key = key;
    claims = claims_of e m realm request u l;
    has_key = k;
    encoded = signed-logged_in (e.encode key (claims_of e m realm request u l)) {t = t} h;
    sub = unfold claims_of in refl;
    perms = unfold claims_of in refl;
    of_realm = unfold claims_of in refl;
    lasts = unfold claims_of in omega arith;
  }

  pub allow-IsMinted :
      (u : UserData) (l : ℕ) (db : RealmRows) {t : List ℕ}
      → l ≤ token_lifetime m realm
      → Answers (allow e m realm request u l db) t
      → IsMinted u t
  unfolding allow mint
  allow-IsMinted u l db {t} b h =
      with_key-IsMinted u l (m.jwt_keys realm) {t = t} refl b (ground arith)

  pub set_up-allow :
      (u : UserData) (db : RealmRows) (o : Stored) {t : List ℕ}
      → Answers (set_up e m realm request u db o) t
      → (p : PasswordData) × (rows : Assoc PasswordData) × (o ≡ some (p, rows))
        × (p.totp_secret ≡ none)
        × IsMinted u t
  unfolding set_up after_setup
  set_up-allow u db none h = cc h
  set_up-allow u db (some (p, rows)) {t} h = elim (Option-cases p.totp_secret) [
    | inl n ↦ (
      p,
      rows,
      refl,
      n,
      allow-IsMinted u (lifetime_of e m realm request) (record db { passwords = rows }) {t = t}
          lifetime_of-le (ground arith),
    )
    | inr (url, s) ↦ absurd (ground arith)
  ]

  pub with_totp-has_secret :
      (rows : Assoc PasswordData) {p : PasswordData} {after : Assoc PasswordData}
      → new_password_with_totp e.entropy request.username request.password rows ≡ some (p, after)
      → p.totp_secret ≢ none
  unfolding new_password_with_totp
  with_totp-has_secret rows h n = ground arith
