-- ===== src/Server/User/Login/Races.antt =====
-- Two first logins of a user at once (`post_login` of sandpolis-server/src/login/server.rs): a handler
-- awaits between the look for a password and the write of one, so both may find none.
use sandpolis.Prelude.{ℕ, ◌<◌, ◌≡◌, sym, ap, ◌∙◌, true, false, none, some, arith}
use sandpolis.Prelude.Maps.{get, store}
use sandpolis.Server.User.{UserData, UserManager, PasswordData, totp_required}
use sandpolis.Server.User.Passwords.{password, new_password, new_row, insert_row}
use sandpolis.Server.User.Passwords.Newest.{AllOlder}
use sandpolis.Server.User.Login.Setup.{set_up-password}
use sandpolis.Server.User.Login.{LoginEnv, LoginRequest, RealmRows, first_login, with_password}

module _ (e : LoginEnv) (m : UserManager) (realm : ℕ) (request : LoginRequest) (u : UserData)
    (db : RealmRows) where
  insert_row-fresh :
      (p : PasswordData)
      → e.entropy.stores ≡ true
      → get p.id db.passwords ≡ none
      → insert_row e.entropy p db.passwords ≡ some (p, store p.id p db.passwords)
  unfolding insert_row
  insert_row-fresh p s g = ground arith

  -- A handler that found no password and is asked to set one up has the user's password replaced,
  -- whatever was stored meanwhile.
  late-password :
      request.setup ≡ true
      → totp_required m realm ≡ false
      → e.entropy.stores ≡ true
      → get e.entropy.fresh_id db.passwords ≡ none
      → AllOlder request.username
          (new_row e.entropy request.username request.password none)
          db.passwords
      → password request.username (with_password e m realm request u db none).rows.passwords
        ≡ some (new_row e.entropy request.username request.password none)
  unfolding with_password first_login new_password
  late-password s t w g older =
      let p = new_row e.entropy request.username request.password none in
      let i = insert_row-fresh p w (unfold new_row in g) in
      rw (s, t, i)
        (set_up-password e m realm request u db none {q = p} {after = store p.id p db.passwords} i
          older)

module _ (e e' : LoginEnv) (m : UserManager) (realm : ℕ) (r r' : LoginRequest) (u u' : UserData)
    (db : RealmRows) where
  -- Two handlers that both found no password and set one up: what the first leaves.
  abbrev between : RealmRows
  between = (with_password e m realm r u db none).rows

  later_row :
      (q : PasswordData)
      → some (new_row e.entropy r.username r.password none) ≡ some q
      → e.entropy.created < e'.entropy.created
      → q.creation < (new_row e'.entropy r'.username r'.password none).creation
  unfolding new_row
  later_row q h l = ground arith

  -- Two first logins of one user that both found no password, where no TOTP is required, both store and
  -- their rows' identifiers are fresh: the first one's password is on record until the second one's
  -- write, and from then on the second one's is, if its row was created later.
  pub setup_races :
      password r.username db.passwords ≡ none
      → r'.username ≡ r.username
      → r.setup ≡ true
      → r'.setup ≡ true
      → totp_required m realm ≡ false
      → e.entropy.stores ≡ true
      → e'.entropy.stores ≡ true
      → get e.entropy.fresh_id db.passwords ≡ none
      → get e'.entropy.fresh_id between.passwords ≡ none
      → e.entropy.created < e'.entropy.created
      → (password r.username between.passwords
          ≡ some (new_row e.entropy r.username r.password none))
        × (password r.username (with_password e' m realm r' u' between none).rows.passwords
            ≡ some (new_row e'.entropy r'.username r'.password none))
  setup_races n same s s' t w w' g g' later =
      let first = late-password e m realm r u db s t w g (λ q f. cc (n, f)) in
      (
        first,
        ap (λ z. password z (with_password e' m realm r' u' between none).rows.passwords) (sym same)
            ∙ late-password e' m realm r' u' between s' t w' g' (λ q f.
              later_row q (sym (ap (λ z. password z between.passwords) same ∙ first) ∙ f) later),
      )
