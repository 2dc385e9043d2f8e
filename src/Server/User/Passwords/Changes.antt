-- ===== src/Server/User/Passwords/Changes.antt =====
-- How a login may change the table of passwords (`new_password`, `new_password_with_totp` and
-- `add_totp` of sandpolis-server/src/user/server.rs), and what every user's password is after it.
use sandpolis.Prelude.{
  ℕ, ◌≡◌, refl, sym, ap, subst, ◌∙◌, inl, inr, Option, none, some, List, ◌==◌, arith, Bool-cases,
  Option-cases, eqb_true,
}
use sandpolis.Prelude.Maps.{Assoc, store, get}
use sandpolis.Server.User.{PasswordData}
use sandpolis.Server.User.Passwords.{
  Entropy, password, new_password, new_password_with_totp, add_totp, new_row, insert_row,
  upsert_row, hash_iterations,
}
use sandpolis.Server.User.Passwords.Tidy.{
  IsTidy, store-IsTidy, password-get, password-insert, password-upsert, replaced,
}

-- How a handler may change the table of passwords.
pub data Changed (name : List ℕ) (rows : Assoc PasswordData) : Assoc PasswordData → Type 0 where
  unchanged : Changed name rows rows
  inserted :
      (p : PasswordData)
      → password name rows ≡ none
      → p.user ≡ name
      → p.iterations ≡ hash_iterations
      → get p.id rows ≡ none
      → Changed name rows (store p.id p rows)
  given_secret :
      (p : PasswordData) (url : List ℕ)
      → password name rows ≡ some p
      → p.totp_secret ≡ none
      → Changed name rows (store p.id (record p { totp_secret = some url }) rows)

abbrev pub SecretKept : Option (List ℕ) → Option (List ℕ) → Type 0
SecretKept none after = Unit
SecretKept (some s) after = after ≡ some s

-- `q` has the password of `p`, and its secret if there is one.
pub record HasPassword (p q : PasswordData) : Type 0 where
  pub id : q.id ≡ p.id
  pub hash : q.hash ≡ p.hash
  pub salt : q.salt ≡ p.salt
  pub iterations : q.iterations ≡ p.iterations
  pub secret : SecretKept p.totp_secret q.totp_secret

pub Changed-IsTidy :
    (name : List ℕ) (rows after : Assoc PasswordData)
    → IsTidy rows
    → Changed name rows after
    → IsTidy after
Changed-IsTidy name rows after t unchanged = t
Changed-IsTidy name rows after t (inserted p n u i g) = store-IsTidy p rows i t
Changed-IsTidy name rows after t (given_secret p url h s) =
    let (g, u, i) = password-get name rows {p = p} t h in
    store-IsTidy (record p { totp_secret = some url }) rows i t

SecretKept-refl : (o : Option (List ℕ)) → SecretKept o o
SecretKept-refl none = tt
SecretKept-refl (some s) = refl

pub HasPassword-refl : (p : PasswordData) → HasPassword p p
HasPassword-refl p = record {
  id = refl;
  hash = refl;
  salt = refl;
  iterations = refl;
  secret = SecretKept-refl p.totp_secret;
}

SecretKept-none : (o a : Option (List ℕ)) → o ≡ none → SecretKept o a
SecretKept-none none a e = tt
SecretKept-none (some s) a e = cc e

SecretKept-trans : (o a b : Option (List ℕ)) → SecretKept o a → SecretKept a b → SecretKept o b
SecretKept-trans none a b h k = tt
SecretKept-trans (some s) none b h k = cc h
SecretKept-trans (some s) (some t) b h k = cc (h, k)

pub HasPassword-trans : (p q r : PasswordData) → HasPassword p q → HasPassword q r → HasPassword p r
HasPassword-trans p q r h k = record {
  id = k.id ∙ h.id;
  hash = k.hash ∙ h.hash;
  salt = k.salt ∙ h.salt;
  iterations = k.iterations ∙ h.iterations;
  secret = SecretKept-trans p.totp_secret q.totp_secret r.totp_secret h.secret k.secret;
}

abbrev Holds : PasswordData → Option PasswordData → Type 0
Holds q o = (r : PasswordData) × (o ≡ some r) × HasPassword q r

given_secret-Holds :
    (p q : PasswordData) (url : List ℕ)
    → p.totp_secret ≡ none
    → (q.id ≡ p.id → q ≡ p)
    → Holds q (replaced (record p { totp_secret = some url }) (some q))
given_secret-Holds p q url n same = elim (Bool-cases (q.id == p.id)) [
  | inr d ↦ (q, ground arith, HasPassword-refl q)
  | inl d ↦
      let e = same (eqb_true q.id p.id d) in
      (
        record p { totp_secret = some url },
        ground arith,
        record {
          id = ground arith;
          hash = ground arith;
          salt = ground arith;
          iterations = ground arith;
          secret = SecretKept-none q.totp_secret (some url) (ground arith);
        },
      )
]

pub Changed-keeps :
    (name user : List ℕ) (rows after : Assoc PasswordData) {q : PasswordData}
    → IsTidy rows
    → Changed name rows after
    → password user rows ≡ some q
    → (r : PasswordData) × (password user after ≡ some r) × HasPassword q r
Changed-keeps name user rows after {q} t unchanged h = (q, h, HasPassword-refl q)
Changed-keeps name user rows after {q} t (inserted p n u i g) h = (
  q,
  password-insert user p rows g (λ e. absurd (cc (ap (λ z. password z rows) (sym e ∙ u), h, n)))
      ∙ h,
  HasPassword-refl q,
)
Changed-keeps name user rows after {q} t (given_secret p url f s) h =
    let (g, u, i) = password-get name rows {p = p} t f in
    let (g', u', i') = password-get user rows {p = q} t h in
    let (r, e, k) =
      given_secret-Holds p q url s (λ d. ground (arith, ap (λ (x : ℕ). get x rows) d)) in
    (
      r,
      password-upsert user (record p { totp_secret = some url }) p refl refl refl rows t g
          ∙ ap (replaced (record p { totp_secret = some url })) h
          ∙ e,
      k,
    )

pub insert_row-some :
    (e : Entropy) (p : PasswordData) (rows : Assoc PasswordData) {q : PasswordData}
    {after : Assoc PasswordData}
    → insert_row e p rows ≡ some (q, after)
    → (get p.id rows ≡ none) × (store p.id p rows ≡ after) × (p ≡ q)
unfolding insert_row
insert_row-some e p rows h = elim (Option-cases (get p.id rows)) [
  | inr (r, g) ↦ absurd (ground arith)
  | inl g ↦ elim (Bool-cases e.stores) [
    | inr n ↦ absurd (ground arith)
    | inl y ↦ (g, ground arith, ground arith)
  ]
]

insert_row-Changed :
    (e : Entropy) (name : List ℕ) (p : PasswordData) (rows : Assoc PasswordData) {q : PasswordData}
    {after : Assoc PasswordData}
    → password name rows ≡ none
    → p.user ≡ name
    → p.iterations ≡ hash_iterations
    → insert_row e p rows ≡ some (q, after)
    → Changed name rows after
insert_row-Changed e name p rows {q} {after} n u i h =
    let (g, w, z) = insert_row-some e p rows {q = q} {after = after} h in
    subst (Changed name rows) w (inserted p n u i g)

pub new_password-Changed :
    (e : Entropy) (name pass : List ℕ) (rows : Assoc PasswordData) {q : PasswordData}
    {after : Assoc PasswordData}
    → password name rows ≡ none
    → new_password e name pass rows ≡ some (q, after)
    → Changed name rows after
unfolding new_password
new_password-Changed e name pass rows {q} {after} n h =
    insert_row-Changed e name (new_row e name pass none) rows {q = q} {after = after} n
      (unfold new_row in refl) (unfold new_row in refl) h

pub with_totp-some :
    (e : Entropy) (name pass : List ℕ) (rows : Assoc PasswordData) {q : PasswordData}
    {after : Assoc PasswordData}
    → new_password_with_totp e name pass rows ≡ some (q, after)
    → (url : List ℕ) × (insert_row e (new_row e name pass (some url)) rows ≡ some (q, after))
unfolding new_password_with_totp
with_totp-some e name pass rows h = elim (Option-cases (e.totp_url name)) [
  | inl n ↦ absurd (ground arith)
  | inr (url, u) ↦ (url, sym (rw u refl) ∙ h)
]

pub with_totp-Changed :
    (e : Entropy) (name pass : List ℕ) (rows : Assoc PasswordData) {q : PasswordData}
    {after : Assoc PasswordData}
    → password name rows ≡ none
    → new_password_with_totp e name pass rows ≡ some (q, after)
    → Changed name rows after
with_totp-Changed e name pass rows {q} {after} n h =
    let (url, w) = with_totp-some e name pass rows {q = q} {after = after} h in
    insert_row-Changed e name (new_row e name pass (some url)) rows {q = q} {after = after} n
      (unfold new_row in refl) (unfold new_row in refl) w

pub add_totp-Changed :
    (e : Entropy) (name : List ℕ) (p : PasswordData) (rows : Assoc PasswordData) {q : PasswordData}
    {after : Assoc PasswordData}
    → password name rows ≡ some p
    → p.totp_secret ≡ none
    → add_totp e p rows ≡ some (q, after)
    → Changed name rows after
unfolding add_totp upsert_row
add_totp-Changed e name p rows {q} {after} f s h = elim (Option-cases (e.totp_url p.user)) [
  | inl n ↦ absurd (ground arith)
  | inr (url, u) ↦ elim (Bool-cases e.stores) [
    | inr n ↦ absurd (ground arith)
    | inl y ↦ subst (Changed name rows) (ground arith) (given_secret p url f s)
  ]
]
