-- ===== src/Server/User/Passwords/Newest.antt =====
-- The password that a user has after a new row of the user's own (`password` and `new_password` in
-- sandpolis-server/src/user/server.rs): of the rows, the one created last.
use sandpolis.Prelude.{
  ℕ, ◌≤◌, ◌<◌, ◌≡◌, ap, ◌∙◌, inl, inr, true, false, ◌&&◌, Option, none, some, List, [], ◌∷◌, ltb,
  ◌==◌, arith, Bool-cases, Option-cases,
}
use sandpolis.Prelude.Maps.{Assoc, store, get}
use sandpolis.Instance.Permission.{same_string, same_string_refl}
use sandpolis.Server.User.{PasswordData}
use sandpolis.Server.User.Passwords.{password, is_latest, later}

later_bounds :
    (q : PasswordData) (o : Option PasswordData)
    → (q.creation ≤ (later q o).creation)
      × ((r : PasswordData) → o ≡ some r → r.creation ≤ (later q o).creation)
later_bounds q none = (omega arith, λ r h. cc h)
later_bounds q (some s) = (ground arith, λ r h. ground arith)

get-cons-none :
    (i k : ℕ) (q : PasswordData) (rows : Assoc PasswordData)
    → get i ((k, q) ∷ rows) ≡ none
    → ((k == i) ≡ false) × (get i rows ≡ none)
unfolding get
get-cons-none i k q rows g = (ground arith, ground arith)

module _ (user : List ℕ) (p : PasswordData) where
  -- Every password that the scan could find is older.
  abbrev pub AllOlder : Assoc PasswordData → Type 0
  AllOlder rows = (q : PasswordData) → password user rows ≡ some q → q.creation < p.creation

  AllOlder-tail :
      (k : ℕ) (q : PasswordData) (rows : Assoc PasswordData)
      → AllOlder ((k, q) ∷ rows)
      → AllOlder rows
  unfolding password
  AllOlder-tail k q rows c r h =
      let b = (later_bounds q (password user rows)).1 r h in
      elim (Bool-cases (same_string q.user user && is_latest q.revision)) [
        | inl y ↦ let d = c (later q (password user rows)) (ground arith) in omega arith
        | inr n ↦ c r (ground arith)
      ]

  module _ (own : p.user ≡ user) (is_new : is_latest p.revision ≡ true) where
    newest_first :
        (rows : Assoc PasswordData) → AllOlder rows → password user ((p.id, p) ∷ rows) ≡ some p
    unfolding password
    newest_first rows c =
        let y = ap (λ s. same_string s user) own ∙ same_string_refl user in
        elim (Option-cases (password user rows)) [
          | inl h ↦ ground arith
          | inr (r, h) ↦ let d = c r h in ground arith
        ]

    newest_behind :
        (k : ℕ) (q : PasswordData) (rows rows' : Assoc PasswordData)
        → AllOlder ((k, q) ∷ rows)
        → password user rows' ≡ some p
        → password user ((k, q) ∷ rows') ≡ some p
    unfolding password
    newest_behind k q rows rows' c h =
        let b = (later_bounds q (password user rows)).0 in
        elim (Bool-cases (same_string q.user user && is_latest q.revision)) [
          | inl y ↦ let d = c (later q (password user rows)) (ground arith) in ground arith
          | inr n ↦ ground arith
        ]

    -- A new row of the user that is created after the user's others is the password.
    pub password-newest :
        (rows : Assoc PasswordData)
        → get p.id rows ≡ none
        → AllOlder rows
        → password user (store p.id p rows) ≡ some p
    unfolding store
    password-newest [] g c = newest_first [] c
    password-newest ((k, q) ∷ rows) g c =
        let (d, h) = get-cons-none p.id k q rows g in
        let w =
          newest_behind k q rows (store p.id p rows) c
            (password-newest rows h (AllOlder-tail k q rows c)) in
        let z = newest_first ((k, q) ∷ rows) c in
        rw d (elim (Bool-cases (ltb p.id k)) [ inl l ↦ rw l z | inr l ↦ rw l w ])
