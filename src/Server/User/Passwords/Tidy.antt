-- ===== src/Server/User/Passwords/Tidy.antt =====
-- The table of passwords after a write (`insert` and `upsert` in sandpolis-server/src/user/server.rs):
-- what `password` finds of every user.
use sandpolis.Prelude.{
  ℕ, ◌≡◌, ◌≢◌, refl, ◌⊎◌, inl, inr, ◌&&◌, Option, none, some, List, [], ◌∷◌, leb, ◌==◌,
  if◌then◌else◌, arith, Bool-cases, eqb_true, eqb_false,
}
use sandpolis.Prelude.Maps.{Assoc, store, get, Ascending, store-Ascending, get-Above}
use sandpolis.Instance.Permission.{same_string, same_string-true}
use sandpolis.Server.User.{PasswordData}
use sandpolis.Server.User.Passwords.{password, is_latest, later, hash_iterations}

-- Every row stands under its identifier, and was hashed with the usual number of rounds.
abbrev pub Keyed : Assoc PasswordData → Type 0
Keyed [] = Unit
Keyed ((k, p) ∷ rows) = (p.id ≡ k) × (p.iterations ≡ hash_iterations) × Keyed rows

abbrev pub IsTidy : Assoc PasswordData → Type 0
IsTidy rows = Ascending rows × Keyed rows

store-Keyed :
    (p : PasswordData) (rows : Assoc PasswordData)
    → p.iterations ≡ hash_iterations
    → Keyed rows
    → Keyed (store p.id p rows)
unfolding store
store-Keyed p [] h k = (refl, h, tt)
store-Keyed p ((j, q) ∷ rows) h k = ground (arith, store-Keyed p rows h)

pub store-IsTidy :
    (p : PasswordData) (rows : Assoc PasswordData)
    → p.iterations ≡ hash_iterations
    → IsTidy rows
    → IsTidy (store p.id p rows)
store-IsTidy p rows h (a, k) = (store-Ascending p.id p rows a, store-Keyed p rows h k)

-- Of a row and what the rest has, the later.
later-cases :
    (q : PasswordData) (o : Option PasswordData) → (later q o ≡ q) ⊎ (o ≡ some (later q o))
later-cases q none = inl refl
later-cases q (some r) = elim (Bool-cases (leb q.creation r.creation)) [
  | inl l ↦ inr (ground arith)
  | inr l ↦ inl (ground arith)
]

password-cons :
    (user : List ℕ) (k : ℕ) (q : PasswordData) (rows : Assoc PasswordData) {p : PasswordData}
    → password user ((k, q) ∷ rows) ≡ some p
    → ((p ≡ q) × (q.user ≡ user)) ⊎ (password user rows ≡ some p)
unfolding password
password-cons user k q rows {p} h =
    elim (Bool-cases (same_string q.user user && is_latest q.revision)) [
      | inr n ↦ inr (ground arith)
      | inl y ↦ elim (later-cases q (password user rows)) [
        | inl e ↦ inl (ground arith, same_string-true q.user user (ground arith))
        | inr e ↦ inr (ground arith)
      ]
    ]

-- What the scan finds is a row of the table.
pub password-get :
    (user : List ℕ) (rows : Assoc PasswordData) {p : PasswordData}
    → IsTidy rows
    → password user rows ≡ some p
    → (get p.id rows ≡ some p) × (p.user ≡ user) × (p.iterations ≡ hash_iterations)
unfolding get
password-get user [] t h = unfold password in cc h
password-get user ((k, q) ∷ rows) {p} ((above, asc), (key, rounds, keyed)) h =
    elim (password-cons user k q rows {p = p} h) [
      | inl (e, n) ↦ ground arith
      | inr r ↦
          let (g, n, i) = password-get user rows {p = p} (asc, keyed) r in
          let l = get-Above k rows p.id {v = p} above g in ground arith
    ]

-- A new row of another user changes nothing.
pub password-insert :
    (user : List ℕ) (p : PasswordData) (rows : Assoc PasswordData)
    → get p.id rows ≡ none
    → p.user ≢ user
    → password user (store p.id p rows) ≡ password user rows
unfolding password get store
password-insert user p [] g n = ground (arith, same_string-true p.user user)
password-insert user p ((j, q) ∷ rows) g n =
    ground (arith, same_string-true p.user user, password-insert user p rows, eqb_true j p.id)

abbrev pub replaced : PasswordData → Option PasswordData → Option PasswordData
replaced p none = none
replaced p (some q) = if q.id == p.id then some p else some q

later-replaced :
    (p q : PasswordData) (o : Option PasswordData)
    → q.id ≢ p.id
    → ((r : PasswordData) → o ≡ some r → r.id ≡ p.id → r.creation ≡ p.creation)
    → some (later q (replaced p o)) ≡ replaced p (some (later q o))
later-replaced p q none n c = ground arith
later-replaced p q (some r) n c = elim (Bool-cases (r.id == p.id)) [
  | inr f ↦ ground arith
  | inl t ↦
      let w = c r refl (eqb_true r.id p.id t) in
      elim (Bool-cases (leb q.creation r.creation)) [ inl l ↦ ground arith | inr l ↦ ground arith ]
]

later-other :
    (p q : PasswordData) (o : Option PasswordData)
    → q.id ≡ p.id
    → q.creation ≡ p.creation
    → ((r : PasswordData) → o ≡ some r → r.id ≢ p.id)
    → some (later p o) ≡ replaced p (some (later q o))
later-other p q none i c n = ground arith
later-other p q (some r) i c n = let d = n r refl in ground arith

replaced-other :
    (p : PasswordData) (o : Option PasswordData)
    → ((r : PasswordData) → o ≡ some r → r.id ≢ p.id)
    → replaced p o ≡ o
replaced-other p none n = refl
replaced-other p (some r) n = let d = n r refl in ground arith

module _ (user : List ℕ) (p old : PasswordData) (same_user : p.user ≡ old.user)
    (same_revision : p.revision ≡ old.revision) (same_creation : p.creation ≡ old.creation) where
  replaced_head :
      (k : ℕ) (q : PasswordData) (rows : Assoc PasswordData)
      → IsTidy ((k, q) ∷ rows)
      → k ≡ p.id
      → q ≡ old
      → password user ((p.id, p) ∷ rows) ≡ replaced p (password user ((k, q) ∷ rows))
  unfolding password
  replaced_head k q rows ((above, asc), (key, rounds, keyed)) i o =
      let others : (r : PasswordData) → password user rows ≡ some r → r.id ≢ p.id = λ r h e.
        let (g, n, w) = password-get user rows {p = r} (asc, keyed) h in
        let l = get-Above k rows r.id {v = r} above g in absurd (omega arith) in
      elim (Bool-cases (same_string q.user user && is_latest q.revision)) [
        | inl y ↦
            let z = later-other p q (password user rows) (ground arith) (ground arith) others in
            ground arith
        | inr n ↦ let z = replaced-other p (password user rows) others in ground arith
      ]

  replaced_rest :
      (k : ℕ) (q : PasswordData) (rows rows' : Assoc PasswordData)
      → IsTidy ((k, q) ∷ rows)
      → k ≢ p.id
      → get p.id rows ≡ some old
      → password user rows' ≡ replaced p (password user rows)
      → password user ((k, q) ∷ rows') ≡ replaced p (password user ((k, q) ∷ rows))
  unfolding password
  replaced_rest k q rows rows' ((above, asc), (key, rounds, keyed)) d g ih =
      let same : (r : PasswordData)
          → password user rows ≡ some r
          → r.id ≡ p.id
          → r.creation ≡ p.creation =
        λ r h e.
          let (found, n, w) = password-get user rows {p = r} (asc, keyed) h in ground arith in
      let z = later-replaced p q (password user rows) (ground arith) same in
      elim (Bool-cases (same_string q.user user && is_latest q.revision)) [
        | inl y ↦ ground arith
        | inr n ↦ ground arith
      ]

  -- A row that is written over by one with another secret.
  pub password-upsert :
      (rows : Assoc PasswordData)
      → IsTidy rows
      → get p.id rows ≡ some old
      → password user (store p.id p rows) ≡ replaced p (password user rows)
  password-upsert [] t g = unfold get in cc g
  password-upsert ((k, q) ∷ rows) t g = elim (Bool-cases (k == p.id)) [
    | inl e ↦ unfold get store in rw e (replaced_head k q rows t (eqb_true k p.id e) (ground arith))
    | inr e ↦
        let h : get p.id rows ≡ some old = unfold get in ground arith in
        let l = get-Above k rows p.id {v = old} t.0.0 h in
        let s : store p.id p ((k, q) ∷ rows) ≡ (k, q) ∷ store p.id p rows =
          unfold store in ground arith in
        rw s (
          replaced_rest k q rows (store p.id p rows) t (eqb_false k p.id e) h
            (password-upsert rows (t.0.1, t.1.2) h))
  ]
