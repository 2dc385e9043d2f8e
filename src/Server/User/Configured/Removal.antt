-- ===== src/Server/User/Configured/Removal.antt =====
-- The first loop of `sync_users` (sandpolis-server/src/user/server.rs): which rows it deletes, and the
-- passwords that go with them.
use mathlib.Core.List.{append-nil}
use sandpolis.Prelude.{
  ℕ, ◌≡◌, refl, sym, ap, subst, ◌∙◌, inl, inr, Bool, true, false, not, ◌&&◌, Option, none, some,
  List, [], ◌∷◌, ◌++◌, Result, ok, err, if◌then◌else◌, arith, Bool-cases,
}
use sandpolis.Prelude.Maps.{Assoc, get}
use sandpolis.Database.Resident.{Row, Write, insert, upsert, remove}
use sandpolis.Database.Resident
use sandpolis.Database.Resident.Vec.{Outcome, remove_inner}
use sandpolis.Instance.Permission.{same_string, same_string-true}
use sandpolis.Server.User.{UserData, UserConfig, PasswordData, find_user}
use sandpolis.Server.User.Passwords.{password}
use sandpolis.Server.User.Configured.{
  SyncEnv, Synced, after, then_if, remove_absent, delete_passwords, without, listed,
}
use sandpolis.Server.User.Configured.Step.{apart}

-- The rows that are deleted, in the order of their deletion.
unfoldable pub deletions : List (Write UserData) → List (Row UserData)
deletions [] = []
deletions (insert r ∷ ws) = deletions ws
deletions (upsert r ∷ ws) = deletions ws
deletions (remove r ∷ ws) = r ∷ deletions ws

pub deletions-append :
    (xs ys : List (Write UserData)) → deletions (xs ++ ys) ≡ deletions xs ++ deletions ys
unfolding deletions
deletions-append [] ys = refl
deletions-append (insert r ∷ ws) ys = deletions-append ws ys
deletions-append (upsert r ∷ ws) ys = deletions-append ws ys
deletions-append (remove r ∷ ws) ys = ap (λ rs. r ∷ rs) (deletions-append ws ys)

-- The cached rows of users without an entry.
unfoldable pub absent : List UserConfig → Assoc (Row UserData) → List (Row UserData)
absent config [] = []
absent config ((k, r) ∷ more) =
    let rest = absent config more in if listed r.content.username config then rest else r ∷ rest

-- Every row of a list is the one that the cache has under its identifier.
abbrev pub AreFiled : Assoc (Row UserData) → Assoc (Row UserData) → Type 0
AreFiled [] cache = Unit {0}
AreFiled ((k, r) ∷ more) cache = (get r.id cache ≡ some r) × AreFiled more cache

pub then_if-ok :
    (r : Result Resident.Error (Unit {0})) (t : Synced) (next : Synced → Synced)
    → (then_if r t next).result ≡ ok tt
    → (r ≡ ok tt) × (then_if r t next ≡ next t)
unfolding then_if
then_if-ok (ok u) t next h = (refl, refl)
then_if-ok (err e) t next h = cc h

abbrev pub IsOk : Synced → Type 0
IsOk s = s.result ≡ ok tt

abbrev pub with_outcome : Outcome UserData → Synced → Synced
with_outcome o s = record s { users = o.rows; writes = s.writes ++ o.writes }

-- The passwords after those of one name are deleted.
password-without :
    (user n : List ℕ) (rows : Assoc PasswordData)
    → password n (without user rows) ≡ (if same_string user n then none else password n rows)
unfolding password without
password-without user n [] = ground arith
password-without user n ((k, p) ∷ rows) =
    let ih = password-without user n rows in
    elim (Bool-cases (same_string p.user user)) [
      | inl y ↦ let e = ap (λ s. same_string s n) (same_string-true p.user user y) in ground arith
      | inr d ↦ ground (arith, apart p.user user n d)
    ]

removes_nothing :
    {T : Type 0} (v : Resident.Env T) (id : ℕ) (rows : Assoc (Row T))
    → (remove_inner v false id rows).rows ≡ rows
unfolding remove_inner
removes_nothing v id rows = ground arith

remove_inner-writes :
    {T : Type 0} (v : Resident.Env T) (id : ℕ) (rows : Assoc (Row T)) {r : Row T}
    → get id rows ≡ some r
    → (remove_inner v false id rows).result ≡ ok tt
    → (remove_inner v false id rows).writes ≡ remove r ∷ []
unfolding remove_inner
remove_inner-writes v id rows g h = ground arith

-- Rows that are deleted after others.
deleted_next :
    (before : List (Write UserData)) (r : Row UserData) (rest : List (Row UserData))
    → deletions (before ++ remove r ∷ []) ++ rest ≡ deletions before ++ (r ∷ rest)
unfolding deletions
deleted_next [] r rest = refl
deleted_next (insert q ∷ ws) r rest = deleted_next ws r rest
deleted_next (upsert q ∷ ws) r rest = deleted_next ws r rest
deleted_next (remove q ∷ ws) r rest = ap (λ rs. q ∷ rs) (deleted_next ws r rest)

abbrev is_cached : Option UserData → Bool
is_cached none = false
is_cached (some u) = true

-- Whether the first loop deletes the passwords of a name.
abbrev pub dropped : List ℕ → List UserConfig → Assoc (Row UserData) → Bool
dropped n config users = is_cached (find_user n users) && not (listed n config)

module _ (v : SyncEnv) (config : List UserConfig) where
  abbrev taken : Outcome UserData → List ℕ → Synced → Synced
  taken o name s = let t = with_outcome o s in record t { passwords = without name t.passwords }

  remove-ok :
      (k : ℕ) (r : Row UserData) (more : Assoc (Row UserData)) (s : Synced)
      → listed r.content.username config ≡ false
      → IsOk (remove_absent v config ((k, r) ∷ more) s)
      → ((remove_inner v.rows false r.id s.users).result ≡ ok tt)
        × (remove_absent v config ((k, r) ∷ more) s
            ≡ remove_absent v config more
                (taken (remove_inner v.rows false r.id s.users) r.content.username s))
  unfolding remove_absent after delete_passwords
  remove-ok k r more s l h =
      let o = remove_inner v.rows false r.id s.users in
      let next : Synced → Synced =
        λ t. delete_passwords v r.content.username t (λ t'. remove_absent v config more t') in
      let (x, e) = then_if-ok o.result (with_outcome o s) next (ground arith) in
      elim (Bool-cases v.deletes) [ inr n ↦ absurd (ground arith) | inl y ↦ (x, ground arith) ]

  kept :
      (k : ℕ) (r : Row UserData) (more : Assoc (Row UserData)) (s : Synced)
      → listed r.content.username config ≡ true
      → remove_absent v config ((k, r) ∷ more) s ≡ remove_absent v config more s
  unfolding remove_absent
  kept k r more s l = rw l refl

  still_listed :
      (n : List ℕ) (k : ℕ) (r : Row UserData) (more : Assoc (Row UserData))
      (p : Option PasswordData)
      → listed r.content.username config ≡ true
      → (if dropped n config more then none else p)
        ≡ (if dropped n config ((k, r) ∷ more) then none else p)
  unfolding find_user
  still_listed n k r more p l = elim (Bool-cases (same_string r.content.username n)) [
    | inr d ↦ rw d refl
    | inl y ↦
        let e = ap (λ s. listed s config) (same_string-true r.content.username n y) in ground arith
  ]

  now_gone :
      (n : List ℕ) (k : ℕ) (r : Row UserData) (more : Assoc (Row UserData)) (p : Assoc PasswordData)
      → listed r.content.username config ≡ false
      → (if dropped n config more then none else password n (without r.content.username p))
        ≡ (if dropped n config ((k, r) ∷ more) then none else password n p)
  unfolding find_user
  now_gone n k r more p l =
      let w = password-without r.content.username n p in
      elim (Bool-cases (same_string r.content.username n)) [
        | inr d ↦ ground arith
        | inl y ↦
            let e = ap (λ s. listed s config) (same_string-true r.content.username n y) in
            ground arith
      ]

  absent-listed :
      (k : ℕ) (r : Row UserData) (more : Assoc (Row UserData))
      → listed r.content.username config ≡ true
      → absent config more ≡ absent config ((k, r) ∷ more)
  unfolding absent
  absent-listed k r more l = rw l refl

  absent-next :
      (k : ℕ) (r : Row UserData) (more : Assoc (Row UserData))
      → listed r.content.username config ≡ false
      → r ∷ absent config more ≡ absent config ((k, r) ∷ more)
  unfolding absent
  absent-next k r more l = rw l refl

  pub remove_absent-users :
      (todo : Assoc (Row UserData)) (s : Synced)
      → AreFiled todo s.users
      → IsOk (remove_absent v config todo s)
      → ((remove_absent v config todo s).users ≡ s.users)
        × (deletions (remove_absent v config todo s).writes
            ≡ deletions s.writes ++ absent config todo)
        × ((n : List ℕ)
            → password n (remove_absent v config todo s).passwords
              ≡ (if dropped n config todo then none else password n s.passwords))
  remove_absent-users [] s filed h =
      unfold remove_absent find_user absent in
      (refl, sym (append-nil (deletions s.writes)), λ n. refl)
  remove_absent-users ((k, r) ∷ more) s (g, filed) h =
      elim (Bool-cases (listed r.content.username config)) [
        | inl l ↦
            let e = kept k r more s l in
            let (users, gone, pass) = remove_absent-users more s filed (subst IsOk e h) in
            rw e (
              users,
              gone ∙ ap (λ rs. deletions s.writes ++ rs) (absent-listed k r more l),
              λ n. pass n ∙ still_listed n k r more (password n s.passwords) l,
            )
        | inr l ↦
            let o = remove_inner v.rows false r.id s.users in
            let (x, e) = remove-ok k r more s l h in
            let same = removes_nothing v.rows r.id s.users in
            let (users, gone, pass) =
              remove_absent-users more (taken o r.content.username s)
                (subst (AreFiled more) (sym same) filed) (subst IsOk e h) in
            let w = remove_inner-writes v.rows r.id s.users {r = r} g x in
            rw e (
              users ∙ same,
              gone
                  ∙ ap (λ ws. deletions (s.writes ++ ws) ++ absent config more) w
                  ∙ deleted_next s.writes r (absent config more)
                  ∙ ap (λ rs. deletions s.writes ++ rs) (absent-next k r more l),
              λ n. pass n ∙ now_gone n k r more s.passwords l,
            )
      ]
