-- ===== src/Server/User/Configured/Loops.antt =====
-- The whole of `sync_users` (sandpolis-server/src/user/server.rs): the config is the only authority
-- over the accounts of its realm.
use mathlib.Core.List.{append-nil}
use sandpolis.Prelude.{
  ℕ, ◌≡◌, refl, sym, ap, subst, ◌∙◌, inl, inr, Option, none, some, List, [], ◌∷◌, ◌++◌, Result, ok,
  err, if◌then◌else◌, arith, Bool-cases,
}
use sandpolis.Prelude.Maps.{Assoc, Ascending}
use sandpolis.Database.Resident.{Row, update_inner}
use sandpolis.Database.Resident.Vec.{Outcome, update_at, push_inner}
use sandpolis.Instance.Permission.{same_string}
use sandpolis.Server.User.{UserData, UserConfig, PasswordData, find_user, valid_name}
use sandpolis.Server.User.Passwords.{password}
use sandpolis.Server.User.Configured.{
  SyncEnv, Synced, SyncError, after, put_config, find_row, apply_config, remove_absent, new_user,
  resume, sync_users,
}
use sandpolis.Server.User.Configured.Step.{put-Finds, ComparesUsers}
use sandpolis.Server.User.Configured.Removal.{
  deletions, deletions-append, absent, AreFiled, then_if-ok, IsOk, with_outcome, dropped,
  remove_absent-users,
}

abbrev or_else : Option UserConfig → Option UserConfig → Option UserConfig
or_else none b = b
or_else (some c) b = some c

-- The last entry of a name.
unfoldable pub last_entry : List ℕ → List UserConfig → Option UserConfig
unfolding same_string
last_entry n [] = none
last_entry n (c ∷ more) =
    or_else (last_entry n more) (if same_string c.username n then some c else none)

-- The user that an entry declares, or the one that is there.
abbrev pub declared_or : Option UserConfig → Option UserData → Option UserData
declared_or none u = u
declared_or (some c) u = some (new_user c)

declared_or_else :
    (o : Option UserConfig) (c : UserConfig) (n : List ℕ) (u : Option UserData)
    → declared_or o (if same_string c.username n then some (new_user c) else u)
      ≡ declared_or (or_else o (if same_string c.username n then some c else none)) u
declared_or_else none c n u = ground arith
declared_or_else (some d) c n u = refl

abbrev put_one : SyncEnv → UserConfig → Synced → Outcome UserData
put_one v c s = put_config v c s.users (find_row c.username s.users)

apply-ok :
    (v : SyncEnv) (c : UserConfig) (more : List UserConfig) (s : Synced)
    → IsOk (apply_config v (c ∷ more) s)
    → ((put_one v c s).result ≡ ok tt)
      × (apply_config v (c ∷ more) s ≡ apply_config v more (with_outcome (put_one v c s) s))
unfolding apply_config after
apply-ok v c more s h = elim (Bool-cases (valid_name c.username)) [
  | inr bad ↦ absurd (ground arith)
  | inl good ↦
      let (r, e) =
        then_if-ok (put_one v c s).result (with_outcome (put_one v c s) s)
          (λ t. apply_config v more t) (ground arith) in
      (r, ground arith)
]

put-deletions :
    (v : SyncEnv) (c : UserConfig) (users : Assoc (Row UserData)) (o : Option (ℕ × Row UserData))
    → deletions (put_config v c users o).writes ≡ []
unfolding deletions put_config update_at update_inner push_inner
put-deletions v c users none = ground arith
put-deletions v c users (some (k, r)) = ground arith

apply_config-users :
    (v : SyncEnv) (config : List UserConfig) (s : Synced)
    → ComparesUsers v.rows
    → Ascending s.users
    → IsOk (apply_config v config s)
    → ((n : List ℕ)
        → find_user n (apply_config v config s).users
          ≡ declared_or (last_entry n config) (find_user n s.users))
      × ((apply_config v config s).passwords ≡ s.passwords)
      × (deletions (apply_config v config s).writes ≡ deletions s.writes)
apply_config-users v [] s compares a h = unfold apply_config last_entry in (λ n. refl, refl, refl)
apply_config-users v (c ∷ more) s compares a h =
    let (r, e) = apply-ok v c more s h in
    let (finds, asc) = put-Finds v c s.users (find_row c.username s.users) compares a refl r in
    let (ih, kept, gone) =
      apply_config-users v more (with_outcome (put_one v c s) s) compares asc (subst IsOk e h) in
    rw e (
      λ n.
          ih n
          ∙ ap (declared_or (last_entry n more)) (finds n)
          ∙ last_of c more n (find_user n s.users),
      kept,
      gone
          ∙ deletions-append s.writes (put_one v c s).writes
          ∙ ap (λ rs. deletions s.writes ++ rs)
              (put-deletions v c s.users (find_row c.username s.users))
          ∙ append-nil (deletions s.writes),
    )
  where
    last_of :
        (c : UserConfig) (more : List UserConfig) (n : List ℕ) (u : Option UserData)
        → declared_or
            (last_entry n more)
            (if same_string c.username n then some (new_user c) else u)
          ≡ declared_or (last_entry n (c ∷ more)) u
    last_of c more n u = unfold last_entry in declared_or_else (last_entry n more) c n u

resume-IsOk :
    (v : SyncEnv) (config : List UserConfig) (s : Synced) (r : Result SyncError (Unit {0}))
    → s.result ≡ r
    → IsOk (resume v config s r)
    → IsOk s × (resume v config s r ≡ apply_config v config s)
unfolding resume
resume-IsOk v config s (ok u) q h = (q, refl)
resume-IsOk v config s (err e) q h = absurd (cc (h, q))

-- A run that succeeds, over rows that stand in ascending order under their own identifiers and with a
-- comparison of rows that finds only equal ones equal, deletes exactly the cached rows of users without
-- an entry, each once; leaves every name with the user that its last entry in the config declares, or
-- in the cache (which follows the deletions only afterwards) with the one it had if it has no entry;
-- and the password of exactly the cached users without an entry is gone, every other password stays.
pub sync_users_lem :
    (v : SyncEnv) (config : List UserConfig) (users : Assoc (Row UserData))
    (passwords : Assoc PasswordData)
    → ComparesUsers v.rows
    → Ascending users
    → AreFiled users users
    → (sync_users v config users passwords).result ≡ ok tt
    → (n : List ℕ)
    → let s = sync_users v config users passwords in
      (deletions s.writes ≡ absent config users)
      × (find_user n s.users ≡ declared_or (last_entry n config) (find_user n users))
      × (password n s.passwords ≡ (if dropped n config users then none else password n passwords))
unfolding sync_users
sync_users_lem v config users passwords compares a filed h n =
    let start : Synced = record {
      result = ok tt;
      users = users;
      passwords = passwords;
      writes = [];
    } in
    let s = remove_absent v config users start in
    let (first, e) = resume-IsOk v config s s.result refl h in
    let (same, deleted, pass) = remove_absent-users v config users start filed first in
    let (found, kept, gone) =
      apply_config-users v config s compares (subst Ascending (sym same) a) (subst IsOk e h) in
    rw e (
      gone ∙ deleted ∙ (unfold deletions in refl),
      found n ∙ ap (λ us. declared_or (last_entry n config) (find_user n us)) same,
      ap (password n) kept ∙ pass n,
    )
