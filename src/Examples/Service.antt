-- ===== src/Examples/Service.antt =====
-- The service theorems at a database that is a list of rows.
use sandpolis.Prelude.{
  ℕ, ◌≡◌, ◌≢◌, ◌↔◌, ◌⊎◌, refl, sym, subst, inl, inr, Bool, true, false, not, Option, none, some,
  List, [], ◌∷◌, In, any, filter, In-filter, find, arith, ◌==◌, if◌then◌else◌, Bool-cases, any-In,
  eqb_false, eqb_self,
}
use sandpolis.Database.Revision.{latest}
use sandpolis.Database.Scope.{full, permits}
use sandpolis.Database.Resident.{Row, Write, insert, upsert, remove}
use sandpolis.Database.Sync.{Access, upsert_op, apply_row}
use sandpolis.Instance.Service.{
  ServiceData, ServiceState, default_data, enables, change, update, is_row_of, stopped, running,
}
use sandpolis.Instance.Service.Rows.{Rows, CommitStores, Unique, Puts}
use sandpolis.Instance.Service.Supervisor.{
  desired, starting, spawning, Supervisor, Site, is_cancelled, book, advance, launch, proceeds,
  IsIdle, InTurn, at_first, next_move, Reach, here, then_move,
}
use sandpolis.Instance.Service.Supervisor.Tokens.{IsStopping}
use sandpolis.Instance.Service.Supervisor.Enabled.{is_some, IsReliable, Holds, Desires}
use sandpolis.Instance.Service.Supervisor.Launch.{
  wanted, first_calls, launch_runs_one, launch_supervises,
}
use sandpolis.Instance.Service.Supervisor.Overlap.{off, overlap_diverges}
use sandpolis.Instance.Service.Replica.{update_unseen}

-- The rows that are left when `id` is stored again.
abbrev others : ℕ → Rows → Rows
others id rows = filter (λ r. not (r.id == id)) rows

abbrev taken : ℕ → Rows → Bool
taken id rows = any (λ r. r.id == id) rows

abbrev commit_rows : List (Write ServiceData) → Rows → Option Rows
commit_rows [] d = some d
commit_rows (insert r ∷ ws) d = if taken r.id d then none else commit_rows ws (r ∷ others r.id d)
commit_rows (upsert r ∷ ws) d = commit_rows ws (r ∷ others r.id d)
commit_rows (remove r ∷ ws) d = commit_rows ws (others r.id d)

abbrev find_id : ℕ → Rows → Option (Row ServiceData)
find_id k d = find (λ r. r.id == k) d

abbrev list_access : Access Rows ServiceData
list_access = record {
  primary = find_id;
  scan = λ d. some d;
  commit = commit_rows;
  encode = λ r. none;
  decode = λ b. none;
}

stores : (r : Row ServiceData) (rows : Rows) → Puts r rows (r ∷ others r.id rows)
stores r rows q = (
  λ h. elim h [
    | inl e ↦ inl e
    | inr i ↦
        let (m, t) = (In-filter (λ y. not (y.id == r.id)) rows {a = q}).0 i in
        inr (m, eqb_false q.id r.id (ground (arith, t)))
  ],
  λ h. elim h [
    | inl e ↦ inl e
    | inr (m, n) ↦ inr ((In-filter (λ y. not (y.id == r.id)) rows {a = q}).1 (m, ground (arith, n)))
  ],
)

untaken :
    (rows : Rows) (r : Row ServiceData)
    → taken r.id rows ≡ false
    → (q : Row ServiceData) → In q rows
    → q.id ≢ r.id
untaken rows r f q m e =
    cc (f, any-In (λ y. y.id == r.id) rows {a = q} m (ground (arith, e, eqb_self r.id)))

stored_as :
    (r : Row ServiceData) (d rows d' : Rows) → d ≡ rows → r ∷ others r.id d ≡ d' → Puts r rows d'
stored_as r d rows d' same next =
    subst (Puts r rows) next (subst (λ y. Puts r y (r ∷ others r.id d)) same (stores r d))

list_access-CommitStores : CommitStores list_access
list_access-CommitStores = (
  λ d d' c. sym c,
  λ d d' rows r s c. elim (Bool-cases (taken r.id d)) [
    | inl t ↦ absurd (ground (arith, c, t))
    | inr f ↦
        let same : d ≡ rows = cc s in
        let next : r ∷ others r.id d ≡ d' = ground (arith, c, f) in
        (
          subst (λ y. (q : Row ServiceData) → In q y → q.id ≢ r.id) same (untaken d r f),
          (d', refl, stored_as r d rows d' same next),
        )
  ],
  λ d d' rows r s c.
      let same : d ≡ rows = cc s in
      let next : r ∷ others r.id d ≡ d' = cc c in (d', refl, stored_as r d rows d' same next),
)

-- The instance 5 hosts the service 7, which has been disabled; the instance 6 has a service of the
-- same key.
abbrev hosted : ℕ → ℕ → Bool → ServiceState → Row ServiceData
hosted id i enabled state = record {
  id = id;
  revision = latest 1;
  content = record (default_data i 7) { enabled = enabled; state = state };
}

abbrev table : Rows
table = hosted 1 5 false stopped ∷ hosted 2 6 true running ∷ []

table-Unique : Unique table
unfolding default_data
table-Unique = (λ q r m n e. ground (arith, m, n, e), λ i k q r m n e f. ground (arith, m, n, e, f))

-- Rows are written whether or not they have changed.
abbrev never_same : ServiceData → ServiceData → Bool
never_same a b = false

never_same-eq : (a b : ServiceData) → never_same a b ≡ true → a ≡ b
never_same-eq a b e = cc e

abbrev enabled_row : Row ServiceData
enabled_row = hosted 1 5 true stopped

abbrev enabled_table : Rows
enabled_table = enabled_row ∷ hosted 2 6 true running ∷ []

enable_computed :
    update list_access never_same full 99 5 7 (enables true) table
    ≡ some (enabled_table, enabled_row)
unfolding update find filter default_data change permits
enable_computed = refl

table_row : find (is_row_of 5 7) table ≡ some (hosted 1 5 false stopped)
unfolding find default_data
table_row = refl

-- A replica with the first version.
abbrev replica : Rows
replica = hosted 1 5 false stopped ∷ []

update_unseen_example : apply_row list_access upsert_op enabled_row replica ≡ some replica
unfolding find
update_unseen_example =
    update_unseen list_access list_access never_same full 99 5 7 (enables true) table enabled_table
      table (hosted 1 5 false stopped) enabled_row replica refl table_row enable_computed refl

-- The service of instance 6, launched, is enabled.
abbrev site : Site Rows
site = record {
  access = list_access;
  same = never_same;
  authority = full;
  fresh = 99;
  instance_id = 6;
  key = 7;
}

abbrev or_else : Supervisor Rows → Option (Supervisor Rows) → Supervisor Rows
or_else s none = s
or_else s (some s') = s'

abbrev nothing : Supervisor Rows
nothing = off site 0 [] (λ t. none) []

abbrev launched : Supervisor Rows
launched = or_else nothing (launch site 1 2 3 4 table)

launch_computed : launch site 1 2 3 4 table ≡ some launched
unfolding launch find permits
launch_computed = refl

-- The call of `start` that the restart makes goes on until it returns.
abbrev put : Supervisor Rows
put = advance site 0 (desired true) launched

abbrev wrote : Supervisor Rows
wrote = advance site 0 (starting 0) put

abbrev ready : Supervisor Rows
ready = advance site 0 (spawning 0) wrote

ready-InTurn : InTurn site launched ready
unfolding launch advance find permits
ready-InTurn =
    next_move wrote ready
      (next_move put wrote (next_move launched put at_first (proceeds 0 (desired true) refl))
        (proceeds 0 (starting 0) refl))
      (proceeds 0 (spawning 0) refl)

ready_reached : Reach site launched ready
unfolding launch advance find permits
ready_reached =
    then_move wrote ready
      (then_move put wrote (then_move launched put here (proceeds 0 (desired true) refl))
        (proceeds 0 (starting 0) refl))
      (proceeds 0 (spawning 0) refl)

site-IsReliable : IsReliable site
site-IsReliable = (list_access-CommitStores, never_same-eq)

launch_supervises_example :
    ((c : ℕ) → launched.calls c ≡ first_calls site (wanted site (find (is_row_of 6 7) table)) c)
    × (launched.token ≡ none)
    × (IsIdle site ready → Holds site (Desires site (is_some ready.token)) ready.db)
launch_supervises_example =
    launch_supervises site 1 2 3 4 table table launched ready site-IsReliable refl table-Unique
      launch_computed ready-InTurn

launch_runs_one_example :
    ((t : ℕ)
      → ready.tasks t ≢ none
      → is_cancelled t ready ≡ false
      → (ready.token ≡ some t) ⊎ IsStopping t ready.calls)
    × (IsIdle site ready
        → (t : ℕ)
        → ((ready.tasks t ≢ none) × (is_cancelled t ready ≡ false)) ↔ (ready.token ≡ some t))
launch_runs_one_example =
    launch_runs_one site 1 2 3 4 table launched ready launch_computed ready_reached

abbrev booked : Option (Rows × Row ServiceData) → Rows × Row ServiceData
booked none = ([], enabled_row)
booked (some m) = m

abbrev desire_on : Rows × Row ServiceData
desire_on = booked (book site (enables true) table)

abbrev desire_off : Rows × Row ServiceData
desire_off = booked (book site (enables false) desire_on.0)

on_computed : book site (enables true) table ≡ some desire_on
unfolding book find permits
on_computed = refl

off_computed : book site (enables false) desire_on.0 ≡ some desire_off
unfolding book find permits filter change default_data
off_computed = refl

table_holds : Holds site (λ c. Unit) table
unfolding find default_data
table_holds = (table, hosted 2 6 true running, refl, table-Unique, refl, tt)

overlap_diverges_example :
    (s : Supervisor Rows) × Reach site (off site 0 [] (λ t. none) table) s
    × IsIdle site s
    × Holds site (Desires site false) s.db
    × (s.token ≡ some 0)
    × (s.tasks 0 ≢ none)
overlap_diverges_example =
    overlap_diverges site 0 [] (λ t. none) table desire_on desire_off site-IsReliable table_holds
      on_computed off_computed
