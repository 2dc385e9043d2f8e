-- ===== src/Server/Hydration/Tasks.antt =====
-- The scope table and the pending hydrations over any interleaving of events and tasks.
use sandpolis.Prelude.{
  ℕ, ◌≡◌, refl, sym, ap, ◌≢◌, inl, inr, Bool, true, false, ◌||◌, not, Option, none, some, List, [],
  ◌∷◌, ◌++◌, any, arith, ◌==◌, if◌then◌else◌, ◌∙◌, eqb_true, Bool-cases,
}
use sandpolis.Database.Scope.{ScopeState, hydrating, owned_at, tracked}
use sandpolis.Database.Scope.History.{state-set_owned, state-release}
use sandpolis.Server.Hydration.{
  OwnedScope, Edge, lists, revoke_one, revoke_missing, hydrate, apply_state, apply_grant,
  apply_grants, on_message, complete, complete_state, abandon,
}
use sandpolis.Server.Hydration.Grants.{at, at-hydrate, at-revoke_if}

-- One step of the server: an event arrives, or one of the pending hydrations ends.
pub data Step (e : Edge) : Edge → Type 0 where
  event : (link : Bool) (scopes : List OwnedScope) → Step e (on_message link scopes e)
  finished :
      (before after : List OwnedScope) (s : OwnedScope)
      → e.tasks ≡ before ++ s ∷ after
      → Step e (complete s (record e { tasks = before ++ after }))
  died :
      (before after : List OwnedScope) (s : OwnedScope)
      → e.tasks ≡ before ++ s ∷ after
      → Step e (abandon s (record e { tasks = before ++ after }))

pub data Reach (e : Edge) : Edge → Type 0 where
  here : Reach e e
  next : {f g : Edge} → Reach e f → Step f g → Reach e g

-- A task that ends while its scope is still hydrating makes it owned at the task's epoch.
abbrev pub complete_entry :
    ℕ → OwnedScope → Option ScopeState → Option ScopeState → Option ScopeState
complete_entry j s (some hydrating) o = if s.instance_id == j then some (owned_at s.epoch) else o
complete_entry j s other o = o

-- No scope waits for a snapshot that nobody fetches.
abbrev pub IsServed : Edge → Type 0
IsServed e = (j : ℕ) → at j e ≡ some hydrating → lists e.tasks j ≡ true

lists-append : (j : ℕ) (xs ys : List OwnedScope) → lists (xs ++ ys) j ≡ (lists xs j || lists ys j)
unfolding lists any
lists-append j [] ys = refl
lists-append j (x ∷ xs) ys = ground (arith, lists-append j xs ys)

lists-cons :
    (j : ℕ) (s : OwnedScope) (ys : List OwnedScope)
    → lists (s ∷ ys) j ≡ (s.instance_id == j || lists ys j)
unfolding lists any
lists-cons j s ys = refl

hydrate-IsServed :
    (link : Bool) (s : OwnedScope) (e : Edge) → IsServed e → IsServed (hydrate link s e)
unfolding hydrate
hydrate-IsServed true s e v j h =
    ground (arith, at-hydrate j true s e, v j, lists-append j e.tasks (s ∷ []), lists-cons j s [])
hydrate-IsServed false s e v j h = ground (arith, at-hydrate j false s e, v j)

apply_state-IsServed :
    (link : Bool) (s : OwnedScope) (e : Edge) (o : Option ScopeState)
    → IsServed e
    → IsServed (apply_state link s e o)
unfolding apply_state
apply_state-IsServed link s e none v = hydrate-IsServed link s _ v
apply_state-IsServed link s e (some hydrating) v = v
apply_state-IsServed link s e (some (owned_at k)) v = elim (Bool-cases (k == s.epoch)) [
  | inl t ↦ rw t v
  | inr f ↦ rw f (hydrate-IsServed link s _ v)
]

apply_grants-IsServed :
    (link : Bool) (scopes : List OwnedScope) (e : Edge)
    → IsServed e
    → IsServed (apply_grants link scopes e)
unfolding apply_grants apply_grant
apply_grants-IsServed link [] e v = v
apply_grants-IsServed link (s ∷ ss) e v =
    apply_grants-IsServed link ss (apply_grant link s e)
      (apply_state-IsServed link s e (at s.instance_id e) v)

revoke_if-IsServed :
    (scopes : List OwnedScope) (i : ℕ) (e : Edge)
    → IsServed e
    → IsServed (if not (lists scopes i) then revoke_one i e else e)
revoke_if-IsServed scopes i e v j h =
    ground (arith, at-revoke_if j scopes i e, v j, same_tasks (not (lists scopes i)))
  where
    same_tasks : (b : Bool) → (if b then revoke_one i e else e).tasks ≡ e.tasks
    same_tasks true = unfold revoke_one in refl
    same_tasks false = refl

revoke_missing-IsServed :
    (scopes : List OwnedScope) (is : List ℕ) (e : Edge)
    → IsServed e
    → IsServed (revoke_missing scopes is e)
unfolding revoke_missing
revoke_missing-IsServed scopes [] e v = v
revoke_missing-IsServed scopes (i ∷ is) e v =
    revoke_missing-IsServed scopes is _ (revoke_if-IsServed scopes i e v)

at-complete_state :
    (j : ℕ) (s : OwnedScope) (e : Edge) (o : Option ScopeState)
    → at j (complete_state s e o) ≡ complete_entry j s o (at j e)
unfolding complete_state
at-complete_state j s e none = refl
at-complete_state j s e (some hydrating) = state-set_owned j s.instance_id s.epoch e.table
at-complete_state j s e (some (owned_at k)) = refl

-- The state of each scope when a task ends.
pub at-complete :
    (j : ℕ) (s : OwnedScope) (e : Edge)
    → at j (complete s e) ≡ complete_entry j s (at s.instance_id e) (at j e)
unfolding complete
at-complete j s e = at-complete_state j s e (at s.instance_id e)

tasks-complete : (s : OwnedScope) (e : Edge) → (complete s e).tasks ≡ e.tasks
unfolding complete
tasks-complete s e = ground arith

-- A task for another instance is still there without this one.
still_listed :
    (j : ℕ) (before after : List OwnedScope) (s : OwnedScope) (e : Edge)
    → e.tasks ≡ before ++ s ∷ after
    → (s.instance_id == j) ≡ false
    → lists e.tasks j ≡ true
    → lists (before ++ after) j ≡ true
still_listed j before after s e p n h = ground (
  arith,
  lists-append j before (s ∷ after),
  lists-append j before after,
  lists-cons j s after,
  ap (λ ts. lists ts j) p,
)

owned-ne-hydrating : (k : ℕ) → some (owned_at k) ≢ some hydrating
owned-ne-hydrating k = λ e. cc

entry_hydrating :
    (j : ℕ) (s : OwnedScope) (o x : Option ScopeState)
    → complete_entry j s o x ≡ some hydrating
    → (x ≡ some hydrating) × ((s.instance_id == j) ≡ true → o ≢ some hydrating)
entry_hydrating j s none x h = (h, λ t q. cc)
entry_hydrating j s (some hydrating) x h = elim (Bool-cases (s.instance_id == j)) [
  | inl t ↦ absurd (owned-ne-hydrating s.epoch (rw t at h))
  | inr f ↦ (rw f at h, λ t q. cc)
]
entry_hydrating j s (some (owned_at k)) x h = (h, λ t q. cc)

other_instance :
    (j : ℕ) (s : OwnedScope) (e : Edge)
    → at j e ≡ some hydrating
    → ((s.instance_id == j) ≡ true → at s.instance_id e ≢ some hydrating)
    → (s.instance_id == j) ≡ false
other_instance j s e o q = elim (Bool-cases (s.instance_id == j)) [
  | inl t ↦ absurd (q t (ap (λ i. at i e) (eqb_true s.instance_id j t) ∙ o))
  | inr f ↦ f
]

pub abandoned :
    (j : ℕ) (s : OwnedScope) (e : Edge)
    → at j (abandon s e) ≡ (if s.instance_id == j then none else at j e)
unfolding abandon
abandoned j s e = state-release j s.instance_id e.table

abandoned_hydrating :
    (j : ℕ) (s : OwnedScope) (x : Option ScopeState)
    → (if s.instance_id == j then none else x) ≡ some hydrating
    → ((s.instance_id == j) ≡ false) × (x ≡ some hydrating)
abandoned_hydrating j s x h = ground arith

Step-IsServed : {e f : Edge} → Step e f → IsServed e → IsServed f
unfolding on_message
Step-IsServed {e} (event link scopes) v =
    apply_grants-IsServed link scopes (revoke_missing scopes (tracked e.table) e)
      (revoke_missing-IsServed scopes (tracked e.table) e v)
Step-IsServed {e} (finished before after s p) v = λ j h.
    let rest = record e { tasks = before ++ after } in
    rw (tasks-complete s rest) (
      let (o, q) =
        entry_hydrating j s (at s.instance_id e) (at j e) (sym (at-complete j s rest) ∙ h) in
      still_listed j before after s e p (other_instance j s e o q) (v j o))
Step-IsServed {e} (died before after s p) v = λ j h.
    let rest = record e { tasks = before ++ after } in
    let (f, o) = abandoned_hydrating j s (at j e) (sym (abandoned j s rest) ∙ h) in
    unfold abandon in still_listed j before after s e p f (v j o)

-- Whatever events arrive and in whatever order hydrations end, complete or not: if every scope that
-- is hydrating had a pending task at the start, then every scope that is hydrating has one
-- afterwards, so no scope is left waiting for a snapshot that nobody fetches.
pub Reach-IsServed : {e f : Edge} → Reach e f → IsServed e → IsServed f
Reach-IsServed here v = v
Reach-IsServed (next r st) v = Step-IsServed st (Reach-IsServed r v)
