-- ===== src/Server/Hydration.antt =====
-- The local stratum side of the claim stream (`OwnershipRequester` of
-- sandpolis-server/src/ownership.rs): what an `Owned` event and the end of a hydration do to the
-- scope table. A spawned hydration is a pending task; whether the upstream link can be upgraded
-- is an argument. The writes to the mirror of the grants are returned in order: they are
-- best-effort (a failure is only logged) and `Server.Ownership` says what each does.
pub mod Grants
pub mod Event
pub mod Tasks
pub mod Gains
pub mod Epochs
use sandpolis.Prelude.{
  ℕ, Bool, true, false, not, Option, none, some, List, [], ◌∷◌, ◌++◌, any, ◌==◌, if◌then◌else◌,
}
use sandpolis.Database.Scope.{
  ScopeTable, ScopeState, hydrating, owned_at, state, tracked, begin_hydrating, set_owned, release,
}

pub record OwnedScope : Type 0 where
  pub instance_id : ℕ
  pub epoch : ℕ

pub data MirrorWrite : Type 0 where
  mirror_set : ℕ → OwnedScope → MirrorWrite
  mirror_remove : ℕ → MirrorWrite

pub record Edge : Type 0 where
  pub table : ScopeTable
  pub tasks : List OwnedScope
  pub writes : List MirrorWrite

-- `scopes.iter().any(|s| s.instance == instance)`.
unfoldable pub lists : List OwnedScope → ℕ → Bool
lists scopes i = any (λ s. s.instance_id == i) scopes

pub revoke_one : ℕ → Edge → Edge
revoke_one i e = record e { table = release i e.table; writes = e.writes ++ mirror_remove i ∷ [] }

-- The loop over `self.table.tracked()`, a snapshot taken before it.
pub revoke_missing : List OwnedScope → List ℕ → Edge → Edge
unfolding revoke_one
revoke_missing scopes [] e = e
revoke_missing scopes (i ∷ is) e =
    revoke_missing scopes is (if not (lists scopes i) then revoke_one i e else e)

unfoldable pub hydrate : Bool → OwnedScope → Edge → Edge
hydrate link s e =
    if link
    then record e { table = begin_hydrating s.instance_id e.table; tasks = e.tasks ++ s ∷ [] }
    else record e { table = release s.instance_id (begin_hydrating s.instance_id e.table) }

-- `mirror_remove`, then `hydrate`.
renew : Bool → OwnedScope → Edge → Edge
unfolding hydrate
renew link s e = hydrate link s (record e { writes = e.writes ++ mirror_remove s.instance_id ∷ [] })

-- The `match self.table.state(scope.instance)`.
pub apply_state : Bool → OwnedScope → Edge → Option ScopeState → Edge
unfolding renew
apply_state link s e none = renew link s e
apply_state link s e (some hydrating) = e
apply_state link s e (some (owned_at epoch)) = if epoch == s.epoch then e else renew link s e

pub apply_grant : Bool → OwnedScope → Edge → Edge
unfolding apply_state
apply_grant link s e = apply_state link s e (state s.instance_id e.table)

pub apply_grants : Bool → List OwnedScope → Edge → Edge
unfolding apply_grant
apply_grants link [] e = e
apply_grants link (s ∷ ss) e = apply_grants link ss (apply_grant link s e)

-- `on_message` of an `Owned { scopes }` event.
unfoldable pub on_message : Bool → List OwnedScope → Edge → Edge
unfolding apply_grants revoke_missing
on_message link scopes e = apply_grants link scopes (revoke_missing scopes (tracked e.table) e)

mirrored : Option ℕ → OwnedScope → List MirrorWrite
mirrored none s = []
mirrored (some self) s = mirror_set self s ∷ []

pub complete_state : OwnedScope → Edge → Option ScopeState → Edge
unfolding mirrored
complete_state s e (some hydrating) = record e {
  table = set_owned s.instance_id s.epoch e.table;
  writes = e.writes ++ mirrored e.table.self_id s;
}
complete_state s e o = e

-- The task of `s` after its snapshot is complete.
pub complete : OwnedScope → Edge → Edge
unfolding complete_state
complete s e = complete_state s e (state s.instance_id e.table)

-- The task of `s` after the link died, or after the subscription could not be opened.
pub abandon : OwnedScope → Edge → Edge
abandon s e = record e { table = release s.instance_id e.table }
