-- ===== src/Database/Scope.antt =====
-- Write authority (sandpolis-instance/src/database/mod.rs): which scopes a process may write. An
-- instance id is a number; the `HashMap` is an association list, since `tracked` and `owned`
-- enumerate it.
pub mod History
use sandpolis.Prelude.{ℕ, Bool, true, false, ◌||◌, Option, none, some, List, [], ◌∷◌, ◌==◌}
use sandpolis.Prelude.Maps.{Assoc, get, put, erase, keys}

pub data DataScope : Type 0 where
  global : DataScope
  of_instance : ℕ → DataScope

pub data ScopeState : Type 0 where
  hydrating : ScopeState
  owned_at : ℕ → ScopeState

pub record ScopeTable : Type 0 where
  pub self_id : Option ℕ
  pub scopes : Assoc ScopeState

-- `ScopeTable::default`.
abbrev pub no_scopes : ScopeTable
no_scopes = record { self_id = none; scopes = [] }

abbrev or_first : Option ℕ → ℕ → Option ℕ
or_first none id = some id
or_first (some first) id = some first

-- A `OnceLock` keeps the first value that it is set to.
unfoldable pub set_self : ℕ → ScopeTable → ScopeTable
set_self id t = record t { self_id = or_first t.self_id id }

unfoldable pub state : ℕ → ScopeTable → Option ScopeState
unfolding get
state i t = get i t.scopes

unfoldable pub begin_hydrating : ℕ → ScopeTable → ScopeTable
begin_hydrating i t = record t { scopes = put i hydrating t.scopes }

unfoldable pub set_owned : ℕ → ℕ → ScopeTable → ScopeTable
set_owned i epoch t = record t { scopes = put i (owned_at epoch) t.scopes }

unfoldable pub release : ℕ → ScopeTable → ScopeTable
release i t = record t { scopes = erase i t.scopes }

unfoldable pub tracked : ScopeTable → List ℕ
tracked t = keys t.scopes

owned_entries : Assoc ScopeState → List (ℕ × ℕ)
owned_entries [] = []
owned_entries ((i, hydrating) ∷ m) = owned_entries m
owned_entries ((i, owned_at epoch) ∷ m) = (i, epoch) ∷ owned_entries m

unfoldable pub owned : ScopeTable → List (ℕ × ℕ)
unfolding owned_entries
owned t = owned_entries t.scopes

abbrev pub is_self : Option ℕ → ℕ → Bool
is_self none i = false
is_self (some s) i = s == i

abbrev pub is_owned : Option ScopeState → Bool
is_owned none = false
is_owned (some hydrating) = false
is_owned (some (owned_at epoch)) = true

unfoldable pub may_write : ScopeTable → DataScope → Bool
unfolding state
may_write t global = false
may_write t (of_instance i) = is_self t.self_id i || is_owned (state i t)

pub data WriteAuthority : Type 0 where
  full : WriteAuthority
  scoped : ScopeTable → WriteAuthority

-- `WriteAuthority::may_write`, the gate of `RealmDatabase::write`.
unfoldable pub permits : WriteAuthority → DataScope → Bool
permits full scope = true
permits (scoped t) scope = may_write t scope

unfoldable pub scope_table : WriteAuthority → Option ScopeTable
scope_table full = none
scope_table (scoped t) = some t
