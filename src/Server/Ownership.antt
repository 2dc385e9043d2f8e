-- ===== src/Server/Ownership.antt =====
-- The grant table (`Ownership` of sandpolis-server/src/ownership.rs): who owns the data of which
-- instance. The rows stand in a `ResidentVec`; the lock makes each operation one step. The
-- environment `v` is that of the rows, and `fresh` gives the random identifier of the row pushed
-- for an instance. The epoch's `u64` range is not exceeded in practice and is not modelled.
pub mod Grants
pub mod Rows
pub mod Claims
pub mod Fencing
pub mod Owned
pub mod Handover
pub mod Mirror
pub mod Local
pub mod Watcher
use sandpolis.Prelude.{
  ℕ, ◌+◌, Bool, true, false, not, ◌&&◌, ◌||◌, Option, none, some, List, [], ◌∷◌, Result, ok, err,
  find, filter, ltb, ◌==◌, if◌then◌else◌,
}
use sandpolis.Prelude.Maps.{Assoc}
use sandpolis.Database.Revision.{latest}
use sandpolis.Database.Scope.{ScopeTable, set_owned, WriteAuthority, global}
use sandpolis.Database.Resident.{Row, Write, Error, Env}
use sandpolis.Database.Resident.Vec.{Outcome, push_inner, remove_inner, update_at}
use sandpolis.Server.Hydration.{OwnedScope}

pub record OwnershipData : Type 0 where
  pub instance_id : ℕ
  pub owner : ℕ
  pub epoch : ℕ

abbrev pub Grants : Type 0
Grants = Assoc (Row OwnershipData)

-- `self.grants.iter().find(|g| g.read().instance == instance)`, with the key that it stands under.
unfoldable pub find_grant : ℕ → Grants → Option (ℕ × Row OwnershipData)
find_grant i g = find (λ e. e.1.content.instance_id == i) g

-- The derived equality.
abbrev same_data : OwnershipData → OwnershipData → Bool
same_data a b = a.instance_id == b.instance_id && a.owner == b.owner && a.epoch == b.epoch

-- The environment of a grant's row: it belongs to no instance and is not temporal, so no new
-- identifier is drawn for it.
abbrev pub grant_env : WriteAuthority → (List (Write OwnershipData) → Bool) → Env OwnershipData
grant_env authority commits = record {
  authority = authority;
  commits = commits;
  scope = λ d. global;
  temporal = false;
  same_content = same_data;
  random = 0;
}

unfoldable pub take_over : ℕ → OwnershipData → OwnershipData
take_over claimer d =
    if not (d.owner == claimer) then record d { owner = claimer; epoch = d.epoch + 1 } else d

unfoldable pub new_grant : ℕ → ℕ → ℕ → ℕ → Row OwnershipData
new_grant id i owner epoch = record {
  id = id;
  revision = latest 1;
  content = record { instance_id = i; owner = owner; epoch = epoch };
}

-- The mutator of `mirror_set`.
abbrev pub mirror_data : ℕ → OwnedScope → OwnershipData → OwnershipData
mirror_data self s d = record d { owner = self; epoch = s.epoch }

-- What the loop of `claim` returns: `?` leaves it.
left_loop :
    Result Error (Unit {0})
    → Grants
    → Result Error (Unit {0}) × Grants
    → Result Error (Unit {0}) × Grants
left_loop (ok u) g rest = rest
left_loop (err e) g rest = (err e, g)

module _ (v : Env OwnershipData) (fresh : ℕ → ℕ) where
  -- The two arms of the `match` in `claim`.
  claim_found : ℕ → ℕ → Grants → Option (ℕ × Row OwnershipData) → Outcome OwnershipData
  unfolding take_over new_grant update_at push_inner
  claim_found claimer i g none = push_inner v false (new_grant (fresh i) i claimer 1) g
  claim_found claimer i g (some (key, row)) =
      update_at v (λ r. some (record r { content = take_over claimer r.content })) false key row g

  unfoldable pub claim_one : ℕ → ℕ → Grants → Outcome OwnershipData
  unfolding claim_found find_grant
  claim_one claimer i g = claim_found claimer i g (find_grant i g)

  unfoldable pub claim : ℕ → List ℕ → Grants → Result Error (Unit {0}) × Grants
  unfolding claim_one left_loop
  claim claimer [] g = (ok tt, g)
  claim claimer (i ∷ is) g =
      let skipped = claim claimer is g in
      let o = claim_one claimer i g in
      let rest = claim claimer is o.rows in
      if i == claimer then skipped else left_loop o.result o.rows rest

  mirror_found : ℕ → OwnedScope → Grants → Option (ℕ × Row OwnershipData) → Outcome OwnershipData
  unfolding new_grant update_at push_inner
  mirror_found self s g none =
      push_inner v true (new_grant (fresh s.instance_id) s.instance_id self s.epoch) g
  mirror_found self s g (some (key, row)) =
      update_at v (λ r. some (record r { content = mirror_data self s r.content })) true key row g

  unfoldable pub mirror_set : ℕ → OwnedScope → Grants → Outcome OwnershipData
  unfolding mirror_found find_grant
  mirror_set self s g = mirror_found self s g (find_grant s.instance_id g)

  remove_found : Grants → Option (ℕ × Row OwnershipData) → Outcome OwnershipData
  unfolding remove_inner
  remove_found g none = record { result = ok tt; rows = g; writes = []; notices = [] }
  remove_found g (some (key, row)) = remove_inner v true row.id g

  unfoldable pub mirror_remove : ℕ → Grants → Outcome OwnershipData
  unfolding remove_found find_grant
  mirror_remove i g = remove_found g (find_grant i g)

-- The derived order on `OwnedScope`, and a stable sort by it.
abbrev pub scope_le : OwnedScope → OwnedScope → Bool
scope_le a b =
    ltb a.instance_id b.instance_id || (a.instance_id == b.instance_id && not (ltb b.epoch a.epoch))

unfoldable pub insert_scope : OwnedScope → List OwnedScope → List OwnedScope
insert_scope s [] = s ∷ []
insert_scope s (x ∷ xs) =
    let rest = insert_scope s xs in if scope_le s x then s ∷ x ∷ xs else x ∷ rest

unfoldable pub sort_scopes : List OwnedScope → List OwnedScope
sort_scopes [] = []
sort_scopes (s ∷ ss) = insert_scope s (sort_scopes ss)

-- The `filter_map` of `owned_by`.
unfoldable pub scopes_of : ℕ → Grants → List OwnedScope
scopes_of owner [] = []
scopes_of owner ((key, row) ∷ g) =
    let rest = scopes_of owner g in
    if row.content.owner == owner
    then record { instance_id = row.content.instance_id; epoch = row.content.epoch } ∷ rest
    else rest

unfoldable pub owned_by : ℕ → Grants → List OwnedScope
unfolding scopes_of sort_scopes
owned_by owner g = sort_scopes (scopes_of owner g)

-- The loop of `restore`, for the server `self`.
restore_all : ℕ → Grants → ScopeTable → ScopeTable
unfolding set_owned
restore_all self [] t = t
restore_all self ((key, row) ∷ g) t =
    restore_all self g (
      if row.content.owner == self
      then set_owned row.content.instance_id row.content.epoch t
      else t)

restore_as : Option ℕ → Grants → ScopeTable → ScopeTable
unfolding restore_all
restore_as none g t = t
restore_as (some self) g t = restore_all self g t

unfoldable pub restore : Grants → ScopeTable → ScopeTable
unfolding restore_as
restore g t = restore_as t.self_id g t
