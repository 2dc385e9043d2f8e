-- ===== src/Database/Resident.antt =====
-- Cached rows (`Resident` and `ResidentVec` of sandpolis-instance/src/database/mod.rs).
-- The database is the crate native_db: a mutation returns the writes that it asks for in one
-- transaction, and whether they are committed is part of the environment, as is the authority.
-- `T` is the type of the rows' own fields, with the equality that it derives; its owning scope and
-- whether it is temporal come from the `#[data]` macro. A cache is a list in the order of its keys.
pub mod Identifier
pub mod Staleness
pub mod Vec
use sandpolis.Prelude.{
  ℕ, Bool, true, false, not, ◌&&◌, ◌||◌, Option, none, some, List, [], ◌∷◌, Result, ok, err, ◌==◌,
  if◌then◌else◌,
}
use sandpolis.Database.Scope.{DataScope, WriteAuthority, permits}
use sandpolis.Database.Revision.{
  DataRevision, latest, previous, number, add, same_revision, revision_le,
}
use Identifier.{new_revision}

pub record Row (T : Type 0) : Type 0 where
  pub id : ℕ
  pub revision : DataRevision
  pub content : T

pub data Write (T : Type 0) : Type 0 where
  insert upsert remove : Row T → Write T

pub data Error : Type 0 where
  mutator_failed key_changed not_writable not_committed duplicate_key not_found : Error

-- What the code takes from its surroundings.
pub record Env (T : Type 0) : Type 0 where
  pub authority : WriteAuthority
  pub commits : List (Write T) → Bool
  pub scope : T → DataScope
  pub temporal : Bool
  pub same_content : T → T → Bool
  pub random : ℕ

-- What a mutation of one cached row did: its result, the row in the cache, the committed writes.
pub record Mutation (T : Type 0) : Type 0 where
  pub result : Result Error (Unit {0})
  pub cached : Row T
  pub writes : List (Write T)

module _ {T : Type 0} where
  unfoldable pub same_row : Env T → Row T → Row T → Bool
  same_row v a b =
      a.id == b.id && same_revision a.revision b.revision && v.same_content a.content b.content

  -- `RealmDatabase::write`, or `local_write`, which every scope passes.
  unfoldable pub may_open : Env T → Bool → Row T → Bool
  may_open v local r = local || permits v.authority (v.scope r.content)

  -- The transaction for `next` over the cached `prev`, whose revision has been changed already.
  transaction : Env T → Row T → Row T → List (Write T)
  transaction v prev next = if v.temporal then insert next ∷ upsert prev ∷ [] else upsert next ∷ []

  -- A temporal row goes on under a new identifier.
  renamed : Env T → Row T → Row T → Row T
  renamed v prev next =
      if v.temporal then record next { id = new_revision prev.id v.random } else next

  commit_update : Env T → Bool → Row T → Row T → Mutation T
  unfolding transaction may_open renamed
  commit_update v local prev next =
      if not (may_open v local next)
      then record { result = err not_writable; cached = prev; writes = [] }
      else let next' = renamed v prev next in
        if v.commits (transaction v prev next')
        then record { result = ok tt; cached = next'; writes = transaction v prev next' }
        else record { result = err not_committed; cached = prev; writes = [] }

  -- The code asserts that the key is unchanged: the error `key_changed` stands for its panic, after
  -- which no write is made.
  mutated : Env T → Bool → Row T → Option (Row T) → Mutation T
  unfolding commit_update same_row
  mutated v local row none = record { result = err mutator_failed; cached = row; writes = [] }
  mutated v local row (some next) =
      if same_row v next row
      then record { result = ok tt; cached = row; writes = [] }
      else if not (next.id == row.id)
      then record { result = err key_changed; cached = row; writes = [] }
      else let next' = record next { revision = add next.revision 1 } in
        let prev' = record row { revision = previous (number (add next.revision 1)) } in
        commit_update v local prev' next'

  -- `update_inner`: the mutator returns the row that it leaves, or fails.
  unfoldable pub update_inner : Env T → (Row T → Option (Row T)) → Bool → Row T → Mutation T
  unfolding mutated
  update_inner v mutator local row = mutated v local row (mutator row)

  -- `Resident::handle_event` for an update that the watcher reports.
  unfoldable pub accept : Row T → Row T → Row T
  accept incoming cached =
      if revision_le cached.revision incoming.revision then incoming else cached
