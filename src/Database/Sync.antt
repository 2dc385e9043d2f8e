-- ===== src/Database/Sync.antt =====
-- Replication (sandpolis-instance/src/database/sync.rs): records of any registered model are applied
-- to a local database, and a database is read out as records. The database (the crate native_db) and
-- the encoding of rows (the crate native_model) are parameters, one `Access` for each model; a
-- transaction that cannot be opened or committed gives no database. The task of `spawn_watch` is
-- its body for one event, `event_to_record`; channels and cancellation are not modelled.
pub mod Converge
pub mod Snapshot
use sandpolis.Prelude.{
  ℕ, Bool, true, false, not, Option, none, some, List, [], ◌∷◌, ◌++◌, ◌>>=◌, ◌==◌, if◌then◌else◌,
}
use sandpolis.Prelude.Maps.{Assoc, get, put}
use sandpolis.Database.Revision.{revision_le}
use sandpolis.Database.Resident.{Row, Write, upsert, remove}
use sandpolis.Database.Resident.Vec.{Event, on_insert, on_update, on_delete}

pub data SyncOp : Type 0 where
  upsert_op delete_op : SyncOp

pub record SyncRecord : Type 0 where
  pub model_id : ℕ
  pub op : SyncOp
  pub bytes : List ℕ

pub data FilterScope : Type 0 where
  all_rows global_rows : FilterScope
  of_one : ℕ → FilterScope

pub record SyncFilter : Type 0 where
  pub model_id : Option ℕ
  pub scope : FilterScope

-- What native_db and native_model offer for one model: a row by its key, all rows, the database
-- after a transaction of some writes, and the rows' encoding.
pub record Access (D T : Type 0) : Type 0 where
  pub primary : ℕ → D → Option (Row T)
  pub scan : D → Option (List (Row T))
  pub commit : List (Write T) → D → Option D
  pub encode : Row T → Option (List ℕ)
  pub decode : List ℕ → Option (Row T)

-- `SyncFilter::all`, `global` and `instance`.
abbrev pub filter_all : SyncFilter
filter_all = record { model_id = none; scope = all_rows }

abbrev pub filter_global : SyncFilter
filter_global = record { model_id = none; scope = global_rows }

abbrev pub filter_instance : ℕ → SyncFilter
filter_instance i = record { model_id = none; scope = of_one i }

-- `instance_of` is the function that a model was registered with, if any.
unfoldable pub scope_matches : {T : Type 0} → FilterScope → Option (Row T → ℕ) → Row T → Bool
scope_matches all_rows instance_of item = true
scope_matches global_rows none item = true
scope_matches global_rows (some f) item = false
scope_matches (of_one want) (some f) item = f item == want
scope_matches (of_one want) none item = false

-- One entry of the registry.
pub record SyncType (D : Type 0) : Type 0 where
  pub apply_bytes : SyncOp → List ℕ → D → Option D
  pub snapshot_rows : FilterScope → D → Option (List SyncRecord)

module _ {D T : Type 0} (x : Access D T) where
  unfoldable pub upsert_over : Row T → D → Option (Row T) → Option D
  upsert_over item d none = x.commit (upsert item ∷ []) d
  upsert_over item d (some existing) =
      if revision_le item.revision existing.revision then some d else x.commit (upsert item ∷ []) d

  -- The transaction that applies one row. The code ignores that a removal fails: what `commit` leaves of
  -- one is what is left then, too.
  unfoldable pub apply_row : SyncOp → Row T → D → Option D
  unfolding upsert_over
  apply_row upsert_op item d = upsert_over item d (x.primary item.id d)
  apply_row delete_op item d = x.commit (remove item ∷ []) d

  unfoldable pub decode_and_apply : SyncOp → List ℕ → D → Option D
  unfolding apply_row
  decode_and_apply op bytes d = do item ← x.decode bytes; apply_row op item d

  -- The loop of `snapshot` over the scanned rows.
  unfoldable pub records_of :
      ℕ → FilterScope → Option (Row T → ℕ) → List (Row T) → Option (List SyncRecord)
  unfolding scope_matches
  records_of model scope instance_of [] = some []
  records_of model scope instance_of (item ∷ items) =
      let rest = records_of model scope instance_of items in
      if not (scope_matches scope instance_of item) then rest else do
        bytes ← x.encode item
        out ← rest
        some (record { model_id = model; op = upsert_op; bytes = bytes } ∷ out)

  unfoldable pub snapshot_type : ℕ → Option (Row T → ℕ) → FilterScope → D → Option (List SyncRecord)
  unfolding records_of
  snapshot_type model instance_of scope d = do
    items ← x.scan d
    records_of model scope instance_of items

  -- `register_inner`, for both `register` and `register_scoped`.
  unfoldable pub register_inner : ℕ → Option (Row T → ℕ) → Assoc (SyncType D) → Assoc (SyncType D)
  unfolding decode_and_apply snapshot_type
  register_inner model instance_of types =
      put model
        (record { apply_bytes = decode_and_apply; snapshot_rows = snapshot_type model instance_of })
        types

  changed : Event T → SyncOp × Row T
  changed (on_insert item) = (upsert_op, item)
  changed (on_update item) = (upsert_op, item)
  changed (on_delete item) = (delete_op, item)

  unfoldable pub event_to_record :
      Event T → ℕ → FilterScope → Option (Row T → ℕ) → Option SyncRecord
  unfolding changed scope_matches
  event_to_record event model scope instance_of =
      let (op, item) = changed event in
      if not (scope_matches scope instance_of item)
      then none
      else do bytes ← x.encode item; some (record { model_id = model; op = op; bytes = bytes })

abbrev pub skips : Option ℕ → ℕ → Bool
skips none id = false
skips (some m) id = not (m == id)

module _ {D : Type 0} where
  apply_type : SyncRecord → D → Option (SyncType D) → Option D
  apply_type r d none = some d
  apply_type r d (some t) = t.apply_bytes r.op r.bytes d

  -- A record of an unknown model is ignored.
  unfoldable pub apply : Assoc (SyncType D) → SyncRecord → D → Option D
  unfolding apply_type get
  apply types r d = apply_type r d (get r.model_id types)

  unfoldable pub snapshot : Assoc (SyncType D) → SyncFilter → D → Option (List SyncRecord)
  snapshot [] filter d = some []
  snapshot ((id, t) ∷ types) filter d =
      let rest = snapshot types filter d in
      if skips filter.model_id id
      then rest
      else do out ← t.snapshot_rows filter.scope d; more ← rest; some (out ++ more)
