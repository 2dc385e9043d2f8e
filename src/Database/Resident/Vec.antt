-- ===== src/Database/Resident/Vec.antt =====
-- `ResidentVec` of sandpolis-instance/src/database/mod.rs: a cache of the rows that a query
-- selects, in the order of their keys, with the notices that its listeners get. A condition is a
-- test of a row. A row of the cache is shared with the holders of its handle, so an update through
-- a handle is an update of the cache. A failed assertion ends the handler: no result.
pub mod Watch
pub mod Races
pub mod Search
pub mod Leaves
use sandpolis.Prelude.{
  ℕ, Bool, true, false, not, ◌&&◌, Option, none, some, List, [], ◌∷◌, Result, ok, err,
  if◌then◌else◌,
}
use sandpolis.Prelude.Maps.{Assoc, get, store, erase}
use sandpolis.Database.Revision.{same_revision, revision_le}
use sandpolis.Database.Resident.{
  Row, Write, insert, remove, Error, duplicate_key, not_found, not_writable, not_committed, Env,
  may_open, update_inner, accept,
}

-- A change that the database's watcher reports.
pub data Event (T : Type 0) : Type 0 where
  on_insert on_update on_delete : Row T → Event T

-- `ResidentVecEvent`.
pub data Notice (T : Type 0) : Type 0 where
  added updated : Row T → Notice T
  removed : ℕ → Notice T

pub record Outcome (T : Type 0) : Type 0 where
  pub result : Result Error (Unit {0})
  pub rows : Assoc (Row T)
  pub writes : List (Write T)
  pub notices : List (Notice T)

-- The cache after an event and the notices sent.
abbrev pub Handled : Type 0 → Type 0
Handled T = Option (Assoc (Row T) × List (Notice T))

module _ {T : Type 0} where
  abbrev pub first_holds : List (Row T → Bool) → Row T → Bool
  first_holds [] row = true
  first_holds (c ∷ cs) row = c row

  abbrev pub all_hold : List (Row T → Bool) → Row T → Bool
  all_hold [] row = true
  all_hold (c ∷ cs) row = c row && all_hold cs row

  abbrev pub rest_hold : List (Row T → Bool) → Row T → Bool
  rest_hold [] row = true
  rest_hold (c ∷ cs) row = all_hold cs row

  insert_new : Row T → Assoc (Row T) → Assoc (Row T) × List (Notice T)
  insert_new row rows = (store row.id row rows, added row ∷ [])

  -- Past the conditions of an insertion: the entry that is there, if any, is looked at first.
  insert_over : Row T → Assoc (Row T) → Option (Row T) → Assoc (Row T) × List (Notice T)
  unfolding insert_new
  insert_over row rows none = insert_new row rows
  insert_over row rows (some old) =
      if same_revision old.revision row.revision then (rows, []) else insert_new row rows

  update_over : Row T → Assoc (Row T) → Option (Row T) → Assoc (Row T) × List (Notice T)
  unfolding insert_new accept
  update_over row rows none = insert_new row rows
  update_over row rows (some old) = (
    store row.id (accept row old) rows,
    if revision_le old.revision row.revision then updated row ∷ [] else [],
  )

  delete_over : Row T → Assoc (Row T) → Option (Row T) → Assoc (Row T) × List (Notice T)
  delete_over row rows none = (rows, [])
  delete_over row rows (some old) = (erase row.id rows, removed row.id ∷ [])

  unfoldable pub handle_event : List (Row T → Bool) → Event T → Assoc (Row T) → Handled T
  unfolding insert_over update_over delete_over
  handle_event conditions (on_insert row) rows =
      if not (first_holds conditions row)
      then none
      else if not (rest_hold conditions row)
      then some (rows, [])
      else some (insert_over row rows (get row.id rows))
  handle_event conditions (on_update row) rows = some (update_over row rows (get row.id rows))
  handle_event conditions (on_delete row) rows = some (delete_over row rows (get row.id rows))

  -- The row is in the cache before its transaction is committed, and stays when that fails.
  pushed : Env T → Row T → Assoc (Row T) → Outcome T
  pushed v row rows =
      if v.commits (insert row ∷ [])
      then record {
        result = ok tt;
        rows = store row.id row rows;
        writes = insert row ∷ [];
        notices = added row ∷ [];
      }
      else record {
        result = err not_committed;
        rows = store row.id row rows;
        writes = [];
        notices = [];
      }

  push_over : Env T → Row T → Assoc (Row T) → Option (Row T) → Outcome T
  unfolding pushed
  push_over v row rows none = pushed v row rows
  push_over v row rows (some old) = record {
    result = err duplicate_key;
    rows = rows;
    writes = [];
    notices = [];
  }

  unfoldable pub push_inner : Env T → Bool → Row T → Assoc (Row T) → Outcome T
  unfolding may_open push_over
  push_inner v local row rows =
      if not (may_open v local row)
      then record { result = err not_writable; rows = rows; writes = []; notices = [] }
      else push_over v row rows (get row.id rows)

  remove_row : Env T → Bool → Assoc (Row T) → Option (Row T) → Outcome T
  unfolding may_open
  remove_row v local rows none = record {
    result = err not_found;
    rows = rows;
    writes = [];
    notices = [];
  }
  remove_row v local rows (some row) =
      if not (may_open v local row)
      then record { result = err not_writable; rows = rows; writes = []; notices = [] }
      else if v.commits (remove row ∷ [])
      then record { result = ok tt; rows = rows; writes = remove row ∷ []; notices = [] }
      else record { result = err not_committed; rows = rows; writes = []; notices = [] }

  -- The entry itself goes when the watcher reports the deletion.
  unfoldable pub remove_inner : Env T → Bool → ℕ → Assoc (Row T) → Outcome T
  unfolding remove_row
  remove_inner v local id rows = remove_row v local rows (get id rows)

  -- `Resident::update` through the handle that stands under `key`.
  unfoldable pub update_at :
      Env T → (Row T → Option (Row T)) → Bool → ℕ → Row T → Assoc (Row T) → Outcome T
  unfolding update_inner
  update_at v mutator local key row rows =
      let m = update_inner v mutator local row in
      record { result = m.result; rows = store key m.cached rows; writes = m.writes; notices = [] }
