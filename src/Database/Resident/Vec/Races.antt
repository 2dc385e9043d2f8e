-- ===== src/Database/Resident/Vec/Races.antt =====
-- Where the cache of a `ResidentVec` and the database can part: a failed commit, a late report of
-- an insertion, an update reported for a row that the query does not select.
use sandpolis.Prelude.{
  ℕ, ◌≡◌, refl, ◌≢◌, Bool, true, none, some, List, [], ◌∷◌, err, arith, ◌==◌, if◌then◌else◌,
}
use sandpolis.Prelude.Maps.{Assoc, get, store, get-store}
use sandpolis.Database.Revision.{number}
use sandpolis.Database.Resident.{Row, Env, not_committed, duplicate_key}
use sandpolis.Database.Resident.Vec.{
  on_insert, on_update, added, all_hold, first_holds, rest_hold, handle_event, push_inner,
}

all_hold-first :
    {T : Type 0} (conditions : List (Row T → Bool)) (row : Row T)
    → all_hold conditions row ≡ true
    → first_holds conditions row ≡ true
all_hold-first [] row h = refl
all_hold-first (c ∷ cs) row h = ground arith

all_hold-rest :
    {T : Type 0} (conditions : List (Row T → Bool)) (row : Row T)
    → all_hold conditions row ≡ true
    → rest_hold conditions row ≡ true
all_hold-rest [] row h = refl
all_hold-rest (c ∷ cs) row h = ground arith

-- A late report of an insertion takes the row back: of a row that meets the query's conditions,
-- it replaces whatever row of another revision number the cache holds under the same key, a
-- newer one included, and is announced as new.
pub insert_overwrites :
    {T : Type 0} (conditions : List (Row T → Bool)) (row old : Row T) (rows : Assoc (Row T))
    → all_hold conditions row ≡ true
    → get row.id rows ≡ some old
    → number old.revision ≢ number row.revision
    → (rows' : Assoc (Row T)) × (handle_event conditions (on_insert row) rows
        ≡ some (rows', added row ∷ []))
      × ((k : ℕ) → get k rows' ≡ (if row.id == k then some row else get k rows))
unfolding handle_event
insert_overwrites conditions row old rows a g n = (
  store row.id row rows,
  ground (arith, all_hold-first conditions row a, all_hold-rest conditions row a),
  λ k. get-store row.id k row rows,
)

-- A row that the cache does not hold is added, and announced as new, when an update of it is
-- reported, whether or not the conditions of the query select it.
pub update_unselected :
    {T : Type 0} (conditions : List (Row T → Bool)) (row : Row T) (rows : Assoc (Row T))
    → get row.id rows ≡ none
    → (rows' : Assoc (Row T)) × (handle_event conditions (on_update row) rows
        ≡ some (rows', added row ∷ []))
      × ((k : ℕ) → get k rows' ≡ (if row.id == k then some row else get k rows))
unfolding handle_event
update_unselected conditions row rows g =
    (store row.id row rows, ground arith, λ k. get-store row.id k row rows)

-- A push whose transaction fails leaves its row in the cache though nothing was written, so the
-- same push tried again fails on a duplicate key.
pub push_phantom :
    {T : Type 0} (v : Env T) (local : Bool) (row : Row T) (rows : Assoc (Row T))
    → (push_inner v local row rows).result ≡ err not_committed
    → let o = push_inner v local row rows in
      (o.writes ≡ [])
      × (get row.id o.rows ≡ some row)
      × ((push_inner v local row o.rows).result ≡ err duplicate_key)
unfolding push_inner
push_phantom v local row rows h = ground (arith, get-store row.id row.id row rows)
