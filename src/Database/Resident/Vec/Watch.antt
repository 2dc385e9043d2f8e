-- ===== src/Database/Resident/Vec/Watch.antt =====
-- What the reported changes leave in the cache.
use sandpolis.Prelude.{
  ℕ, ◌≤◌, ◌≡◌, sym, subst, ◌∙◌, ◌⊎◌, inl, inr, Bool, true, false, Option, none, some, List, [], ◌∷◌,
  In, ok, arith, Bool-cases, Option-cases, ◌==◌, if◌then◌else◌,
}
use sandpolis.Prelude.Maps.{Assoc, get, erase, get-store, get-erase}
use sandpolis.Database.Revision.{number}
use sandpolis.Database.Resident.{Row, Env, accept}
use sandpolis.Database.Resident.Staleness.{accept_newest}
use sandpolis.Database.Resident.Vec.{
  on_insert, on_update, on_delete, removed, Handled, first_holds, handle_event, push_inner,
  remove_inner,
}

module _ {T : Type 0} (v : Env T) (conditions : List (Row T → Bool)) where
  -- A successful push puts the row in the cache under its key, which was free, and changes
  -- nothing else; and if the row meets the first condition, which is the watcher's, the
  -- watcher's report of that insertion changes nothing and notifies nobody a second time.
  pub push_once :
      (local : Bool) (row : Row T) (rows : Assoc (Row T))
      → first_holds conditions row ≡ true
      → (push_inner v local row rows).result ≡ ok tt
      → let rows' = (push_inner v local row rows).rows in
        (get row.id rows ≡ none)
        × ((k : ℕ) → get k rows' ≡ (if row.id == k then some row else get k rows))
        × (handle_event conditions (on_insert row) rows' ≡ some (rows', []))
  unfolding push_inner handle_event
  push_once local row rows f h = (
    ground arith,
    λ k. ground (arith, get-store row.id k row rows),
    ground (arith, get-store row.id row.id row rows),
  )

  -- A successful removal of a row that stands under its own identifier leaves it in the cache;
  -- the watcher's report takes it out, and nothing else, and tells the listeners once: a second
  -- report is ignored.
  pub remove_once :
      (local : Bool) (id : ℕ) (rows : Assoc (Row T)) (row : Row T)
      → get id rows ≡ some row
      → row.id ≡ id
      → (remove_inner v local id rows).result ≡ ok tt
      → ((remove_inner v local id rows).rows ≡ rows)
        × ((rows' : Assoc (Row T)) × (handle_event conditions (on_delete row) rows
              ≡ some (rows', removed id ∷ []))
            × ((k : ℕ) → get k rows' ≡ (if id == k then none else get k rows))
            × (handle_event conditions (on_delete row) rows' ≡ some (rows', [])))
  unfolding remove_inner handle_event
  remove_once local id rows row g e h = (
    ground arith,
    (
      erase row.id rows,
      ground arith,
      λ k. ground (arith, get-erase row.id k rows),
      ground (arith, get-erase row.id row.id rows),
    ),
  )

-- The cache after updates are reported in turn.
after : {T : Type 0} → Handled T → Assoc (Row T) → Assoc (Row T)
after none rows = rows
after (some (rows', notices)) rows = rows'

unfoldable pub apply_updates :
    {T : Type 0} → List (Row T → Bool) → List (Row T) → Assoc (Row T) → Assoc (Row T)
unfolding after
apply_updates conditions [] rows = rows
apply_updates conditions (r ∷ rs) rows =
    apply_updates conditions rs (after (handle_event conditions (on_update r) rows) rows)

module _ {T : Type 0} (conditions : List (Row T → Bool)) where
  abbrev newer : Row T → Option (Row T) → Row T
  newer row none = row
  newer row (some old) = accept row old

  newer_ge :
      (row : Row T) (o : Option (Row T)) → number row.revision ≤ number (newer row o).revision
  unfolding accept
  newer_ge row none = ground arith
  newer_ge row (some old) = ground arith

  after_update :
      (r : Row T) (rows : Assoc (Row T)) (k : ℕ)
      → get k (after (handle_event conditions (on_update r) rows) rows)
        ≡ (if r.id == k then some (newer r (get k rows)) else get k rows)
  unfolding handle_event after
  after_update r rows k = elim (Option-cases (get r.id rows)) [
    | inl p ↦ rw p (ground (arith, get-store r.id k r rows))
    | inr (old, p) ↦ rw p (ground (arith, get-store r.id k (accept r old) rows))
  ]

  kept :
      (rs : List (Row T)) (rows : Assoc (Row T)) (k : ℕ) {old : Row T}
      → get k rows ≡ some old
      → (new : Row T) × (get k (apply_updates conditions rs rows) ≡ some new)
        × (number old.revision ≤ number new.revision)
  unfolding apply_updates
  kept [] rows k {old} g = (old, g, ground arith)
  kept (r ∷ rs) rows k {old} g = elim (Bool-cases (r.id == k)) [
    | inl t ↦
        let rows' = after (handle_event conditions (on_update r) rows) rows in
        let (new, p, q) =
          kept rs rows' k {old = accept r old} (ground (arith, after_update r rows k)) in
        (new, p, ground (arith, accept_newest r old))
    | inr f ↦
        let rows' = after (handle_event conditions (on_update r) rows) rows in
        kept rs rows' k {old = old} (ground (arith, after_update r rows k))
  ]

  -- What a list of reports leaves for the row of a key.
  abbrev pub Reaches : List (Row T) → Assoc (Row T) → Row T → Type 0
  Reaches rs rows r =
      (new : Row T) × (get r.id (apply_updates conditions rs rows) ≡ some new)
      × (number r.revision ≤ number new.revision)

  reported_first :
      (x : Row T) (rs : List (Row T)) (rows : Assoc (Row T))
      → Reaches rs (after (handle_event conditions (on_update x) rows) rows) x
  reported_first x rs rows =
      let rows' = after (handle_event conditions (on_update x) rows) rows in
      let got : get x.id rows' ≡ some (newer x (get x.id rows)) =
        ground (arith, after_update x rows x.id) in
      let (new, p, q) = kept rs rows' x.id got in
      (new, p, omega (arith, q, newer_ge x (get x.id rows)))

  reported : (rs : List (Row T)) (rows : Assoc (Row T)) (r : Row T) → In r rs → Reaches rs rows r
  unfolding apply_updates
  reported [] rows r i = absurd i
  reported (x ∷ rs) rows r (inl e) =
      subst (λ y. Reaches rs (after (handle_event conditions (on_update x) rows) rows) y) e
        (reported_first x rs rows)
  reported (x ∷ rs) rows r (inr i) =
      reported rs (after (handle_event conditions (on_update x) rows) rows) r i

  found_first :
      (r : Row T) (rs : List (Row T)) (o : Option (Row T)) (b : Bool) {new : Row T}
      → (if b then some (newer r o) else o) ≡ some new
      → (o ≡ some new) ⊎ In new (r ∷ rs)
  unfolding accept
  found_first r rs o false g = inl g
  found_first r rs none true g = ground arith
  found_first r rs (some old) true g = ground arith

  found :
      (rs : List (Row T)) (rows : Assoc (Row T)) (k : ℕ) {new : Row T}
      → get k (apply_updates conditions rs rows) ≡ some new
      → (get k rows ≡ some new) ⊎ In new rs
  unfolding apply_updates
  found [] rows k g = inl g
  found (r ∷ rs) rows k {new} g =
      elim (found rs (after (handle_event conditions (on_update r) rows) rows) k {new = new} g) [
        | inl p ↦ found_first r rs (get k rows) (r.id == k) (sym (after_update r rows k) ∙ p)
        | inr i ↦ inr (inr i)
      ]

  -- Last write wins, whatever the order of the reports: after any updates are reported, each
  -- reported row's key holds a row at least as recent as that report, no key lost its row or went
  -- back to an older revision, and a row that the cache holds was there before or is among the
  -- reports.
  pub updates_newest :
      (rs : List (Row T)) (rows : Assoc (Row T))
      → ((r : Row T) → In r rs → Reaches rs rows r)
        × ((k : ℕ) (old : Row T)
            → get k rows ≡ some old
            → (new : Row T) × (get k (apply_updates conditions rs rows) ≡ some new)
              × (number old.revision ≤ number new.revision))
        × ((k : ℕ) (new : Row T)
            → get k (apply_updates conditions rs rows) ≡ some new
            → (get k rows ≡ some new) ⊎ In new rs)
  updates_newest rs rows =
      (reported rs rows, (λ k old g. kept rs rows k g), (λ k new g. found rs rows k g))
