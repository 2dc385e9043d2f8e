-- ===== src/Examples/Database.antt =====
-- The theorems on cached rows and revisions at concrete inputs: rows of a number, in a realm whose
-- authority is full, or that of a scope table which owns nothing.
use sandpolis.Prelude.{
  ◌<◌, ℕ, ◌≤◌, ◌≡◌, refl, ◌⊎◌, Bool, true, false, Option, none, some, List, [], ◌∷◌, In, ok, err,
  ltb, arith, ◌==◌,
}
use sandpolis.Prelude.Maps.{Assoc, get}
use sandpolis.Database.Scope.{full, scoped, of_instance, no_scopes, permits, may_write, state}
use sandpolis.Database.Revision.{latest, number}
use sandpolis.Database.Resident.{accept, Row, Env, update_inner, same_row, not_committed}
use sandpolis.Database.Resident.Staleness.{by, tries, refused_tries}
use sandpolis.Database.Resident.Vec.{push_inner, remove_inner}
use sandpolis.Database.Resident.Vec.Watch.{Reaches, apply_updates, updates_newest}

abbrev row : ℕ → ℕ → ℕ → Row ℕ
row id revision content = record { id = id; revision = latest revision; content = content }

abbrev env : Bool → Env ℕ
env committed = record {
  authority = full;
  commits = λ ws. committed;
  scope = λ n. of_instance n;
  temporal = false;
  same_content = λ a b. a == b;
  random = 7;
}

abbrev replica : Env ℕ
replica = record (env true) { authority = scoped no_scopes }

abbrev set_nine : Row ℕ → Option (Row ℕ)
set_nine r = some (record r { content = 9 })

keeps_revision : (next : Row ℕ) → set_nine (row 1 4 2) ≡ some next → next.revision ≡ latest 4
keeps_revision next e = ground (arith, e)

updated : (update_inner (env true) set_nine false (row 1 4 2)).result ≡ ok tt
unfolding update_inner same_row permits
updated = refl

differs : same_row replica (row 1 4 9) (row 1 4 2) ≡ false
unfolding same_row
differs = refl

refused : permits (scoped no_scopes) (of_instance 9) ≡ false
unfolding permits may_write state get
refused = refl

-- After two tries at revision 4, the replicated revision 5 is discarded.
refused_tries_example :
    ((update_inner replica
        (by replica (λ n. 9))
        false
        (tries replica (λ n. 9) 2 (row 1 4 2))).writes
      ≡ [])
    × ((tries replica (λ n. 9) 2 (row 1 4 2)).content ≡ 2)
    × (number (tries replica (λ n. 9) 2 (row 1 4 2)).revision ≡ 6)
    × ((incoming : Row ℕ)
        → number incoming.revision < 6
        → accept incoming (tries replica (λ n. 9) 2 (row 1 4 2))
          ≡ tries replica (λ n. 9) 2 (row 1 4 2))
refused_tries_example = refused_tries replica (λ n. 9) 2 (row 1 4 2) refl refused

-- A query for contents below 5.
abbrev below_five : List (Row ℕ → Bool)
below_five = (λ r. ltb r.content 5) ∷ []

abbrev one_row : Assoc (Row ℕ)
one_row = (1, row 1 4 2) ∷ []

pushed : (push_inner (env true) false (row 2 1 3) one_row).result ≡ ok tt
unfolding push_inner permits get
pushed = refl

one_found : get 1 one_row ≡ some (row 1 4 2)
unfolding get
one_found = refl

removed_ok : (remove_inner (env true) false 1 one_row).result ≡ ok tt
unfolding remove_inner permits get
removed_ok = refl

abbrev reports : List (Row ℕ)
reports = row 1 6 3 ∷ row 2 1 4 ∷ row 1 5 2 ∷ []

updates_newest_example :
    ((r : Row ℕ) → In r reports → Reaches below_five reports one_row r)
    × ((k : ℕ) (old : Row ℕ)
        → get k one_row ≡ some old
        → (new : Row ℕ) × (get k (apply_updates below_five reports one_row) ≡ some new)
          × (number old.revision ≤ number new.revision))
    × ((k : ℕ) (new : Row ℕ)
        → get k (apply_updates below_five reports one_row) ≡ some new
        → (get k one_row ≡ some new) ⊎ In new reports)
updates_newest_example = updates_newest below_five reports one_row

two_missing : get 2 one_row ≡ none
unfolding get
two_missing = refl

not_stored : (push_inner (env false) false (row 2 1 3) one_row).result ≡ err not_committed
unfolding push_inner permits get
not_stored = refl
