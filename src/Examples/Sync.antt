-- ===== src/Examples/Sync.antt =====
-- The replication theorems at a concrete database: a list of rows of a number, of which each key's
-- first is the one that counts, encoded as four numbers.
use sandpolis.Prelude.{
  ℕ, zero, suc, ◌≡◌, refl, sym, ◌∙◌, inl, inr, ◌↔◌, ◌⊎◌, Bool, true, not, Option, none, some, List,
  [], ◌∷◌, In, find, find-some, filter, arith, ◌==◌, if◌then◌else◌, eqb_self, eqb_true,
}
use sandpolis.Database.Revision.{DataRevision, latest, previous, number}
use sandpolis.Database.Resident.{Row, Write, insert, upsert, remove}
use sandpolis.Database.Sync.{
  SyncRecord, of_one, Access, upsert_op, scope_matches, apply_row, snapshot_type, records_of,
  decode_and_apply,
}
use sandpolis.Database.Sync.Converge.{
  apply_rows, CommitUpserts, KeyedById, OneWriter, Holds, upserts_converge,
}
use sandpolis.Database.Sync.Snapshot.{Decodes, apply_records, snapshot_hydrates}

abbrev Rows : Type 0
Rows = List (Row ℕ)

abbrev others : ℕ → Row ℕ → Bool
others k r = not (r.id == k)

abbrev write_one : Write ℕ → Rows → Rows
write_one (insert r) d = r ∷ filter (others r.id) d
write_one (upsert r) d = r ∷ filter (others r.id) d
write_one (remove r) d = filter (others r.id) d

abbrev write_all : List (Write ℕ) → Rows → Rows
write_all [] d = d
write_all (w ∷ ws) d = write_all ws (write_one w d)

abbrev fields : ℕ → ℕ → DataRevision → List ℕ
fields i c (latest n) = i ∷ 0 ∷ n ∷ c ∷ []
fields i c (previous n) = i ∷ 1 ∷ n ∷ c ∷ []

abbrev decode_row : List ℕ → Option (Row ℕ)
decode_row (i ∷ zero ∷ n ∷ c ∷ []) = some (record { id = i; revision = latest n; content = c })
decode_row (i ∷ suc t ∷ n ∷ c ∷ []) = some (record { id = i; revision = previous n; content = c })
decode_row other = none

abbrev rows_access : Access Rows ℕ
rows_access = record {
  primary = λ k d. find (λ r. r.id == k) d;
  scan = λ d. some d;
  commit = λ ws d. some (write_all ws d);
  encode = λ r. some (fields r.id r.content r.revision);
  decode = decode_row;
}

find-others :
    (i k : ℕ) (d : Rows)
    → ¬ (i ≡ k)
    → find (λ r. r.id == k) (filter (others i) d) ≡ find (λ r. r.id == k) d
unfolding find filter
find-others i k [] n = refl
find-others i k (r ∷ d) n = ground (arith, find-others i k d n)

rows_commit : CommitUpserts rows_access
unfolding find
rows_commit r d d' k e = ground (arith, e, find-others r.id k d, eqb_self r.id)

rows_keyed : KeyedById rows_access
rows_keyed k r d p = eqb_true r.id k (find-some (λ y. y.id == k) d {a = r} p).1

decode-fields :
    (i c : ℕ) (v : DataRevision)
    → decode_row (fields i c v) ≡ some (record { id = i; revision = v; content = c })
decode-fields i c (latest n) = refl
decode-fields i c (previous n) = refl

abbrev owner_of : Option (Row ℕ → ℕ)
owner_of = some (λ r. r.content)

rows_decode : Decodes rows_access 77 (of_one 6) owner_of
rows_decode item b e = ground (arith, e, decode-fields item.id item.content item.revision)

abbrev row : ℕ → ℕ → ℕ → Row ℕ
row id revision content = record { id = id; revision = latest revision; content = content }

abbrev stored : Rows
stored = row 1 4 20 ∷ []

abbrev in_order : List (Row ℕ)
in_order = row 1 5 21 ∷ row 2 1 30 ∷ row 1 6 22 ∷ []

-- Reordered, and one row twice.
abbrev shuffled : List (Row ℕ)
shuffled = row 1 6 22 ∷ row 1 5 21 ∷ row 2 1 30 ∷ row 1 5 21 ∷ []

first_replica : apply_rows rows_access in_order stored ≡ some (row 1 6 22 ∷ row 2 1 30 ∷ [])
unfolding apply_rows apply_row find filter
first_replica = refl

second_replica : apply_rows rows_access shuffled stored ≡ some (row 2 1 30 ∷ row 1 6 22 ∷ [])
unfolding apply_rows apply_row find filter
second_replica = refl

-- The row of each key and revision.
abbrev the_row : Row ℕ → Row ℕ
the_row r =
    if number r.revision == 4
    then row 1 4 20
    else if number r.revision == 5
    then row 1 5 21
    else if number r.revision == 6
    then row 1 6 22
    else row 2 1 30

known-row : (r : Row ℕ) → (find (λ y. y.id == r.id) stored ≡ some r) ⊎ In r in_order → r ≡ the_row r
unfolding find
known-row r (inl p) = ground arith
known-row r (inr p) = ground arith

one_writer : OneWriter rows_access in_order stored
one_writer r s p q i e = known-row r p ∙ ground (arith, e) ∙ sym (known-row s q)

same_rows : (r : Row ℕ) → In r in_order ↔ In r shuffled
same_rows r = ground arith

upserts_converge_example :
    find (λ r. r.id == 1) (row 1 6 22 ∷ row 2 1 30 ∷ [])
    ≡ find (λ r. r.id == 1) (row 2 1 30 ∷ row 1 6 22 ∷ [])
upserts_converge_example =
    upserts_converge rows_access in_order shuffled stored (row 1 6 22 ∷ row 2 1 30 ∷ [])
      (row 2 1 30 ∷ row 1 6 22 ∷ []) 1 rows_commit rows_keyed one_writer same_rows first_replica
      second_replica

-- A source with a row of instance 6 and a row of instance 5, and the scope of instance 6.
abbrev source : Rows
source = row 1 4 6 ∷ row 2 1 5 ∷ []

abbrev sent : List SyncRecord
sent = record { model_id = 77; op = upsert_op; bytes = 1 ∷ 0 ∷ 4 ∷ 6 ∷ [] } ∷ []

snapshot_sent : records_of rows_access 77 (of_one 6) owner_of source ≡ some sent
unfolding records_of scope_matches
snapshot_sent = refl

snapshot_taken : snapshot_type rows_access 77 owner_of (of_one 6) source ≡ some sent
unfolding snapshot_type records_of scope_matches
snapshot_taken = refl

hydrated : apply_records rows_access 77 (of_one 6) owner_of sent [] ≡ some (row 1 4 6 ∷ [])
unfolding apply_records decode_and_apply find filter
hydrated = refl

matched : scope_matches (of_one 6) owner_of (row 1 4 6) ≡ true
unfolding scope_matches
matched = refl

snapshot_hydrates_example : Holds rows_access 1 (row 1 4 6) (row 1 4 6 ∷ [])
snapshot_hydrates_example =
    snapshot_hydrates rows_access 77 (of_one 6) owner_of source [] (row 1 4 6 ∷ []) source sent
      (row 1 4 6) rows_commit rows_decode refl snapshot_taken hydrated (inl refl) matched
