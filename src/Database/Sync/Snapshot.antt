-- ===== src/Database/Sync/Snapshot.antt =====
-- What a snapshot contains, and what it does to the replica that it is sent to.
use sandpolis.Prelude.{
  ℕ, ◌≡◌, refl, sym, ap, subst, ◌∙◌, ◌⊎◌, inl, inr, Bool, true, false, Option, none, some, List, [],
  ◌∷◌, In, ◌>>=◌, filter, In-filter, arith, Bool-cases,
}
use sandpolis.Database.Resident.{Row}
use sandpolis.Database.Sync.{
  SyncRecord, FilterScope, Access, upsert_op, scope_matches, apply_row, decode_and_apply,
  records_of, snapshot_type,
}
use sandpolis.Database.Sync.Converge.{CommitUpserts, apply_rows, arrived, Holds}

some_inj : {A : Type 0} {a b : A} → some a ≡ some b → a ≡ b
some_inj p = cc p

module _ {D T : Type 0} (x : Access D T) (model : ℕ) (scope : FilterScope)
    (instance_of : Option (Row T → ℕ)) where
  -- A record of `item`.
  abbrev pub IsRecordOf : Row T → SyncRecord → Type 0
  IsRecordOf item r = (r.model_id ≡ model) × (r.op ≡ upsert_op) × (x.encode item ≡ some r.bytes)

  split_out :
      (b : Option (List ℕ)) (o : Option (List SyncRecord)) (out : List SyncRecord)
      → (b >>= (λ bytes.
          o >>= (λ rest. some (record { model_id = model; op = upsert_op; bytes = bytes } ∷ rest))))
        ≡ some out
      → (bytes : List ℕ) × (rest : List SyncRecord) × (b ≡ some bytes)
        × (o ≡ some rest)
        × (record { model_id = model; op = upsert_op; bytes = bytes } ∷ rest ≡ out)
  split_out none o out h = cc h
  split_out (some bytes) none out h = cc h
  split_out (some bytes) (some rest) out h = (bytes, rest, refl, refl, ground arith)

  abbrev matches : Row T → Bool
  matches item = scope_matches scope instance_of item

  abbrev of_model : List ℕ → SyncRecord
  of_model bytes = record { model_id = model; op = upsert_op; bytes = bytes }

  -- The first row is skipped, or its record comes first.
  first_row :
      (item : Row T) (items : List (Row T)) (out : List SyncRecord)
      → records_of x model scope instance_of (item ∷ items) ≡ some out
      → ((matches item ≡ false) × (records_of x model scope instance_of items ≡ some out))
        ⊎ ((matches item ≡ true)
            × ((bytes : List ℕ) × (rest : List SyncRecord) × (x.encode item ≡ some bytes)
                × (records_of x model scope instance_of items ≡ some rest)
                × (of_model bytes ∷ rest ≡ out)))
  unfolding records_of
  first_row item items out h = elim (Bool-cases (matches item)) [
    | inl t ↦ inr (
      t,
      split_out (x.encode item) (records_of x model scope instance_of items) out
          (ground (arith, h, t)),
    )
    | inr f ↦ inl (f, ground (arith, h, f))
  ]

  abbrev pub FromRow : List (Row T) → SyncRecord → Type 0
  FromRow items r = (item : Row T) × In item items × (matches item ≡ true) × IsRecordOf item r

  abbrev pub HasRecord : Row T → List SyncRecord → Type 0
  HasRecord item out = (r : SyncRecord) × In r out × IsRecordOf item r

  from_rows :
      (items : List (Row T)) (out : List SyncRecord)
      → records_of x model scope instance_of items ≡ some out
      → (r : SyncRecord) → In r out
      → FromRow items r
  unfolding records_of
  from_rows [] out h r i = absurd (subst (λ o. In r o) (some_inj (sym h)) i)
  from_rows (y ∷ items) out h r i = elim (first_row y items out h) [
    | inl (f, q) ↦ let (item, j, t, e) = from_rows items out q r i in (item, inr j, t, e)
    | inr (t, (bytes, rest, enc, q, e)) ↦ elim (subst (λ o. In r o) (sym e) i) [
      | inl p ↦ subst (λ z. FromRow (y ∷ items) z) p (y, inl refl, t, (refl, refl, enc))
      | inr j ↦ let (item, k, u, v) = from_rows items rest q r j in (item, inr k, u, v)
    ]
  ]

  have_records :
      (items : List (Row T)) (out : List SyncRecord)
      → records_of x model scope instance_of items ≡ some out
      → (item : Row T) → In item items
      → matches item ≡ true
      → HasRecord item out
  have_records [] out h item i t = absurd i
  have_records (y ∷ items) out h item i t = elim (first_row y items out h) [
    | inl (f, q) ↦ elim i [
      | inl e ↦ absurd (wrong y item e f t)
      | inr j ↦ have_records items out q item j t
    ]
    | inr (u, (bytes, rest, enc, q, e)) ↦ elim i [
      | inl p ↦
          subst (λ o. HasRecord item o) e
            (of_model bytes, inl refl, (refl, refl, sym (ap x.encode p) ∙ enc))
      | inr j ↦
          let (r, k, z) = have_records items rest q item j t in
          subst (λ o. HasRecord item o) e (r, inr k, z)
    ]
  ]
    where
      wrong : (a b : Row T) → a ≡ b → matches a ≡ false → matches b ≡ true → ⊥
      wrong a b e f t = cc (f, t, ap matches e)

  -- A snapshot has a record of exactly the rows that the filter's scope matches.
  pub records_of-In :
      (items : List (Row T)) (out : List SyncRecord)
      → records_of x model scope instance_of items ≡ some out
      → ((r : SyncRecord) → In r out → FromRow items r)
        × ((item : Row T) → In item items → matches item ≡ true → HasRecord item out)
  records_of-In items out h = (from_rows items out h, have_records items out h)

  -- Records that arrive in turn at the model's entry of the registry.
  unfoldable pub apply_records : List SyncRecord → D → Option D
  apply_records [] d = some d
  apply_records (r ∷ rs) d = do d' ← decode_and_apply x r.op r.bytes d; apply_records rs d'

  -- The documented behaviour of the encoding: what was encoded is decoded to the same row.
  abbrev pub Decodes : Type 0
  Decodes = (item : Row T) (b : List ℕ) → x.encode item ≡ some b → x.decode b ≡ some item

  go_on :
      (rest : List SyncRecord) (rows : List (Row T)) (o : Option D)
      → ((m : D) → apply_records rest m ≡ apply_rows x rows m)
      → (o >>= (λ m. apply_records rest m)) ≡ (o >>= (λ m. apply_rows x rows m))
  go_on rest rows none h = refl
  go_on rest rows (some m) h = h m

  records-rows :
      Decodes
      → (items : List (Row T)) (out : List SyncRecord) (d : D)
      → records_of x model scope instance_of items ≡ some out
      → apply_records out d ≡ apply_rows x (filter (scope_matches scope instance_of) items) d
  unfolding records_of apply_records apply_rows filter decode_and_apply
  records-rows dec [] out d h = ap (λ o. apply_records o d) (some_inj (sym h))
  records-rows dec (item ∷ items) out d h = elim (first_row item items out h) [
    | inl (f, q) ↦ rw f (records-rows dec items out d q)
    | inr (t, (bytes, rest, enc, q, e)) ↦
        ap (λ o. apply_records o d) (sym e)
        ∙ rw (dec item bytes enc, t)
            (go_on rest (filter matches items) (apply_row x upsert_op item d)
              (λ m. records-rows dec items rest m q))
  ]

  -- A replica that has applied a whole snapshot holds every row of the source that the filter's
  -- scope matches, at least as recent as the source had it when the snapshot was taken, if a
  -- committed upsert stores its row and touches no other and what was encoded is decoded to the
  -- same row.
  pub snapshot_hydrates :
      (source d d' : D) (items : List (Row T)) (out : List SyncRecord) (item : Row T)
      → CommitUpserts x
      → Decodes
      → x.scan source ≡ some items
      → snapshot_type x model instance_of scope source ≡ some out
      → apply_records out d ≡ some d'
      → In item items
      → matches item ≡ true
      → Holds x item.id item d'
  unfolding snapshot_type
  snapshot_hydrates source d d' items out item c dec sc sn ap_ok i t =
      arrived x c (filter matches items) d d' item
        (sym (records-rows dec items out d (scanned sc sn)) ∙ ap_ok)
        ((In-filter matches items {a = item}).1 (i, t))
    where
      scanned :
          x.scan source ≡ some items
          → (x.scan source >>= (λ is. records_of x model scope instance_of is)) ≡ some out
          → records_of x model scope instance_of items ≡ some out
      scanned p q = ap (λ o. o >>= (λ is. records_of x model scope instance_of is)) (sym p) ∙ q
