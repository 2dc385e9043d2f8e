-- ===== src/Instance/Service/Books.antt =====
-- The read-modify-write of a service's row (`update`).
use sandpolis.Prelude.{
  ℕ, ◌≡◌, ◌≢◌, refl, sym, ap, subst, ◌∙◌, inl, inr, Bool, true, false, Option, none, some, In, ok,
  err, find, find-some, find-none, arith, ◌==◌, Bool-cases, Option-cases, eqb_true, eqb_self,
  eqb_false,
}
use sandpolis.Database.Scope.{WriteAuthority}
use sandpolis.Database.Resident.{Row}
use sandpolis.Database.Sync.{Access}
use sandpolis.Instance.Service.{
  ServiceData, Change, reconciles, enables, sets, records, change, recorded, default_data,
  is_row_of, written, update,
}
use sandpolis.Instance.Service.Rows.{
  Rows, Puts, CommitStores, Unique, Replaces, Puts-Unique, Puts-found, Puts-other,
}

-- The data that a mutator gets, and whether it is new.
abbrev pub data_or_default : ℕ → ℕ → Option (Row ServiceData) → ServiceData
data_or_default i k none = default_data i k
data_or_default i k (some row) = row.content

abbrev pub is_none : {A : Type 0} → Option A → Bool
is_none none = true
is_none (some a) = false

-- The effect of a change on the table: the service's row is what the change makes of it, and the
-- rows of all other services are as they were.
abbrev pub Books : ℕ → ℕ → Change → Rows → Rows → Row ServiceData → Type 0
Books i k f rows rows' row =
    let old = find (is_row_of i k) rows in
    Unique rows'
    × (find (is_row_of i k) rows' ≡ some row)
    × (row.content ≡ change f (is_none old) (data_or_default i k old))
    × ((j l : ℕ) → (i ≡ j → k ≢ l) → find (is_row_of j l) rows' ≡ find (is_row_of j l) rows)

change_key :
    (f : Change) (b : Bool) (d : ServiceData)
    → ((change f b d).instance_id ≡ d.instance_id) × ((change f b d).key ≡ d.key)
unfolding change recorded
change_key (reconciles layer name description schedule) b d = (refl, refl)
change_key (enables e) b d = (refl, refl)
change_key (sets s) b d = (refl, refl)
change_key (records started ended (ok r) cancelled) b d = (refl, refl)
change_key (records started ended (err e) cancelled) b d = (refl, refl)

module _ (same : ServiceData → ServiceData → Bool) (fresh i k : ℕ) (f : Change) where
  written_about :
      (o : Option (Row ServiceData)) (rows : Rows)
      → find (is_row_of i k) rows ≡ o
      → is_row_of i k (written same fresh f i k o).1 ≡ true
  unfolding written default_data
  written_about none rows e =
      let (p, q) = change_key f true (default_data i k) in
      ground (arith, p, q, eqb_self i, eqb_self k)
  written_about (some r) rows e =
      let (m, t) = find-some (is_row_of i k) rows {a = r} e in
      let (p, q) = change_key f false r.content in ground (arith, p, q, t)

  written_content :
      (o : Option (Row ServiceData))
      → (written same fresh f i k o).1.content ≡ change f (is_none o) (data_or_default i k o)
  unfolding written
  written_content none = refl
  written_content (some r) = refl

  written-Books :
      (o : Option (Row ServiceData)) (rows rows' : Rows)
      → find (is_row_of i k) rows ≡ o
      → Unique rows
      → Replaces i k (written same fresh f i k o).1 rows
      → Puts (written same fresh f i k o).1 rows rows'
      → Books i k f rows rows' (written same fresh f i k o).1
  written-Books o rows rows' e u w p =
      let r = (written same fresh f i k o).1 in
      (
        Puts-Unique i k r rows rows' u w p,
        Puts-found i k r rows rows' u w p,
        rw e (written_content o),
        λ j l n. Puts-other i k r rows rows' j l n u w p,
      )

module _ {D : Type 0} (x : Access D ServiceData) (same : ServiceData → ServiceData → Bool) where
  committed-Books :
      (fresh i k : ℕ) (f : Change) (d d' : D) (rows : Rows) (o : Option (Row ServiceData))
      → CommitStores x
      → ((b c : ServiceData) → same b c ≡ true → b ≡ c)
      → x.scan d ≡ some rows
      → Unique rows
      → find (is_row_of i k) rows ≡ o
      → x.commit (written same fresh f i k o).0 d ≡ some d'
      → (rows' : Rows) × (x.scan d' ≡ some rows')
        × Books i k f rows rows' (written same fresh f i k o).1
  unfolding written
  committed-Books fresh i k f d d' rows none (keep, ins, ups) sound s u e c =
      let r = (written same fresh f i k none).1 in
      let (free, (rows', s', p)) = ins d d' rows r s c in
      let w : Replaces i k r rows = (
        written_about same fresh i k f none rows e,
        λ q m. (
          λ z. absurd (free q m z),
          λ t. absurd (cc (t, find-none (is_row_of i k) rows {a = q} e m)),
        ),
      ) in
      (rows', s', written-Books same fresh i k f none rows rows' e u w p)
  committed-Books fresh i k f d d' rows (some r) (keep, ins, ups) sound s u e c =
      let (m, t) = find-some (is_row_of i k) rows {a = r} e in
      let row = (written same fresh f i k (some r)).1 in
      let w : Replaces i k row rows = (
        written_about same fresh i k f (some r) rows e,
        λ q n. (
          λ z. subst (λ y. is_row_of i k y ≡ true) (sym (u.0 q r n m z)) t,
          λ z. ap (λ y. y.id) (u.1 i k q r n m z t),
        ),
      ) in
      elim (Bool-cases (same r.content row.content)) [
        | inl y ↦
            let z : row ≡ r = kept r row (sym (sound r.content row.content y)) refl refl in
            let stay = keep d d' (ground (arith, c, y)) in
            (
              rows,
              stay ∙ s,
              written-Books same fresh i k f (some r) rows rows e u w (λ q. (
                λ n. elim (Bool-cases (q.id == r.id)) [
                  | inl t ↦ inl (z ∙ sym (u.0 q r n m (eqb_true q.id r.id t)))
                  | inr f ↦ inr (n, eqb_false q.id r.id f)
                ],
                λ h. elim h [ inl a ↦ subst (λ y. In y rows) (sym z ∙ a) m | inr b ↦ b.0 ],
              )),
            )
        | inr n ↦
            let (rows', s', p) = ups d d' rows row s (ground (arith, c, n)) in
            (rows', s', written-Books same fresh i k f (some r) rows rows' e u w p)
      ]
    where
      kept :
          (r row : Row ServiceData)
          → row.content ≡ r.content
          → row.id ≡ r.id
          → row.revision ≡ r.revision
          → row ≡ r
      kept r row a b c = cc

  -- An update that returns, over a table where every service has one row, leaves such a table: the
  -- row of the service is what the change makes of the old one, or of a default row that it is
  -- told is new, and that row is returned; the rows of all other services are as they were. (If the
  -- database keeps its documented behaviour and rows that compare equal are equal.)
  pub update-Books :
      (a : WriteAuthority) (fresh i k : ℕ) (f : Change) (d d' : D) (rows : Rows)
      (row : Row ServiceData)
      → CommitStores x
      → ((b c : ServiceData) → same b c ≡ true → b ≡ c)
      → x.scan d ≡ some rows
      → Unique rows
      → update x same a fresh i k f d ≡ some (d', row)
      → (rows' : Rows) × (x.scan d' ≡ some rows') × Books i k f rows rows' row
  unfolding update
  update-Books a fresh i k f d d' rows row laws sound s u e =
      let o = find (is_row_of i k) rows in
      elim (Option-cases (x.commit (written same fresh f i k o).0 d)) [
        | inl n ↦ absurd (ground (arith, e, s, n))
        | inr (d'', c) ↦
            let z : d'' ≡ d' = ground (arith, e, s, c) in
            let r : (written same fresh f i k o).1 ≡ row = ground (arith, e, s, c) in
            let (rows', s', b) = committed-Books fresh i k f d d'' rows o laws sound s u refl c in
            (rows', ap x.scan (sym z) ∙ s', subst (Books i k f rows rows') r b)
      ]
