-- ===== src/Instance/Service/Rows.antt =====
-- What `update` leaves in the table: one row for each service of an instance.
use sandpolis.Prelude.{
  ℕ, ◌≡◌, ◌≢◌, ◌↔◌, refl, sym, ap, subst, ◌∙◌, ◌⊎◌, inl, inr, true, false, none, some, List, [],
  ◌∷◌, In, find, find-some, find-In, find-none, arith, Bool-cases, Option-cases, eqb_true,
}
use sandpolis.Database.Resident.{Row, insert, upsert}
use sandpolis.Database.Sync.{Access}
use sandpolis.Instance.Service.{ServiceData, is_row_of}

-- The rows after `r` has been stored.
abbrev pub Puts : Row ServiceData → List (Row ServiceData) → List (Row ServiceData) → Type 0
Puts r rows rows' = (q : Row ServiceData) → In q rows' ↔ ((r ≡ q) ⊎ (In q rows × (q.id ≢ r.id)))

abbrev pub Rows : Type 0
Rows = List (Row ServiceData)

-- What native_db documents: a transaction of no write keeps the rows, an insert is refused when the
-- key is taken, and an insert or an upsert that is committed stores the row in place of the one
-- under its key.
abbrev pub CommitStores : {D : Type 0} → Access D ServiceData → Type 0
CommitStores {D} x =
    ((d d' : D) → x.commit [] d ≡ some d' → x.scan d' ≡ x.scan d)
    × ((d d' : D) (rows : Rows) (r : Row ServiceData)
        → x.scan d ≡ some rows
        → x.commit (insert r ∷ []) d ≡ some d'
        → ((q : Row ServiceData) → In q rows → q.id ≢ r.id)
          × ((rows' : Rows) × (x.scan d' ≡ some rows') × Puts r rows rows'))
    × ((d d' : D) (rows : Rows) (r : Row ServiceData)
        → x.scan d ≡ some rows
        → x.commit (upsert r ∷ []) d ≡ some d'
        → (rows' : Rows) × (x.scan d' ≡ some rows') × Puts r rows rows')

-- Keys differ, and a service of an instance has one row.
abbrev pub Unique : Rows → Type 0
Unique rows =
    ((q r : Row ServiceData) → In q rows → In r rows → q.id ≡ r.id → q ≡ r)
    × ((i k : ℕ) (q r : Row ServiceData)
        → In q rows
        → In r rows
        → is_row_of i k q ≡ true
        → is_row_of i k r ≡ true
        → q ≡ r)

row_found :
    (i k : ℕ) (r : Row ServiceData) (rows : Rows)
    → Unique rows
    → In r rows
    → is_row_of i k r ≡ true
    → find (is_row_of i k) rows ≡ some r
row_found i k r rows u m t = elim (Option-cases (find (is_row_of i k) rows)) [
  | inl n ↦ absurd (find-In (is_row_of i k) rows {a = r} m t n)
  | inr (q, e) ↦
      let (m', t') = find-some (is_row_of i k) rows {a = q} e in e ∙ ap some (u.1 i k q r m' m t' t)
]

row_missing :
    (i k : ℕ) (rows : Rows)
    → ((q : Row ServiceData) → In q rows → is_row_of i k q ≡ false)
    → find (is_row_of i k) rows ≡ none
row_missing i k rows h = elim (Option-cases (find (is_row_of i k) rows)) [
  | inl n ↦ n
  | inr (q, e) ↦ let (m, t) = find-some (is_row_of i k) rows {a = q} e in absurd (cc (t, h q m))
]

same_service :
    (i k j l : ℕ) (r : Row ServiceData)
    → is_row_of i k r ≡ true
    → is_row_of j l r ≡ true
    → (i ≡ j) × (k ≡ l)
same_service i k j l r s t = ground (
  arith,
  eqb_true r.content.instance_id i,
  eqb_true r.content.instance_id j,
  eqb_true r.content.key k,
  eqb_true r.content.key l,
)

-- `r` takes the place of the row of the service, if it has one, and of no other.
abbrev pub Replaces : ℕ → ℕ → Row ServiceData → Rows → Type 0
Replaces i k r rows =
    (is_row_of i k r ≡ true)
    × ((q : Row ServiceData) → In q rows → (q.id ≡ r.id) ↔ (is_row_of i k q ≡ true))

module _ (i k : ℕ) (r : Row ServiceData) (rows rows' : Rows) where
  pub Puts-Unique : Unique rows → Replaces i k r rows → Puts r rows rows' → Unique rows'
  Puts-Unique u (t, w) p = (ids, services)
    where
      ids : (q s : Row ServiceData) → In q rows' → In s rows' → q.id ≡ s.id → q ≡ s
      ids q s m n e = elim ((p q).0 m) [
        | inl a ↦ elim ((p s).0 n) [
          | inl b ↦ sym a ∙ b
          | inr (b, c) ↦ absurd (c (sym e ∙ ap (λ y. y.id) (sym a)))
        ]
        | inr (a, c) ↦ elim ((p s).0 n) [
          | inl b ↦ absurd (c (e ∙ ap (λ y. y.id) (sym b)))
          | inr (b, d) ↦ u.0 q s a b e
        ]
      ]

      clash :
          (j l : ℕ) (q : Row ServiceData)
          → In q rows
          → q.id ≢ r.id
          → is_row_of j l r ≡ true
          → is_row_of j l q ≡ true
          → ⊥
      clash j l q m n a b =
          let (x, y) = same_service i k j l r t a in
          n (
            (w q m).1 (
              subst (λ y. is_row_of i y q ≡ true) (sym y)
                (subst (λ x. is_row_of x l q ≡ true) (sym x) b)))

      services :
          (j l : ℕ) (q s : Row ServiceData)
          → In q rows'
          → In s rows'
          → is_row_of j l q ≡ true
          → is_row_of j l s ≡ true
          → q ≡ s
      services j l q s m n e f = elim ((p q).0 m) [
        | inl a ↦ elim ((p s).0 n) [
          | inl b ↦ sym a ∙ b
          | inr (b, c) ↦ absurd (clash j l s b c (ap (is_row_of j l) a ∙ e) f)
        ]
        | inr (a, c) ↦ elim ((p s).0 n) [
          | inl b ↦ absurd (clash j l q a c (ap (is_row_of j l) b ∙ f) e)
          | inr (b, d) ↦ u.1 j l q s a b e f
        ]
      ]

  pub Puts-found :
      Unique rows → Replaces i k r rows → Puts r rows rows' → find (is_row_of i k) rows' ≡ some r
  Puts-found u w p = row_found i k r rows' (Puts-Unique u w p) ((p r).1 (inl refl)) w.0

  pub Puts-other :
      (j l : ℕ)
      → (i ≡ j → k ≢ l)
      → Unique rows
      → Replaces i k r rows
      → Puts r rows rows'
      → find (is_row_of j l) rows' ≡ find (is_row_of j l) rows
  Puts-other j l n u w p = elim (Option-cases (find (is_row_of j l) rows)) [
    | inl e ↦
        row_missing j l rows' (λ q m. elim ((p q).0 m) [
          | inl a ↦ miss q a
          | inr (a, c) ↦ find-none (is_row_of j l) rows {a = q} e a
        ])
        ∙ sym e
    | inr (q, e) ↦
        let (m, t) = find-some (is_row_of j l) rows {a = q} e in
        row_found j l q rows' (Puts-Unique u w p)
          ((p q).1 (inr (m, λ z. other q ((w.1 q m).0 z) t))) t
        ∙ sym e
  ]
    where
      other : (q : Row ServiceData) → is_row_of i k q ≡ true → is_row_of j l q ≡ true → ⊥
      other q a b = let (x, y) = same_service i k j l q a b in n x y

      miss : (q : Row ServiceData) → r ≡ q → is_row_of j l q ≡ false
      miss q a = elim (Bool-cases (is_row_of j l q)) [
        | inl t ↦ absurd (other q (ap (is_row_of i k) (sym a) ∙ w.0) t)
        | inr f ↦ f
      ]
