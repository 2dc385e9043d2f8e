-- ===== src/Database/Sync/Converge.antt =====
-- Replicated rows converge: the order in which they arrive, and repetitions, do not matter.
use sandpolis.Prelude.{
  ℕ, ◌≤◌, ◌≡◌, refl, sym, subst, ap, ◌∙◌, ◌↔◌, ◌⊎◌, inl, inr, Bool, true, false, Option, none, some,
  List, [], ◌∷◌, In, ◌>>=◌, ltb, arith, Bool-cases, ◌==◌, if◌then◌else◌, eqb_self,
}
use sandpolis.Database.Revision.{number}
use sandpolis.Database.Resident.{Row, upsert}
use sandpolis.Database.Sync.{upsert_op, Access, apply_row, upsert_over}

module _ {D T : Type 0} (x : Access D T) where
  -- Rows that arrive in turn.
  unfoldable pub apply_rows : List (Row T) → D → Option D
  apply_rows [] d = some d
  apply_rows (r ∷ rs) d = do d' ← apply_row x upsert_op r d; apply_rows rs d'

  -- The documented behaviour of a committed upsert: the row is there and no other row has changed.
  abbrev pub CommitUpserts : Type 0
  CommitUpserts =
      (r : Row T) (d d' : D) (k : ℕ)
      → x.commit (upsert r ∷ []) d ≡ some d'
      → x.primary k d' ≡ (if r.id == k then some r else x.primary k d)

  -- A row is found under its own key.
  abbrev pub KeyedById : Type 0
  KeyedById = (k : ℕ) (r : Row T) (d : D) → x.primary k d ≡ some r → r.id ≡ k

  -- The row under a key, at least as recent as `r`.
  abbrev pub Holds : ℕ → Row T → D → Type 0
  Holds k r d =
      (new : Row T) × (x.primary k d ≡ some new) × (number r.revision ≤ number new.revision)

module _ {D T : Type 0} (x : Access D T) (commits : CommitUpserts x) where
  abbrev kept_of : Row T → Option (Row T) → Row T
  kept_of r none = r
  kept_of r (some old) = if ltb (number old.revision) (number r.revision) then r else old

  after_over :
      (r : Row T) (d d' : D) (k : ℕ) (o : Option (Row T))
      → x.primary r.id d ≡ o
      → upsert_over x r d o ≡ some d'
      → x.primary k d' ≡ (if r.id == k then some (kept_of r (x.primary k d)) else x.primary k d)
  unfolding upsert_over
  after_over r d d' k none p q = ground (arith, p, commits r d d' k q)
  after_over r d d' k (some old) p q = ground (arith, p, commits r d d' k)

  -- What applying one row leaves under any key.
  after_row :
      (r : Row T) (d d' : D) (k : ℕ)
      → apply_row x upsert_op r d ≡ some d'
      → x.primary k d' ≡ (if r.id == k then some (kept_of r (x.primary k d)) else x.primary k d)
  unfolding apply_row
  after_row r d d' k h = after_over r d d' k (x.primary r.id d) refl h

  kept_of-le : (r : Row T) (o : Option (Row T)) → number r.revision ≤ number (kept_of r o).revision
  kept_of-le r none = ground arith
  kept_of-le r (some old) = ground arith

  old-le : (r old : Row T) → number old.revision ≤ number (kept_of r (some old)).revision
  old-le r old = ground arith

  first_row :
      (r : Row T) (rs : List (Row T)) (d d' : D)
      → apply_rows x (r ∷ rs) d ≡ some d'
      → (m : D) × (apply_row x upsert_op r d ≡ some m) × (apply_rows x rs m ≡ some d')
  unfolding apply_rows
  first_row r rs d d' h = split (apply_row x upsert_op r d) h
    where
      split :
          (o : Option D)
          → (o >>= (λ m. apply_rows x rs m)) ≡ some d'
          → (m : D) × (o ≡ some m) × (apply_rows x rs m ≡ some d')
      split none q = cc q
      split (some m) q = (m, refl, q)

  kept :
      (rs : List (Row T)) (d d' : D) (k : ℕ) (old : Row T)
      → apply_rows x rs d ≡ some d'
      → x.primary k d ≡ some old
      → Holds x k old d'
  unfolding apply_rows
  kept [] d d' k old h p = (old, ground arith, omega arith)
  kept (r ∷ rs) d d' k old h p =
      let (m, a, b) = first_row r rs d d' h in
      elim (Bool-cases (r.id == k)) [
        | inl t ↦
            let (new, q, l) =
              kept rs m d' k (kept_of r (some old)) b (ground (arith, after_row r d m k a)) in
            (new, q, omega (arith, l, old-le r old))
        | inr f ↦ kept rs m d' k old b (ground (arith, after_row r d m k a))
      ]

  pub arrived :
      (rs : List (Row T)) (d d' : D) (r : Row T)
      → apply_rows x rs d ≡ some d'
      → In r rs
      → Holds x r.id r d'
  arrived [] d d' r h i = absurd i
  arrived (y ∷ rs) d d' r h (inl e) =
      let (m, a, b) = first_row y rs d d' h in
      let (new, q, l) =
        kept rs m d' y.id (kept_of y (x.primary y.id d)) b
          (ground (arith, after_row y d m y.id a, eqb_self y.id)) in
      subst (λ z. Holds x z.id z d') e (new, q, omega (arith, l, kept_of-le y (x.primary y.id d)))
  arrived (y ∷ rs) d d' r h (inr i) = let (m, a, b) = first_row y rs d d' h in arrived rs m d' r b i

  from_first :
      (r : Row T) (rs : List (Row T)) (o : Option (Row T)) (b : Bool) {new : Row T}
      → (if b then some (kept_of r o) else o) ≡ some new
      → (o ≡ some new) ⊎ In new (r ∷ rs)
  from_first r rs o false g = inl g
  from_first r rs none true g = ground arith
  from_first r rs (some old) true g = ground arith

  from_where :
      (rs : List (Row T)) (d d' : D) (k : ℕ) (new : Row T)
      → apply_rows x rs d ≡ some d'
      → x.primary k d' ≡ some new
      → (x.primary k d ≡ some new) ⊎ In new rs
  unfolding apply_rows
  from_where [] d d' k new h p = inl (ground arith)
  from_where (r ∷ rs) d d' k new h p =
      let (m, a, b) = first_row r rs d d' h in
      elim (from_where rs m d' k new b p) [
        | inl q ↦ from_first r rs (x.primary k d) (r.id == k) (sym (after_row r d m k a) ∙ q)
        | inr i ↦ inr (inr i)
      ]

  -- A row that was there or arrived in `rs` has its match wherever the rows of `rs` arrive.
  reaches :
      (rs ss : List (Row T)) (d d' : D) (k : ℕ) (r : Row T)
      → apply_rows x ss d ≡ some d'
      → ((y : Row T) → In y rs → In y ss)
      → r.id ≡ k
      → (x.primary k d ≡ some r) ⊎ In r rs
      → Holds x k r d'
  reaches rs ss d d' k r h sub e (inl p) = kept ss d d' k r h p
  reaches rs ss d d' k r h sub e (inr i) =
      subst (λ j. Holds x j r d') e (arrived ss d d' r h (sub r i))

module _ {D T : Type 0} (x : Access D T) where
  -- No two different rows have the same key and revision: each row has one writer.
  abbrev pub OneWriter : List (Row T) → D → Type 0
  OneWriter rs d =
      (r s : Row T)
      → (x.primary r.id d ≡ some r) ⊎ In r rs
      → (x.primary s.id d ≡ some s) ⊎ In s rs
      → r.id ≡ s.id
      → number r.revision ≡ number s.revision
      → r ≡ s

  -- Two replicas that start from the same rows and apply the same rows, each in any order and
  -- any number of times and every time successfully, end with the same rows, if each row has one
  -- writer, a committed upsert stores its row and touches no other, and rows are found under
  -- their own keys.
  pub upserts_converge :
      (rs ss : List (Row T)) (d d1 d2 : D) (k : ℕ)
      → CommitUpserts x
      → KeyedById x
      → OneWriter rs d
      → ((r : Row T) → In r rs ↔ In r ss)
      → apply_rows x rs d ≡ some d1
      → apply_rows x ss d ≡ some d2
      → x.primary k d1 ≡ x.primary k d2
  upserts_converge rs ss d d1 d2 k c keyed one same h1 h2 =
      go (x.primary k d1) (x.primary k d2) refl refl
    where
      forth :
          (a : Row T)
          → x.primary k d1 ≡ some a
          → (b : Row T) × (x.primary k d2 ≡ some b) × (number a.revision ≤ number b.revision)
      forth a p =
          reaches x c rs ss d d2 k a h2 (λ y. (same y).0) (keyed k a d1 p)
            (from_where x c rs d d1 k a h1 p)

      back :
          (b : Row T)
          → x.primary k d2 ≡ some b
          → (a : Row T) × (x.primary k d1 ≡ some a) × (number b.revision ≤ number a.revision)
      back b p =
          reaches x c ss rs d d1 k b h1 (λ y. (same y).1) (keyed k b d2 p)
            (from_where x c ss d d2 k b h2 p)

      known1 : (a : Row T) → x.primary k d1 ≡ some a → (x.primary a.id d ≡ some a) ⊎ In a rs
      known1 a p = elim (from_where x c rs d d1 k a h1 p) [
        | inl q ↦ inl (ap (λ j. x.primary j d) (keyed k a d1 p) ∙ q)
        | inr i ↦ inr i
      ]

      known2 : (b : Row T) → x.primary k d2 ≡ some b → (x.primary b.id d ≡ some b) ⊎ In b rs
      known2 b p = elim (from_where x c ss d d2 k b h2 p) [
        | inl q ↦ inl (ap (λ j. x.primary j d) (keyed k b d2 p) ∙ q)
        | inr i ↦ inr ((same b).1 i)
      ]

      go : (o q : Option (Row T)) → x.primary k d1 ≡ o → x.primary k d2 ≡ q → o ≡ q
      go none none p1 p2 = refl
      go none (some b) p1 p2 = let (a, p, l) = back b p2 in cc (p, p1)
      go (some a) none p1 p2 = let (b, p, l) = forth a p1 in cc (p, p2)
      go (some a) (some b) p1 p2 =
          let (b', q, l) = forth a p1 in
          let (a', q', l') = back b p2 in
          ap some (
            one a b (known1 a p1) (known2 b p2) (keyed k a d1 p1 ∙ sym (keyed k b d2 p2))
              (ground (arith, q, q', p1, p2, l, l')))
