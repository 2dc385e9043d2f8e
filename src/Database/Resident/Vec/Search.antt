-- ===== src/Database/Resident/Vec/Search.antt =====
-- Searching a cache by the content of its rows, and what a mutation of the row found changes.
-- `is` tests a row's content; a cache that keeps one row for each subject has `Single`.
use sandpolis.Prelude.{
  ℕ, ◌≡◌, sym, ap, subst, ◌∙◌, ◌⊎◌, inl, inr, Bool, true, false, Option, none, some, [], ◌∷◌, find,
  arith, Option-cases, eqb_self, eqb_true,
}
use sandpolis.Prelude.Maps.{Assoc, get, store, get-store, Ascending, get-Above, store-Ascending}
use sandpolis.Database.Resident.{Row}

abbrev pub Cache : Type 0 → Type 0
Cache T = Assoc (Row T)

module _ {T : Type 0} where
  unfoldable pub find_row : (T → Bool) → Cache T → Option (ℕ × Row T)
  find_row is g = find (λ e. is e.1.content) g

  abbrev pub content_of : Option (ℕ × Row T) → Option T
  content_of none = none
  content_of (some (k, r)) = some r.content

  unfoldable pub search : (T → Bool) → Cache T → Option T
  search is g = content_of (find_row is g)

  -- The keys ascend, and at most one row passes the test.
  abbrev pub Single : (T → Bool) → Cache T → Type 0
  Single is g =
      (k j : ℕ) (r s : Row T)
      → get k g ≡ some r
      → get j g ≡ some s
      → is r.content ≡ true
      → is s.content ≡ true
      → k ≡ j

  pub find_row-some :
      (is : T → Bool) (k : ℕ) (r : Row T) (g : Cache T)
      → Ascending g
      → find_row is g ≡ some (k, r)
      → (get k g ≡ some r) × (is r.content ≡ true)
  unfolding find_row find get
  find_row-some is k r [] a h = cc
  find_row-some is k r ((j, x) ∷ g) (b, a) h =
      ground (arith, find_row-some is k r g a, get-Above j g k {v = r} b, eqb_self j)

  pub find_row-none :
      (is : T → Bool) (k : ℕ) (r : Row T) (g : Cache T)
      → find_row is g ≡ none
      → get k g ≡ some r
      → is r.content ≡ false
  unfolding find_row find get
  find_row-none is k r [] h p = cc
  find_row-none is k r ((j, x) ∷ g) h p = ground (arith, find_row-none is k r g, eqb_self j)

  pub find_row-get :
      (is : T → Bool) (k : ℕ) (r : Row T) (g : Cache T)
      → Ascending g
      → Single is g
      → get k g ≡ some r
      → is r.content ≡ true
      → find_row is g ≡ some (k, r)
  find_row-get is k r g a u p e = elim (Option-cases (find_row is g)) [
    | inl n ↦ absurd (cc (e, find_row-none is k r g n p))
    | inr ((j, s), f) ↦ let (q, d) = find_row-some is j s g a f in cc (f, p, q, u k j r s p q e d)
  ]

  -- A row stored over one that fails the test as it does, or under a free key, is not found.
  pub find_row-store_other :
      (is : T → Bool) (k : ℕ) (row : Row T) (g : Cache T)
      → is row.content ≡ false
      → ((r : Row T) → get k g ≡ some r → is r.content ≡ false)
      → find_row is (store k row g) ≡ find_row is g
  unfolding find_row find store get
  find_row-store_other is k row [] f o = ground arith
  find_row-store_other is k row ((j, x) ∷ g) f o =
      ground (arith, o x, find_row-store_other is k row g f, o, eqb_self k, eqb_true j k)

  -- What an operation on the row that passes `is` makes of the cache: nothing, or it stores a row
  -- that passes over the one found, or under a free key when none was found.
  pub data Touches (is : T → Bool) (g h : Cache T) : Type 0 where
    untouched : h ≡ g → Touches is g h
    changed :
        (k : ℕ) (old row : Row T)
        → find_row is g ≡ some (k, old)
        → is row.content ≡ true
        → h ≡ store k row g
        → Touches is g h
    created :
        (k : ℕ) (row : Row T)
        → find_row is g ≡ none
        → get k g ≡ none
        → is row.content ≡ true
        → h ≡ store k row g
        → Touches is g h

  stored-Single :
      (is : T → Bool) (k : ℕ) (row : Row T) (g : Cache T)
      → Single is g
      → ((j : ℕ) (r : Row T)
          → get j g ≡ some r
          → is r.content ≡ true
          → is row.content ≡ true
          → j ≡ k)
      → Single is (store k row g)
  stored-Single is k row g u f i j r s p q e d = ground (
    arith,
    get-store k i row g,
    get-store k j row g,
    u i j r s,
    f i r,
    f j s,
    eqb_true k i,
    eqb_true k j,
  )

  -- A test that no row passes which passes `is`.
  abbrev pub Apart : (T → Bool) → (T → Bool) → Type 0
  Apart is other = (d : T) → is d ≡ true → other d ≡ false

  module _ (is : T → Bool) (g h : Cache T) where
    pub Touches-Ascending : Ascending g → Touches is g h → Ascending h
    Touches-Ascending a (untouched e) = subst Ascending (sym e) a
    Touches-Ascending a (changed k old row f t e) =
        subst Ascending (sym e) (store-Ascending k row g a)
    Touches-Ascending a (created k row f n t e) =
        subst Ascending (sym e) (store-Ascending k row g a)

    pub Touches-Single : Ascending g → Single is g → Touches is g h → Single is h
    Touches-Single a u (untouched e) = subst (Single is) (sym e) u
    Touches-Single a u (changed k old row f t e) =
        let (p, o) = find_row-some is k old g a f in
        subst (Single is) (sym e) (stored-Single is k row g u (λ j r q d x. u j k r old q p d o))
    Touches-Single a u (created k row f n t e) =
        subst (Single is) (sym e)
          (stored-Single is k row g u (λ j r q d x. absurd (cc (d, find_row-none is j r g f q))))

    -- The rows that other tests are about: what holds of the row stored and of the one it replaces.
    Touches-store :
        Ascending g
        → Touches is g h
        → (h ≡ g)
          ⊎ ((k : ℕ) × (row : Row T) × (h ≡ store k row g)
              × (is row.content ≡ true)
              × ((r : Row T) → get k g ≡ some r → is r.content ≡ true))
    Touches-store a (untouched e) = inl e
    Touches-store a (changed k old row f t e) =
        let (p, o) = find_row-some is k old g a f in inr (k, row, e, t, λ r q. cc (p, q, o))
    Touches-store a (created k row f n t e) = inr (k, row, e, t, λ r q. absurd (cc (n, q)))

    pub Touches-Apart :
        (other : T → Bool)
        → Ascending g
        → Apart is other
        → Touches is g h
        → (search other h ≡ search other g) × (Single other g → Single other h)
    unfolding search
    Touches-Apart other a x t = elim (Touches-store a t) [
      | inl e ↦ (ap (λ c. content_of (find_row other c)) e, λ u. subst (Single other) (sym e) u)
      | inr (k, row, e, p, o) ↦ (
        ap (λ c. content_of (find_row other c)) e
            ∙ ap content_of
                (find_row-store_other other k row g (x row.content p) (λ r q. x r.content (o r q))),
        λ u.
            subst (Single other) (sym e)
              (stored-Single other k row g u (λ j r q d y. absurd (cc (y, x row.content p)))),
      )
    ]

    pub Touches-search :
        Ascending g
        → Single is g
        → Touches is g h
        → (row : Row T) → (k : ℕ) → get k h ≡ some row
        → is row.content ≡ true
        → search is h ≡ some row.content
    unfolding search
    Touches-search a u t row k p d =
        ap content_of (find_row-get is k row h (Touches-Ascending a t) (Touches-Single a u t) p d)
