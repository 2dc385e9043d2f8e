-- ===== src/Server/Ownership/Rows.antt =====
-- What an operation on the grant of one instance does to the table: the parts of `claim` and
-- `mirror_set` share this.
use sandpolis.Prelude.{
  ℕ, ◌≡◌, ◌≢◌, refl, sym, ap, subst, ◌∙◌, ◌⊎◌, inl, inr, Bool, true, none, some, List, [], ok,
  arith, ◌==◌, if◌then◌else◌, eqb_self,
}
use sandpolis.Prelude.Maps.{get, store}
use sandpolis.Database.Scope.{WriteAuthority}
use sandpolis.Database.Resident.{Row, Write, update_inner, same_row}
use sandpolis.Database.Resident.Staleness.{update_content}
use sandpolis.Database.Resident.Vec.{Outcome, push_inner, update_at}
use sandpolis.Server.Ownership.{OwnershipData, Grants, grant_env, find_grant}
use sandpolis.Server.Ownership.Grants.{
  IsValid, Fits, lookup, find_grant-some, find_grant-none, store-IsValid, find_grant-store,
}

-- What an operation on the grant of `i` leaves: the other grants alone, and for `i` the old grant
-- or `d`, the latter when it succeeds.
abbrev pub Gives : ℕ → OwnershipData → Grants → Outcome OwnershipData → Type 0
Gives i d g o =
    IsValid o.rows
    × ((j : ℕ) → i ≢ j → lookup j o.rows ≡ lookup j g)
    × ((lookup i o.rows ≡ lookup i g) ⊎ (lookup i o.rows ≡ some d))
    × (o.result ≡ ok tt → lookup i o.rows ≡ some d)

module _ (a : WriteAuthority) (commits : List (Write OwnershipData) → Bool) where
  same_row-content :
      (x y : Row OwnershipData) → same_row (grant_env a commits) x y ≡ true → x.content ≡ y.content
  unfolding same_row
  same_row-content x y s = ground arith

  -- The content after an update of a grant by a function on its content.
  pub grant_content :
      (f : OwnershipData → OwnershipData) (local : Bool) (row : Row OwnershipData)
      → let m =
          update_inner
            (grant_env a commits)
            (λ r. some (record r { content = f r.content }))
            local
            row in
        ((m.cached.content ≡ row.content) ⊎ (m.cached.content ≡ f row.content))
        × (m.result ≡ ok tt → m.cached.content ≡ f row.content)
  grant_content f local row =
      let next = record row { content = f row.content } in
      let (p, q) =
        update_content (grant_env a commits) (λ r. some (record r { content = f r.content })) local
          row next refl in
      (
        p,
        λ ok. elim (q ok) [
          | inl e ↦ e
          | inr (e, s) ↦ ap (λ r. r.content) e ∙ sym (same_row-content next row s)
        ],
      )

  find_grant-lookup :
      (i k : ℕ) (row : Row OwnershipData) (g : Grants)
      → find_grant i g ≡ some (k, row)
      → lookup i g ≡ some row.content
  unfolding lookup
  find_grant-lookup i k row g found = ground (arith, found)

  -- The table after a row of `i` is stored under a key that fits.
  stored_lookup :
      (k : ℕ) (row : Row OwnershipData) (g : Grants)
      → Fits k row.content.instance_id g
      → IsValid g
      → (j : ℕ)
      → lookup j (store k row g)
        ≡ (if row.content.instance_id == j then some row.content else lookup j g)
  unfolding lookup
  stored_lookup k row g f w j = ground (arith, find_grant-store k row g f w j)

  stored-Gives :
      (i k : ℕ) (d : OwnershipData) (row : Row OwnershipData) (g : Grants)
      (o : Outcome OwnershipData)
      → o.rows ≡ store k row g
      → Fits k i g
      → IsValid g
      → row.content.instance_id ≡ i
      → (some row.content ≡ lookup i g) ⊎ (row.content ≡ d)
      → (o.result ≡ ok tt → row.content ≡ d)
      → Gives i d g o
  stored-Gives i k d row g o at f w e c h =
      let f' : Fits k row.content.instance_id g = subst (λ n. Fits k n g) (sym e) f in
      let here : lookup i o.rows ≡ some row.content =
        ground (arith, at, stored_lookup k row g f' w i, e, eqb_self i) in
      (
        subst IsValid (sym at) (store-IsValid k row g f' w),
        λ j n. ground (arith, at, stored_lookup k row g f' w j, e),
        elim c [ inl p ↦ inl (here ∙ p) | inr p ↦ inr (here ∙ ap some p) ],
        λ r. here ∙ ap some (h r),
      )

  find_grant-Fits :
      (i k : ℕ) (row : Row OwnershipData) (g : Grants)
      → IsValid g
      → find_grant i g ≡ some (k, row)
      → Fits k i g
  find_grant-Fits i k row g w found =
      let (p, e) = find_grant-some i k row g w.0 found in
      (λ j r q d. w.1 j k r row q p (d ∙ sym e), λ r q. ground (arith, p, q, e))

  pub update-Gives :
      (f : OwnershipData → OwnershipData) (local : Bool) (i k : ℕ) (row : Row OwnershipData)
      (g : Grants)
      → ((d : OwnershipData) → (f d).instance_id ≡ d.instance_id)
      → IsValid g
      → find_grant i g ≡ some (k, row)
      → Gives i (f row.content) g (
          update_at
            (grant_env a commits)
            (λ r. some (record r { content = f r.content }))
            local
            k
            row
            g)
  unfolding update_at
  update-Gives f local i k row g same w found =
      let m =
        update_inner (grant_env a commits) (λ r. some (record r { content = f r.content })) local
          row in
      let (p, e) = find_grant-some i k row g w.0 found in
      let (c, h) = grant_content f local row in
      stored-Gives i k (f row.content) m.cached g
        (record { result = m.result; rows = store k m.cached g; writes = m.writes; notices = [] })
        refl (find_grant-Fits i k row g w found) w
        (elim c [
          | inl q ↦ ap (λ d. d.instance_id) q ∙ e
          | inr q ↦ ap (λ d. d.instance_id) q ∙ same row.content ∙ e
        ])
        (elim c [
          | inl q ↦ inl (ap some q ∙ sym (find_grant-lookup i k row g found))
          | inr q ↦ inr q
        ])
        h

  -- A push that fails leaves the table, or, when its transaction is not committed, has stored the row.
  push-cases :
      (local : Bool) (row : Row OwnershipData) (g : Grants)
      → let o = push_inner (grant_env a commits) local row g in
        ((o.rows ≡ g) × (o.result ≢ ok tt))
        ⊎ ((o.rows ≡ store row.id row g) × (get row.id g ≡ none))
  unfolding push_inner
  push-cases local row g = ground arith

  pub push-Gives :
      (local : Bool) (i : ℕ) (row : Row OwnershipData) (g : Grants)
      → row.content.instance_id ≡ i
      → IsValid g
      → find_grant i g ≡ none
      → Gives i row.content g (push_inner (grant_env a commits) local row g)
  push-Gives local i row g e w found = elim (push-cases local row g) [
    | inl (same, n) ↦ (
      subst IsValid (sym same) w,
      λ j x. ap (lookup j) same,
      inl (ap (lookup i) same),
      λ r. absurd (n r),
    )
    | inr (at, free) ↦
        stored-Gives i row.id row.content row g (push_inner (grant_env a commits) local row g) at
          (λ j r p d. absurd (find_grant-none i j r g found p d), λ r p. cc (free, p)) w e
          (inr refl) (λ r. refl)
  ]
