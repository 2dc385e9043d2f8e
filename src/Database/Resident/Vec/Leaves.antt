-- ===== src/Database/Resident/Vec/Leaves.antt =====
-- What an update and a push leave of the row that a test finds.
use sandpolis.Prelude.{
  ℕ, ◌≡◌, ◌≢◌, refl, sym, ap, ◌∙◌, ◌⊎◌, inl, inr, Bool, true, none, some, List, [], ◌∷◌, ok, arith,
  eqb_self,
}
use sandpolis.Prelude.Maps.{get, store, get-store, Ascending}
use sandpolis.Database.Scope.{permits}
use sandpolis.Database.Resident.{
  Row, Write, Env, same_row, may_open, update_inner, mutated, commit_update, transaction, renamed,
  insert,
}
use sandpolis.Database.Resident.Staleness.{update_content}
use sandpolis.Database.Resident.Vec.{Outcome, push_inner, pushed, push_over, update_at}
use sandpolis.Database.Revision.{add, previous, number}
use sandpolis.Database.Resident.Vec.Search.{
  Cache, find_row, content_of, search, Single, Touches, untouched, changed, created, find_row-some,
  Touches-search,
}

-- An operation on the row that passes `is`, which means to leave the content `d` there.
abbrev pub Leaves : {T : Type 0} → (T → Bool) → T → Cache T → Outcome T → Type 0
Leaves is d g o =
    Touches is g o.rows
    × ((search is o.rows ≡ search is g) ⊎ (search is o.rows ≡ some d))
    × (o.result ≡ ok tt → search is o.rows ≡ some d)

-- Nothing stands in the way of a write of these contents.
abbrev pub IsOpen : {T : Type 0} → Env T → (T → Bool) → Type 0
IsOpen {T} v is =
    ((ws : List (Write T)) → v.commits ws ≡ true)
    × ((d : T) → is d ≡ true → permits v.authority (v.scope d) ≡ true)

same_row-last :
    {T : Type 0} (v : Env T) (x y : Row T)
    → same_row v x y ≡ true
    → v.same_content x.content y.content ≡ true
unfolding same_row
same_row-last v x y s = ground arith

module _ {T : Type 0} (v : Env T) (is : T → Bool) (g : Cache T) where
  pub update_at-Leaves :
      (f : T → T) (local : Bool) (k : ℕ) (old : Row T)
      → ((a b : T) → v.same_content a b ≡ true → a ≡ b)
      → Ascending g
      → Single is g
      → find_row is g ≡ some (k, old)
      → is (f old.content) ≡ true
      → Leaves is
          (f old.content)
          g
          (update_at v (λ r. some (record r { content = f r.content })) local k old g)
  unfolding update_at search
  update_at-Leaves f local k old sound a u found t =
      let m = update_inner v (λ r. some (record r { content = f r.content })) local old in
      let next = record old { content = f old.content } in
      let (p, o) = find_row-some is k old g a found in
      let (c, q) =
        update_content v (λ r. some (record r { content = f r.content })) local old next refl in
      let good : is m.cached.content ≡ true = elim c [
        | inl e ↦ ap is e ∙ o
        | inr e ↦ ap is e ∙ t
      ] in
      let touched : Touches is g (store k m.cached g) = changed k old m.cached found good refl in
      let here : search is (store k m.cached g) ≡ some m.cached.content =
        Touches-search is g (store k m.cached g) a u touched m.cached k
          (ground (arith, get-store k k m.cached g, eqb_self k)) good in
      (
        touched,
        elim c [
          | inl e ↦ inl (here ∙ ap some e ∙ sym (ap content_of found))
          | inr e ↦ inr (here ∙ ap some e)
        ],
        λ r.
            here
            ∙ ap some (elim (q r) [
              | inl e ↦ e
              | inr (e, s) ↦ ap (λ x. x.content) e ∙ sym (same_row-content next old s)
            ]),
      )
    where
      same_row-content : (x y : Row T) → same_row v x y ≡ true → x.content ≡ y.content
      same_row-content x y s = sound x.content y.content (same_row-last v x y s)

  pub update_at-ok :
      (f : T → T) (local : Bool) (k : ℕ) (old : Row T)
      → IsOpen v is
      → is (f old.content) ≡ true
      → (update_at v (λ r. some (record r { content = f r.content })) local k old g).result ≡ ok tt
  unfolding update_at update_inner mutated commit_update may_open
  update_at-ok f local k old (c, p) t =
      let next = record old { content = f old.content; revision = add old.revision 1 } in
      let prev = record old { revision = previous (number (add old.revision 1)) } in
      ground
        (arith, eqb_self old.id, p (f old.content) t, c (transaction v prev (renamed v prev next)))

  -- A push that fails leaves the cache, or, when its transaction is not committed, has stored the
  -- row.
  pub push-cases :
      (local : Bool) (row : Row T)
      → let o = push_inner v local row g in
        ((o.rows ≡ g) × (o.result ≢ ok tt))
        ⊎ ((o.rows ≡ store row.id row g) × (get row.id g ≡ none))
  unfolding push_inner
  push-cases local row = ground arith

  pub push_inner-ok :
      (local : Bool) (row : Row T)
      → IsOpen v is
      → is row.content ≡ true
      → get row.id g ≡ none
      → (push_inner v local row g).result ≡ ok tt
  unfolding push_inner pushed push_over may_open
  push_inner-ok local row (c, p) t n = ground (arith, p row.content t, c (insert row ∷ []), n)

  pub push_inner-Leaves :
      (local : Bool) (row : Row T)
      → Ascending g
      → Single is g
      → find_row is g ≡ none
      → is row.content ≡ true
      → Leaves is row.content g (push_inner v local row g)
  push_inner-Leaves local row a u found t = elim (push-cases local row) [
    | inl (e, n) ↦ (untouched e, inl (ap (search is) e), λ r. absurd (n r))
    | inr (e, free) ↦
        let touched : Touches is g (push_inner v local row g).rows =
          created row.id row found free t e in
        let here =
          Touches-search is g (push_inner v local row g).rows a u touched row row.id
            (ap (get row.id) e ∙ ground (arith, get-store row.id row.id row g, eqb_self row.id))
            t in
        (touched, inr here, λ r. here)
  ]
