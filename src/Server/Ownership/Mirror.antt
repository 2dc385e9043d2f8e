-- ===== src/Server/Ownership/Mirror.antt =====
-- A local server's mirror of its own grants, and what it restores from it.
use sandpolis.Prelude.{
  ℕ, ◌≡◌, refl, sym, ap, subst, ◌∙◌, Bool, true, ◌⊎◌, Option, none, some, List, [], ◌∷◌, ok, find,
  arith, ◌==◌, if◌then◌else◌, inl, inr, Bool-cases, Option-cases, eqb_self, eqb_true, eqb_false,
}
use sandpolis.Prelude.Maps.{get, get-Above, Above, Ascending, store, store-same, erase}
use sandpolis.Database.Scope.{
  WriteAuthority, ScopeState, ScopeTable, owned_at, state, set_owned, no_scopes, set_self,
}
use sandpolis.Database.Scope.History.{state-set_owned}
use sandpolis.Database.Resident.{Row, Write, insert, upsert, remove, update_inner}
use sandpolis.Database.Resident.Vec.{update_at, push_inner}
use sandpolis.Server.Hydration.{OwnedScope}
use sandpolis.Server.Ownership.{
  OwnershipData, Grants, grant_env, find_grant, new_grant, mirror_data, mirror_found, mirror_set,
  restore_all, restore_as, restore,
}
use sandpolis.Server.Ownership.Grants.{IsValid, content_of, lookup, find_grant-some}
use sandpolis.Server.Ownership.Owned.{grant_of}
use sandpolis.Server.Ownership.Rows.{Gives, update-Gives, push-Gives}

module _ (a : WriteAuthority) (commits : List (Write OwnershipData) → Bool) (fresh : ℕ → ℕ)
    (self : ℕ) where
  mirror_found-Gives :
      (s : OwnedScope) (g : Grants)
      → IsValid g
      → (o : Option (ℕ × Row OwnershipData)) → find_grant s.instance_id g ≡ o
      → Gives s.instance_id
          (grant_of self s)
          g
          (mirror_found (grant_env a commits) fresh self s g o)
  unfolding mirror_found new_grant
  mirror_found-Gives s g w none f =
      push-Gives a commits true s.instance_id
        (new_grant (fresh s.instance_id) s.instance_id self s.epoch) g refl w f
  mirror_found-Gives s g w (some (k, row)) f =
      let e = (find_grant-some s.instance_id k row g w.0 f).1 in
      subst
        (λ d.
          Gives s.instance_id d g
            (mirror_found (grant_env a commits) fresh self s g (some (k, row))))
        (same e)
        (update-Gives a commits (mirror_data self s) true s.instance_id k row g (λ d. refl) w f)
    where
      same :
          row.content.instance_id ≡ s.instance_id → mirror_data self s row.content ≡ grant_of self s
      same e = ground arith

  mirror_set-Gives :
      (s : OwnedScope) (g : Grants)
      → IsValid g
      → Gives s.instance_id (grant_of self s) g (mirror_set (grant_env a commits) fresh self s g)
  unfolding mirror_set
  mirror_set-Gives s g w = mirror_found-Gives s g w (find_grant s.instance_id g) refl

-- The state that `restore` leaves for an instance of this grant.
abbrev pub restored : ℕ → Option OwnershipData → Option ScopeState → Option ScopeState
restored self none o = o
restored self (some d) o = if d.owner == self then some (owned_at d.epoch) else o

restore_all-none :
    (self i : ℕ) (g : Grants) (t : ScopeTable)
    → find_grant i g ≡ none
    → state i (restore_all self g t) ≡ state i t
unfolding restore_all find_grant find
restore_all-none self i [] t n = refl
restore_all-none self i ((j, x) ∷ g) t n =
    let rest = restore_all-none self i g in
    ground (
      arith,
      rest t,
      rest (set_owned x.content.instance_id x.content.epoch t),
      state-set_owned i x.content.instance_id x.content.epoch t,
    )

tail-get :
    (j k : ℕ) (x r : Row OwnershipData) (g : Grants)
    → Above j g
    → get k g ≡ some r
    → get k ((j, x) ∷ g) ≡ some r
unfolding get
tail-get j k x r g b p = ground (arith, get-Above j g k {v = r} b p)

tail-IsValid : (j : ℕ) (x : Row OwnershipData) (g : Grants) → IsValid ((j, x) ∷ g) → IsValid g
tail-IsValid j x g ((b, a), u) =
    (a, λ k l r s p q. u k l r s (tail-get j k x r g b p) (tail-get j l x s g b q))

-- No other row is that of the first row's instance.
tail-none :
    (i j : ℕ) (x : Row OwnershipData) (g : Grants)
    → IsValid ((j, x) ∷ g)
    → x.content.instance_id ≡ i
    → find_grant i g ≡ none
unfolding get
tail-none i j x g ((b, a), u) e = elim (Option-cases (find_grant i g)) [
  | inl n ↦ n
  | inr ((k, r), f) ↦
      let (p, d) = find_grant-some i k r g a f in
      let l : j ≡ k = u j k x r (ground (arith, eqb_self j)) (tail-get j k x r g b p) (e ∙ sym d) in
      absurd (omega (arith, l, get-Above j g k {v = r} b p))
]

restore_all-some :
    (self i k : ℕ) (r : Row OwnershipData) (g : Grants) (t : ScopeTable)
    → IsValid g
    → find_grant i g ≡ some (k, r)
    → state i (restore_all self g t) ≡ restored self (some r.content) (state i t)
unfolding restore_all find_grant find
restore_all-some self i k r [] t w f = cc f
restore_all-some self i k r ((j, x) ∷ g) t w f = elim (Bool-cases (x.content.instance_id == i)) [
  | inl e ↦
      let t' =
        if x.content.owner == self then set_owned x.content.instance_id x.content.epoch t else t in
      let n = tail-none i j x g w (eqb_true x.content.instance_id i e) in
      ground (
        arith,
        restore_all-none self i g t' n,
        state-set_owned i x.content.instance_id x.content.epoch t,
        f,
      )
  | inr n ↦
      let t' =
        if x.content.owner == self then set_owned x.content.instance_id x.content.epoch t else t in
      ground (
        arith,
        restore_all-some self i k r g t' (tail-IsValid j x g w),
        state-set_owned i x.content.instance_id x.content.epoch t,
        f,
      )
]

-- After a restart, the restored scope table owns exactly the instances of this server's own grants
-- in the mirror, each at the epoch of its grant; the state of any other instance is as it was.
pub restore_states :
    (self i : ℕ) (g : Grants) (t : ScopeTable)
    → IsValid g
    → t.self_id ≡ some self
    → state i (restore g t) ≡ restored self (lookup i g) (state i t)
unfolding restore restore_as lookup
restore_states self i g t w e = ap (λ o. state i (restore_as o g t)) e ∙ go (find_grant i g) refl
  where
    go :
        (o : Option (ℕ × Row OwnershipData))
        → find_grant i g ≡ o
        → state i (restore_all self g t) ≡ restored self (content_of o) (state i t)
    go none n = restore_all-none self i g t n
    go (some (k, r)) f = restore_all-some self i k r g t w f

-- What committed writes leave of the rows that the database stores.
unfoldable pub write_rows : List (Write OwnershipData) → Grants → Grants
write_rows [] d = d
write_rows (insert r ∷ ws) d = write_rows ws (store r.id r d)
write_rows (upsert r ∷ ws) d = write_rows ws (store r.id r d)
write_rows (remove r ∷ ws) d = write_rows ws (erase r.id d)

-- Every row stands under its identifier.
abbrev pub AreFiled : Grants → Type 0
AreFiled g = (k : ℕ) (r : Row OwnershipData) → get k g ≡ some r → r.id ≡ k

module _ (a : WriteAuthority) (commits : List (Write OwnershipData) → Bool) (fresh : ℕ → ℕ)
    (self : ℕ) where
  -- A successful update wrote the row that the cache has, or found nothing to change.
  update-written :
      (f : OwnershipData → OwnershipData) (row : Row OwnershipData)
      → let m =
          update_inner
            (grant_env a commits)
            (λ r. some (record r { content = f r.content }))
            true
            row in
        m.result ≡ ok tt
        → ((m.writes ≡ []) × (m.cached ≡ row))
          ⊎ ((m.writes ≡ upsert m.cached ∷ []) × (m.cached.id ≡ row.id))
  unfolding update_inner
  update-written f row h = ground arith

  updated_rows :
      (f : OwnershipData → OwnershipData) (k : ℕ) (row : Row OwnershipData) (g : Grants)
      → Ascending g
      → get k g ≡ some row
      → row.id ≡ k
      → let o =
          update_at
            (grant_env a commits)
            (λ r. some (record r { content = f r.content }))
            true
            k
            row
            g in
        o.result ≡ ok tt → write_rows o.writes g ≡ o.rows
  unfolding update_at
  updated_rows f k row g asc at e h =
      let m =
        update_inner (grant_env a commits) (λ r. some (record r { content = f r.content })) true
          row in
      elim (update-written f row h) [
        | inl (w, c) ↦
            ap (λ ws. write_rows ws g) w
            ∙ (unfold write_rows in sym (ap (λ r. store k r g) c ∙ store-same k row g asc at))
        | inr (w, c) ↦
            ap (λ ws. write_rows ws g) w
            ∙ (unfold write_rows in ap (λ n. store n m.cached g) (c ∙ e))
      ]

  pushed_rows :
      (row : Row OwnershipData) (g : Grants)
      → let o = push_inner (grant_env a commits) true row g in
        o.result ≡ ok tt → write_rows o.writes g ≡ o.rows
  unfolding push_inner write_rows
  pushed_rows row g h = ground arith

  mirrored_rows :
      (s : OwnedScope) (g : Grants) (o : Option (ℕ × Row OwnershipData))
      → IsValid g
      → AreFiled g
      → find_grant s.instance_id g ≡ o
      → (mirror_found (grant_env a commits) fresh self s g o).result ≡ ok tt
      → write_rows (mirror_found (grant_env a commits) fresh self s g o).writes g
        ≡ (mirror_found (grant_env a commits) fresh self s g o).rows
  unfolding mirror_found
  mirrored_rows s g none w filed f h = pushed_rows _ g h
  mirrored_rows s g (some (k, row)) w filed f h =
      let (at, e) = find_grant-some s.instance_id k row g w.0 f in
      updated_rows (mirror_data self s) k row g w.0 at (filed k row at) h

  -- When mirroring a scope has succeeded in a valid mirror, whose cache and stored rows agree and stand
  -- under their identifiers, a restart, which reads the rows that the database has stored by then, owns
  -- the scope again, at the epoch that it was hydrated at; every other instance is restored as if
  -- nothing had been mirrored.
  pub mirror_restores :
      (s : OwnedScope) (g : Grants) (i : ℕ)
      → IsValid g
      → AreFiled g
      → (mirror_set (grant_env a commits) fresh self s g).result ≡ ok tt
      → let d = write_rows (mirror_set (grant_env a commits) fresh self s g).writes g in
        let t = set_self self no_scopes in
        state i (restore d t)
        ≡ (if s.instance_id == i then some (owned_at s.epoch) else state i (restore g t))
  unfolding set_self
  mirror_restores s g i w filed r =
      let (w', others, c, h) = mirror_set-Gives a commits fresh self s g w in
      let g' = (mirror_set (grant_env a commits) fresh self s g).rows in
      let t = set_self self no_scopes in
      let stored : write_rows (mirror_set (grant_env a commits) fresh self s g).writes g ≡ g' =
        unfold mirror_set in
        mirrored_rows s g (find_grant s.instance_id g) w filed refl (unfold mirror_set in r) in
      ap (λ d. state i (restore d t)) stored ∙ elim (Bool-cases (s.instance_id == i)) [
        | inl e ↦
            let here =
              subst (λ k. lookup k g' ≡ some (grant_of self s)) (eqb_true s.instance_id i e)
                (h r) in
            restore_states self i g' t w' refl ∙ ground (arith, here, eqb_self self, e)
        | inr n ↦
            restore_states self i g' t w' refl
            ∙ ap (λ o. restored self o (state i t)) (others i (eqb_false s.instance_id i n))
            ∙ sym (restore_states self i g t w refl)
            ∙ ground (arith, n)
      ]
