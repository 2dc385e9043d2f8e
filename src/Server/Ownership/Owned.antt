-- ===== src/Server/Ownership/Owned.antt =====
-- Which scopes a server is told that it owns (`owned_by`).
use sandpolis.Prelude.{
  ℕ, ◌≡◌, ◌≢◌, ap, ◌∙◌, ◌⊎◌, ◌↔◌, inl, inr, true, false, none, some, List, [], ◌∷◌, In, any-In,
  In-any, arith, ◌==◌, Bool-cases, Option-cases, eqb_self, eqb_true,
}
use sandpolis.Prelude.Maps.{get, get-Above, Ascending}
use sandpolis.Database.Resident.{Row}
use sandpolis.Server.Hydration.{OwnedScope, lists}
use sandpolis.Server.Ownership.{
  OwnershipData, Grants, find_grant, owned_by, scopes_of, sort_scopes, insert_scope,
}
use sandpolis.Server.Ownership.Grants.{IsValid, content_of, lookup, find_grant-get, find_grant-some}

-- Sorting loses and adds nothing.
insert_scope-In :
    (s x : OwnedScope) (xs : List OwnedScope) → In s (insert_scope x xs) ↔ ((x ≡ s) ⊎ In s xs)
unfolding insert_scope
insert_scope-In s x [] = ground arith
insert_scope-In s x (y ∷ ys) = ground (arith, insert_scope-In s x ys)

sort_scopes-In : (s : OwnedScope) (xs : List OwnedScope) → In s (sort_scopes xs) ↔ In s xs
unfolding sort_scopes
sort_scopes-In s [] = ground arith
sort_scopes-In s (x ∷ xs) =
    ground (arith, sort_scopes-In s xs, insert_scope-In s x (sort_scopes xs))

-- The grant that makes a scope one of `owner`'s.
abbrev pub grant_of : ℕ → OwnedScope → OwnershipData
grant_of owner s = record { instance_id = s.instance_id; owner = owner; epoch = s.epoch }

scopes_of-cases :
    (owner : ℕ) (s : OwnedScope) (j : ℕ) (x : Row OwnershipData) (g : Grants)
    → In s (scopes_of owner ((j, x) ∷ g))
    → (x.content ≡ grant_of owner s) ⊎ In s (scopes_of owner g)
unfolding scopes_of
scopes_of-cases owner s j x g i = ground arith

scopes_of-get :
    (owner : ℕ) (s : OwnedScope) (g : Grants)
    → Ascending g
    → In s (scopes_of owner g)
    → (k : ℕ) × (r : Row OwnershipData) × (get k g ≡ some r) × (r.content ≡ grant_of owner s)
unfolding scopes_of get
scopes_of-get owner s [] a i = absurd i
scopes_of-get owner s ((j, x) ∷ g) (b, a) i = elim (scopes_of-cases owner s j x g i) [
  | inl e ↦ (j, x, ground (arith, eqb_self j), e)
  | inr i' ↦
      let (k, r, p, e) = scopes_of-get owner s g a i' in
      (k, r, ground (arith, get-Above j g k {v = r} b, p), e)
]

get-scopes_of :
    (owner k : ℕ) (s : OwnedScope) (r : Row OwnershipData) (g : Grants)
    → get k g ≡ some r
    → r.content ≡ grant_of owner s
    → In s (scopes_of owner g)
unfolding scopes_of get
get-scopes_of owner k s r [] p e = cc p
get-scopes_of owner k s r ((j, x) ∷ g) p e =
    ground (arith, get-scopes_of owner k s r g, eqb_self owner)

lookup-find_grant :
    (i : ℕ) (g : Grants) (d : OwnershipData)
    → Ascending g
    → lookup i g ≡ some d
    → (k : ℕ) × (r : Row OwnershipData) × (get k g ≡ some r) × (r.content ≡ d)
unfolding lookup
lookup-find_grant i g d a l = elim (Option-cases (find_grant i g)) [
  | inl n ↦ absurd (found n)
  | inr ((k, r), f) ↦ (k, r, (find_grant-some i k r g a f).0, ground arith)
]
  where
    found : ¬ (find_grant i g ≡ none)
    found n = ground arith

-- In a valid table, the scopes reported to a server are exactly those of its grants, each at the
-- epoch of its grant.
pub owned_by-lookup :
    (owner : ℕ) (s : OwnedScope) (g : Grants)
    → IsValid g
    → In s (owned_by owner g) ↔ (lookup s.instance_id g ≡ some (grant_of owner s))
unfolding owned_by lookup
owned_by-lookup owner s g w = (
  λ i.
      let (k, r, p, e) = scopes_of-get owner s g w.0 ((sort_scopes-In s (scopes_of owner g)).0 i) in
      let f = find_grant-get s.instance_id k r g w p (ap (λ d. d.instance_id) e) in
      ap content_of f ∙ ap some e,
  λ l.
      let (k, r, p, e) = lookup-find_grant s.instance_id g (grant_of owner s) w.0 l in
      (sort_scopes-In s (scopes_of owner g)).1 (get-scopes_of owner k s r g p e),
)

-- A server whose grant of `i` is another's is not told that it owns `i`.
pub unlisted :
    (owner i : ℕ) (g : Grants) (d : OwnershipData)
    → IsValid g
    → lookup i g ≡ some d
    → d.owner ≢ owner
    → lists (owned_by owner g) i ≡ false
unfolding lists
unlisted owner i g d w l n = elim (Bool-cases (lists (owned_by owner g) i)) [
  | inr f ↦ f
  | inl t ↦
      let (s, m, e) = In-any (λ x. x.instance_id == i) (owned_by owner g) t in
      let q = (owned_by-lookup owner s g w).0 m in
      absurd (n (other s (eqb_true s.instance_id i e) q))
]
  where
    other :
        (s : OwnedScope)
        → s.instance_id ≡ i
        → lookup s.instance_id g ≡ some (grant_of owner s)
        → d.owner ≡ owner
    other s e q = cc (e, q, l)

lookup-instance :
    (i : ℕ) (g : Grants) (d : OwnershipData) → IsValid g → lookup i g ≡ some d → d.instance_id ≡ i
unfolding lookup
lookup-instance i g d w l = elim (Option-cases (find_grant i g)) [
  | inl n ↦ cc (ap content_of n, l)
  | inr ((k, r), f) ↦ let e = (find_grant-some i k r g w.0 f).1 in cc (ap content_of f, l, e)
]

pub listed :
    (owner i : ℕ) (g : Grants) (d : OwnershipData)
    → IsValid g
    → lookup i g ≡ some d
    → d.owner ≡ owner
    → lists (owned_by owner g) i ≡ true
unfolding lists
listed owner i g d w l e =
    let s : OwnedScope = record { instance_id = i; epoch = d.epoch } in
    let same : d ≡ grant_of owner s = ground (arith, lookup-instance i g d w l, e) in
    any-In (λ x. x.instance_id == i) (owned_by owner g) {a = s}
      ((owned_by-lookup owner s g w).1 (l ∙ ap some same)) (eqb_self i)
