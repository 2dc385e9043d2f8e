-- ===== src/Server/Ownership/Fencing.antt =====
-- The epoch as a fencing token, over claims and the reports of the watcher of the grants.
use sandpolis.Prelude.{
  ℕ, ◌≤◌, ◌≡◌, refl, sym, ap, subst, ◌∙◌, ◌⊎◌, inl, inr, Bool, true, false, ◌&&◌, not, Option, some,
  List, any, arith, ◌==◌, Bool-cases,
}
use sandpolis.Database.Scope.{WriteAuthority}
use sandpolis.Prelude.Maps.{get, store, store-same, Ascending}
use sandpolis.Database.Revision.{same_revision, revision_le}
use sandpolis.Database.Resident.{Row, Write, accept}
use sandpolis.Database.Resident.Vec.{Event, on_insert, on_update, on_delete, Notice, handle_event}
use sandpolis.Server.Ownership.{OwnershipData, Grants, grant_env, claim}
use sandpolis.Server.Ownership.Grants.{IsValid, lookup}
use sandpolis.Server.Ownership.Claims.{claimed, after_claim, claim_partial}

-- A later grant of the same instance: the epoch has not gone back, and if it is the same, the owner
-- is the same.
abbrev pub IsLater : OwnershipData → Option OwnershipData → Type 0
IsLater d o =
    (d' : OwnershipData) × (o ≡ some d')
    × (d.epoch ≤ d'.epoch)
    × ((d.epoch ≡ d'.epoch) → d.owner ≡ d'.owner)

claimed-IsLater :
    (claimer j : ℕ) (d : OwnershipData) → IsLater d (some (claimed claimer j (some d)))
claimed-IsLater claimer j d = (claimed claimer j (some d), refl, ground arith, ground arith)

after_claim-IsLater :
    (claimer : ℕ) (is : List ℕ) (j : ℕ) (d : OwnershipData)
    → IsLater d (after_claim claimer is j (some d))
after_claim-IsLater claimer is j d =
    elim (Bool-cases (any (λ i. i == j) is && not (j == claimer))) [
      | inl t ↦ rw t (claimed-IsLater claimer j d)
      | inr f ↦ rw f (d, refl, omega arith, λ e. refl)
    ]

module _ (a : WriteAuthority) (commits : List (Write OwnershipData) → Bool) (fresh : ℕ → ℕ) where
  claim-IsLater :
      (claimer : ℕ) (is : List ℕ) (g : Grants) (j : ℕ) (d : OwnershipData)
      → IsValid g
      → lookup j g ≡ some d
      → IsLater d (lookup j (claim (grant_env a commits) fresh claimer is g).1)
  claim-IsLater claimer is g j d w l =
      let (v, c) = claim_partial a commits fresh claimer is g w in
      elim (c j) [
        | inl p ↦ (d, p ∙ l, omega arith, λ e. refl)
        | inr p ↦
            subst (IsLater d) (sym (p ∙ ap (after_claim claimer is j) l))
              (after_claim-IsLater claimer is j d)
      ]

  IsLater-trans :
      (d d' : OwnershipData) (o : Option OwnershipData)
      → IsLater d (some d')
      → IsLater d' o
      → IsLater d o
  IsLater-trans d d' o (x, p, l, e) (y, q, m, f) = (y, q, ground arith, ground arith)

  -- A report of the watcher that comes after the cache has taken the row: an insertion of the cached
  -- revision, or an update to a row that the cache has or is ahead of. Grants are never deleted.
  abbrev pub IsEcho : Event OwnershipData → Grants → Type 0
  IsEcho (on_insert row) g =
      (c : Row OwnershipData) × (get row.id g ≡ some c)
      × (same_revision c.revision row.revision ≡ true)
  IsEcho (on_update row) g =
      (c : Row OwnershipData) × (get row.id g ≡ some c)
      × ((revision_le c.revision row.revision ≡ false) ⊎ (row ≡ c))
  IsEcho (on_delete row) g = ⊥

  -- Claims by several servers, whatever their outcomes, with the watcher's reports in between.
  pub data History (g : Grants) : Grants → Type 0 where
    at_first : History g g
    claimed_next :
        (m : Grants) (claimer : ℕ) (is : List ℕ)
        → History g m
        → History g (claim (grant_env a commits) fresh claimer is m).1
    reported_next :
        (m m' : Grants) (conditions : List (Row OwnershipData → Bool)) (e : Event OwnershipData)
        (notices : List (Notice OwnershipData))
        → History g m
        → IsEcho e m
        → handle_event conditions e m ≡ some (m', notices)
        → History g m'

  echo-same :
      (conditions : List (Row OwnershipData → Bool)) (e : Event OwnershipData) (m m' : Grants)
      (notices : List (Notice OwnershipData))
      → Ascending m
      → IsEcho e m
      → handle_event conditions e m ≡ some (m', notices)
      → m' ≡ m
  unfolding handle_event accept
  echo-same conditions (on_insert row) m m' notices asc (c, at, same) h =
      ground (arith, h, at, same)
  echo-same conditions (on_update row) m m' notices asc (c, at, inl n) h =
      ground (arith, h, at, n, store-same row.id c m asc at)
  echo-same conditions (on_update row) m m' notices asc (c, at, inr q) h =
      let same = store-same row.id c m asc at in
      let there = ap (λ x. store row.id x m) q ∙ same in
      elim (Bool-cases (revision_le c.revision row.revision)) [
        | inl y ↦ ground (arith, h, at, y, there)
        | inr n ↦ ground (arith, h, at, n, same)
      ]
  echo-same conditions (on_delete row) m m' notices asc b h = absurd b

  -- From a valid table, over claims by any servers with any outcomes, and reports of the watcher in
  -- between of rows that the cache has taken already, the table stays valid and a grant never
  -- disappears, its epoch never goes back, and as long as the epoch is the same, so is the owner.
  -- (A report of an insertion that comes after the row was changed is not among these reports.)
  pub claims_fence :
      (g g' : Grants) (j : ℕ) (d : OwnershipData)
      → History g g'
      → IsValid g
      → lookup j g ≡ some d
      → IsValid g' × IsLater d (lookup j g')
  claims_fence g _ j d at_first w l = (w, (d, l, omega arith, λ e. refl))
  claims_fence g _ j d (claimed_next m claimer is h) w l =
      let (v, before) = claims_fence g m j d h w l in
      let (d', p, l', k) = before in
      let next = (claim (grant_env a commits) fresh claimer is m).1 in
      (
        (claim_partial a commits fresh claimer is m v).0,
        IsLater-trans d d' (lookup j next) (d', refl, l', k) (claim-IsLater claimer is m j d' v p),
      )
  claims_fence g _ j d (reported_next m m' conditions e notices h echo r) w l =
      let (v, later) = claims_fence g m j d h w l in
      let same = sym (echo-same conditions e m m' notices v.0 echo r) in
      (subst IsValid same v, subst (λ x. IsLater d (lookup j x)) same later)
