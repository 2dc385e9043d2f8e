-- ===== src/Server/Ownership/Claims.antt =====
-- What a claim does to the grant table.
use sandpolis.Prelude.{
  ℕ, suc, ◌≡◌, ◌≢◌, refl, sym, subst, ◌∙◌, ◌⊎◌, inl, inr, Bool, false, ◌&&◌, not, Option, none,
  some, List, [], ◌∷◌, Result, ok, err, any, arith, ◌==◌, if◌then◌else◌, Bool-cases, eqb_self,
  eqb_true, eqb_false,
}
use sandpolis.Database.Scope.{WriteAuthority}
use sandpolis.Database.Resident.{Row, Write, Error}
use sandpolis.Database.Resident.Vec.{Outcome}
use sandpolis.Server.Ownership.{
  OwnershipData, Grants, grant_env, take_over, new_grant, find_grant, claim_found, claim_one,
  left_loop, claim,
}
use sandpolis.Server.Ownership.Grants.{IsValid, content_of, lookup}
use sandpolis.Server.Ownership.Rows.{Gives, update-Gives, push-Gives}

-- The grant of `i` after `claimer` has claimed it: a new grant starts at epoch 1, a grant of the
-- claimer's own is kept, and another's moves with the next epoch.
abbrev pub claimed : ℕ → ℕ → Option OwnershipData → OwnershipData
claimed claimer i none = record { instance_id = i; owner = claimer; epoch = 1 }
claimed claimer i (some d) =
    if d.owner == claimer
    then d
    else record { instance_id = d.instance_id; owner = claimer; epoch = suc d.epoch }

take_over-claimed :
    (claimer i : ℕ) (d : OwnershipData) → take_over claimer d ≡ claimed claimer i (some d)
unfolding take_over
take_over-claimed claimer i d = ground arith

-- What a claim of the instances `is` makes of the grant of `j`.
abbrev pub after_claim : ℕ → List ℕ → ℕ → Option OwnershipData → Option OwnershipData
after_claim claimer is j o =
    if any (λ i. i == j) is && not (j == claimer) then some (claimed claimer j o) else o

-- Claiming twice is claiming once.
claimed_twice :
    (claimer i : ℕ) (o : Option OwnershipData)
    → claimed claimer i (some (claimed claimer i o)) ≡ claimed claimer i o
unfolding take_over
claimed_twice claimer i none = ground arith
claimed_twice claimer i (some d) = ground arith

module _ (a : WriteAuthority) (commits : List (Write OwnershipData) → Bool) (fresh : ℕ → ℕ)
    (claimer : ℕ) where
  take_over-instance : (d : OwnershipData) → (take_over claimer d).instance_id ≡ d.instance_id
  unfolding take_over
  take_over-instance d = ground arith

  claim_found-Gives :
      (i : ℕ) (g : Grants)
      → IsValid g
      → (o : Option (ℕ × Row OwnershipData)) → find_grant i g ≡ o
      → Gives i
          (claimed claimer i (content_of o))
          g
          (claim_found (grant_env a commits) fresh claimer i g o)
  unfolding claim_found new_grant
  claim_found-Gives i g w none f =
      push-Gives a commits false i (new_grant (fresh i) i claimer 1) g refl w f
  claim_found-Gives i g w (some (k, row)) f =
      subst (λ d. Gives i d g (claim_found (grant_env a commits) fresh claimer i g (some (k, row))))
        (take_over-claimed claimer i row.content)
        (update-Gives a commits (take_over claimer) false i k row g take_over-instance w f)

  claim_one-Gives :
      (i : ℕ) (g : Grants)
      → IsValid g
      → Gives i
          (claimed claimer i (lookup i g))
          g
          (claim_one (grant_env a commits) fresh claimer i g)
  unfolding claim_one lookup
  claim_one-Gives i g w = claim_found-Gives i g w (find_grant i g) refl

  step_here :
      (i : ℕ) (is : List ℕ) (g : Grants) (o : Outcome OwnershipData)
      → i ≢ claimer
      → Gives i (claimed claimer i (lookup i g)) g o
      → ((o.result ≡ ok tt)
          → after_claim claimer is i (lookup i o.rows)
            ≡ after_claim claimer (i ∷ is) i (lookup i g))
        × ((lookup i o.rows ≡ lookup i g)
            ⊎ (lookup i o.rows ≡ after_claim claimer (i ∷ is) i (lookup i g)))
  unfolding any
  step_here i is g o n (w, others, c, h) = (
    λ r. ground (arith, h r, claimed_twice claimer i (lookup i g), eqb_self i, n),
    ground (arith, c, eqb_self i, n),
  )

  step :
      (i j : ℕ) (is : List ℕ) (g : Grants) (o : Outcome OwnershipData)
      → i ≢ claimer
      → Gives i (claimed claimer i (lookup i g)) g o
      → ((o.result ≡ ok tt)
          → after_claim claimer is j (lookup j o.rows)
            ≡ after_claim claimer (i ∷ is) j (lookup j g))
        × ((lookup j o.rows ≡ lookup j g)
            ⊎ (lookup j o.rows ≡ after_claim claimer (i ∷ is) j (lookup j g)))
  unfolding any
  step i j is g o n gives = elim (Bool-cases (i == j)) [
    | inl t ↦
        subst
          (λ k.
            ((o.result ≡ ok tt)
              → after_claim claimer is k (lookup k o.rows)
                ≡ after_claim claimer (i ∷ is) k (lookup k g))
            × ((lookup k o.rows ≡ lookup k g)
                ⊎ (lookup k o.rows ≡ after_claim claimer (i ∷ is) k (lookup k g))))
          (eqb_true i j t) (step_here i is g o n gives)
    | inr f ↦ let same = gives.1 j (eqb_false i j f) in (λ r. ground (arith, same, f), inl same)
  ]

  left_loop-cases :
      (r : Result Error (Unit {0})) (g : Grants) (rest : Result Error (Unit {0}) × Grants)
      → ((left_loop r g rest ≡ rest) × (r ≡ ok tt))
        ⊎ ((e : Error) × (left_loop r g rest ≡ (err e, g)))
  unfolding left_loop
  left_loop-cases (ok u) g rest = inl (refl, refl)
  left_loop-cases (err e) g rest = inr (e, refl)

  err≢ok : (e : Error) → ¬ (◌≡◌ {A = Result Error (Unit {0})} (err e) (ok tt))
  err≢ok e p = cc p

  -- What a claim of `is` may leave of a table.
  abbrev Claimed : List ℕ → Grants → Result Error (Unit {0}) × Grants → Type 0
  Claimed is g out =
      IsValid out.1
      × (out.0 ≡ ok tt → (j : ℕ) → lookup j out.1 ≡ after_claim claimer is j (lookup j g))
      × ((j : ℕ)
          → (lookup j out.1 ≡ lookup j g)
            ⊎ (lookup j out.1 ≡ after_claim claimer is j (lookup j g)))

  skip :
      (i : ℕ) (is : List ℕ) (g : Grants) (out : Result Error (Unit {0}) × Grants)
      → i ≡ claimer
      → Claimed is g out
      → Claimed (i ∷ is) g out
  unfolding any
  skip i is g (r, g') e (w, h, c) = (
    w,
    λ ok j. h ok j ∙ ground (arith, e),
    λ j. elim (c j) [ inl p ↦ inl p | inr p ↦ inr (p ∙ ground (arith, e)) ],
  )

  proceed :
      (i : ℕ) (is : List ℕ) (g : Grants) (o : Outcome OwnershipData)
      (out : Result Error (Unit {0}) × Grants)
      → i ≢ claimer
      → Gives i (claimed claimer i (lookup i g)) g o
      → o.result ≡ ok tt
      → Claimed is o.rows out
      → Claimed (i ∷ is) g out
  proceed i is g o (r, g') n gives k (w, h, c) = (
    w,
    λ ok j. h ok j ∙ (step i j is g o n gives).0 k,
    λ j. elim (c j) [
      | inl p ↦ elim (step i j is g o n gives).1 [ inl q ↦ inl (p ∙ q) | inr q ↦ inr (p ∙ q) ]
      | inr p ↦ inr (p ∙ (step i j is g o n gives).0 k)
    ],
  )

  claim_rest :
      (i : ℕ) (is : List ℕ) (g : Grants) (o : Outcome OwnershipData)
      (out : Result Error (Unit {0}) × Grants)
      → i ≢ claimer
      → Gives i (claimed claimer i (lookup i g)) g o
      → Claimed is o.rows out
      → Claimed (i ∷ is) g (left_loop o.result o.rows out)
  claim_rest i is g o out n gives ih = elim (left_loop-cases o.result o.rows out) [
    | inl (p, k) ↦ subst (Claimed (i ∷ is) g) (sym p) (proceed i is g o out n gives k ih)
    | inr (e, p) ↦
        subst (Claimed (i ∷ is) g) (sym p)
          (gives.0, λ k. absurd (err≢ok e k), λ j. (step i j is g o n gives).1)
  ]

  claim-Claimed :
      (is : List ℕ) (g : Grants)
      → IsValid g
      → Claimed is g (claim (grant_env a commits) fresh claimer is g)
  unfolding claim any
  claim-Claimed [] g w = (w, λ ok j. refl, λ j. inl refl)
  claim-Claimed (i ∷ is) g w = elim (Bool-cases (i == claimer)) [
    | inl t ↦ rw t (skip i is g _ (eqb_true i claimer t) (claim-Claimed is g w))
    | inr f ↦
        let o = claim_one (grant_env a commits) fresh claimer i g in
        rw f (
          claim_rest i is g o (claim (grant_env a commits) fresh claimer is o.rows)
            (eqb_false i claimer f) (claim_one-Gives i g w)
            (claim-Claimed is o.rows (claim_one-Gives i g w).0))
  ]

  -- After a claim that succeeds on a valid table, exactly the listed instances but the claimer
  -- itself have been claimed: each is owned by the claimer, at its old epoch when it was the
  -- claimer's already, at the next one when it moved, and at 1 when it was new. Every other
  -- grant is as it was, and the table is valid.
  pub claim_grants :
      (is : List ℕ) (g : Grants)
      → IsValid g
      → (claim (grant_env a commits) fresh claimer is g).0 ≡ ok tt
      → let g' = (claim (grant_env a commits) fresh claimer is g).1 in
        IsValid g' × ((j : ℕ) → lookup j g' ≡ after_claim claimer is j (lookup j g))
  claim_grants is g w r = let (v, h, c) = claim-Claimed is g w in (v, h r)

  -- Whatever the outcome of a claim on a valid table, an error in the middle of the loop
  -- included, the table stays valid and each grant is as it was or as a successful claim would
  -- leave it.
  pub claim_partial :
      (is : List ℕ) (g : Grants)
      → IsValid g
      → let g' = (claim (grant_env a commits) fresh claimer is g).1 in
        IsValid g'
        × ((j : ℕ)
            → (lookup j g' ≡ lookup j g) ⊎ (lookup j g' ≡ after_claim claimer is j (lookup j g)))
  claim_partial is g w = let (v, h, c) = claim-Claimed is g w in (v, c)
