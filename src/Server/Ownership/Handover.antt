-- ===== src/Server/Ownership/Handover.antt =====
-- How a claim elsewhere stops the previous owner's writes.
use sandpolis.Prelude.{
  ℕ, ◌≡◌, ◌≢◌, refl, sym, ◌∙◌, Bool, true, Option, none, some, List, ok, In, any-In, arith, ◌==◌,
  eqb_self,
}
use sandpolis.Database.Scope.{WriteAuthority}
use sandpolis.Database.Resident.{Write}
use sandpolis.Server.Hydration.{Edge, lists, on_message}
use sandpolis.Server.Hydration.Grants.{at}
use sandpolis.Server.Hydration.Event.{on_message_states}
use sandpolis.Server.Ownership.{OwnershipData, Grants, grant_env, claim, owned_by}
use sandpolis.Server.Ownership.Grants.{IsValid, lookup}
use sandpolis.Server.Ownership.Claims.{claimed, after_claim, claim_grants}
use sandpolis.Server.Ownership.Owned.{listed, unlisted}

claimed-owner : (claimer i : ℕ) (o : Option OwnershipData) → (claimed claimer i o).owner ≡ claimer
claimed-owner claimer i none = refl
claimed-owner claimer i (some d) = ground arith

module _ (a : WriteAuthority) (commits : List (Write OwnershipData) → Bool) (fresh : ℕ → ℕ)
    (claimer loser : ℕ) where
  moved :
      (i : ℕ) (is : List ℕ) (o : Option OwnershipData)
      → In i is
      → i ≢ claimer
      → after_claim claimer is i o ≡ some (claimed claimer i o)
  moved i is o m n = ground (arith, any-In (λ x. x == i) is m (eqb_self i), n)

  -- An instance that attaches to another server moves: after a claim on a valid table that
  -- succeeds, of every listed instance but the claimer itself, any other server that is told
  -- what it owns has no state for that instance any more, so it does not write its data,
  -- whatever it owned before; and the claimer is told that it owns the instance.
  pub claim_revokes :
      (is : List ℕ) (i : ℕ) (g : Grants) (link : Bool) (e : Edge)
      → IsValid g
      → (claim (grant_env a commits) fresh claimer is g).0 ≡ ok tt
      → In i is
      → i ≢ claimer
      → claimer ≢ loser
      → let g' = (claim (grant_env a commits) fresh claimer is g).1 in
        (at i (on_message link (owned_by loser g') e) ≡ none)
        × (lists (owned_by claimer g') i ≡ true)
  claim_revokes is i g link e w r m n n' =
      let g' = (claim (grant_env a commits) fresh claimer is g).1 in
      let d = claimed claimer i (lookup i g) in
      let (v, h) = claim_grants a commits fresh claimer is g w r in
      let l : lookup i g' ≡ some d = h i ∙ moved i is (lookup i g) m n in
      let o = claimed-owner claimer i (lookup i g) in
      (
        (on_message_states link (owned_by loser g') e i).0
            (unlisted loser i g' d v l (λ q. n' (sym o ∙ q))),
        listed claimer i g' d v l o,
      )
