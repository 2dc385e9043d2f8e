-- ===== src/Server/Ownership/Local.antt =====
-- The claims that the global server makes for itself (`attached_instances` and
-- `maintain_local_claims`). A set of ids is an ascending list; a turn of the loop sees the peers of
-- the live connections.
use sandpolis.Prelude.{
  ℕ, ◌≡◌, ◌≢◌, refl, sym, ap, subst, ◌∙◌, ◌⊎◌, inl, inr, Bool, true, false, not, ◌&&◌, Option, none,
  some, List, [], ◌∷◌, In, any, any-In, ok, arith, ltb, ◌==◌, if◌then◌else◌, Bool-cases, eqb_self,
  eqb_true,
}
use sandpolis.Instance.Id.{is_type, server}
use sandpolis.Database.Scope.{WriteAuthority}
use sandpolis.Database.Resident.{Write}
use sandpolis.Server.Ownership.{OwnershipData, Grants, grant_env, claim}
use sandpolis.Server.Ownership.Grants.{IsValid, lookup}
use sandpolis.Server.Ownership.Claims.{claimed, claim_grants}

-- Insertion into a `BTreeSet`.
unfoldable pub insert_id : ℕ → List ℕ → List ℕ
insert_id i [] = i ∷ []
insert_id i (j ∷ js) =
    let rest = insert_id i js in if i == j then j ∷ js else if ltb i j then i ∷ j ∷ js else j ∷ rest

unfoldable pub attached_instances : List ℕ → List ℕ
unfolding is_type insert_id
attached_instances [] = []
attached_instances (i ∷ peers) =
    let rest = attached_instances peers in if not (is_type i server) then insert_id i rest else rest

abbrev pub same_ids : List ℕ → List ℕ → Bool
same_ids [] [] = true
same_ids [] (y ∷ ys) = false
same_ids (x ∷ xs) [] = false
same_ids (x ∷ xs) (y ∷ ys) = x == y && same_ids xs ys

-- The loop's `previous`, and the grant table.
pub record LocalClaims : Type 0 where
  pub previous : Option (List ℕ)
  pub grants : Grants

-- What a turn meets.
pub record Turn : Type 0 where
  pub authority : WriteAuthority
  pub commits : List (Write OwnershipData) → Bool
  pub fresh : ℕ → ℕ
  pub peers : List ℕ

abbrev pub seen_before : Option (List ℕ) → List ℕ → Bool
seen_before none attached = false
seen_before (some ids) attached = same_ids ids attached

module _ (self : ℕ) where
  unfoldable pub local_turn : Turn → LocalClaims → LocalClaims
  unfolding attached_instances claim
  local_turn t s =
      let attached = attached_instances t.peers in
      let result = claim (grant_env t.authority t.commits) t.fresh self attached s.grants in
      if not (seen_before s.previous attached)
      then record { previous = some attached; grants = result.1 }
      else s

  unfoldable pub local_turns : List Turn → LocalClaims → LocalClaims
  unfolding local_turn
  local_turns [] s = s
  local_turns (t ∷ ts) s = local_turns ts (local_turn t s)

insert_id-In : (i j : ℕ) (js : List ℕ) → (i ≡ j) ⊎ In j js → In j (insert_id i js)
unfolding insert_id
insert_id-In i j [] h = h
insert_id-In i j (k ∷ js) h = ground (arith, h, insert_id-In i j js, eqb_true i k)

attached-In :
    (peers : List ℕ) (i : ℕ)
    → In i peers
    → is_type i server ≡ false
    → In i (attached_instances peers)
unfolding attached_instances
attached-In [] i h t = absurd h
attached-In (j ∷ peers) i (inl e) t =
    let o : is_type j server ≡ false = subst (λ x. is_type x server ≡ false) (sym e) t in
    rw o (insert_id-In j i (attached_instances peers) (inl e))
attached-In (j ∷ peers) i (inr m) t =
    let rest = attached-In peers i m t in
    elim (Bool-cases (is_type j server)) [
      | inl y ↦ rw y rest
      | inr n ↦ rw n (insert_id-In j i (attached_instances peers) (inr rest))
    ]

same_ids_self : (xs : List ℕ) → same_ids xs xs ≡ true
same_ids_self [] = refl
same_ids_self (x ∷ xs) = ground (arith, eqb_self x, same_ids_self xs)

-- Turns that see the same peers as attached.
abbrev pub SeeSame : List ℕ → List Turn → Type 0
SeeSame ids [] = Unit
SeeSame ids (t ∷ ts) = (attached_instances t.peers ≡ ids) × SeeSame ids ts

module _ (self : ℕ) where
  local_turns_same :
      (ids : List ℕ) (ts : List Turn) (s : LocalClaims)
      → s.previous ≡ some ids
      → SeeSame ids ts
      → local_turns self ts s ≡ s
  unfolding local_turns local_turn
  local_turns_same ids [] s e w = refl
  local_turns_same ids (t ∷ ts) s e (a, w) =
      let same : seen_before s.previous (attached_instances t.peers) ≡ true =
        ap (λ o. seen_before o (attached_instances t.peers)) e
        ∙ ap (λ x. same_ids ids x) a
        ∙ same_ids_self ids in
      let stay : local_turn self t s ≡ s = ground (arith, same) in
      ap (local_turns self ts) stay ∙ local_turns_same ids ts s e w

  new_turn :
      (t : Turn) (s : LocalClaims)
      → seen_before s.previous (attached_instances t.peers) ≡ false
      → local_turn self t s ≡ record {
        previous = some (attached_instances t.peers);
        grants =
            (claim
              (grant_env t.authority t.commits)
              t.fresh
              self
              (attached_instances t.peers)
              s.grants).1;
      }
  unfolding local_turn
  new_turn t s f = ground (arith, f)

  claimed_owner : (i : ℕ) (o : Option OwnershipData) → (claimed self i o).owner ≡ self
  claimed_owner i none = refl
  claimed_owner i (some d) = ground (arith, eqb_true d.owner self)

  -- When the loop sees a set of peers that differs from the one before, over a valid table, it
  -- claims them once: if the claim succeeds, the server owns every peer that is no server and not
  -- itself. Whether or not it succeeds, as long as the set stays the same, later turns change
  -- nothing: a claim that failed is not tried again.
  pub local_turns-claim :
      (t : Turn) (ts : List Turn) (s : LocalClaims)
      → IsValid s.grants
      → seen_before s.previous (attached_instances t.peers) ≡ false
      → SeeSame (attached_instances t.peers) ts
      → let result =
          claim
            (grant_env t.authority t.commits)
            t.fresh
            self
            (attached_instances t.peers)
            s.grants in
        (result.0 ≡ ok tt
          → (i : ℕ) → In i t.peers
          → is_type i server ≡ false
          → i ≢ self
          → (d : OwnershipData) × (lookup i (local_turns self (t ∷ ts) s).grants ≡ some d)
            × (d.owner ≡ self))
        × ((local_turns self (t ∷ ts) s).grants ≡ result.1)
  unfolding local_turns
  local_turns-claim t ts s w f same =
      let ids = attached_instances t.peers in
      let result = claim (grant_env t.authority t.commits) t.fresh self ids s.grants in
      let s' : LocalClaims = record { previous = some ids; grants = result.1 } in
      let end : local_turns self ts (local_turn self t s) ≡ s' =
        ap (local_turns self ts) (new_turn t s f) ∙ local_turns_same ids ts s' refl same in
      (
        λ r i m x n.
            let (v, c) = claim_grants t.authority t.commits t.fresh self ids s.grants w r in
            let listed : any (λ j. j == i) ids ≡ true =
              any-In (λ j. j == i) ids {a = i} (attached-In t.peers i m x) (eqb_self i) in
            let now : lookup i result.1 ≡ some (claimed self i (lookup i s.grants)) =
              c i ∙ ground (arith, listed, n) in
            (
              claimed self i (lookup i s.grants),
              ap (λ (z : LocalClaims). lookup i z.grants) end ∙ now,
              claimed_owner i (lookup i s.grants),
            ),
        ap (λ (z : LocalClaims). z.grants) end,
      )
