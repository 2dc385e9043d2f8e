-- ===== src/Server/Ownership/Watcher.antt =====
-- The global server's side of a claim stream (`OwnershipResponder`): a claim, and one turn of the
-- watcher that tells the peer what it owns and pulls that from it. Whether the connection still
-- exists, whether the event could be sent and what `open_sync` returned are given.
use sandpolis.Prelude.{
  ℕ, ◌≡◌, ◌≢◌, refl, sym, ap, ◌∙◌, ◌⊎◌, inl, inr, Bool, true, false, not, ◌&&◌, Option, none, some,
  List, [], ◌∷◌, ◌++◌, In, map, Result, ok, err, arith, ◌==◌, if◌then◌else◌, Bool-cases, eqb_true,
}
use sandpolis.Database.Scope.{WriteAuthority}
use sandpolis.Database.Resident.{Write, Env, Error}
use sandpolis.Database.Sync.{SyncFilter, filter_instance}
use sandpolis.Server.Hydration.{OwnedScope, Edge, on_message}
use sandpolis.Server.Hydration.Grants.{at}
use sandpolis.Server.Ownership.{OwnershipData, Grants, grant_env, claim, owned_by}
use sandpolis.Server.Ownership.Grants.{IsValid}
use sandpolis.Server.Ownership.Handover.{claim_revokes}

-- The responder and its watcher's task: what it told last, and its pull.
pub record Responder : Type 0 where
  pub watching : Bool
  pub previous : Option (List OwnedScope)
  pub pull : Option ℕ

abbrev pub same_scopes : List OwnedScope → List OwnedScope → Bool
same_scopes [] [] = true
same_scopes [] (y ∷ ys) = false
same_scopes (x ∷ xs) [] = false
same_scopes (x ∷ xs) (y ∷ ys) =
    x.instance_id == y.instance_id && x.epoch == y.epoch && same_scopes xs ys

abbrev pub told : Option (List OwnedScope) → List OwnedScope → Bool
told none owned = false
told (some scopes) owned = same_scopes scopes owned

-- What a turn does, in order.
pub data Act : Type 0 where
  sends : List OwnedScope → Act
  closes : ℕ → Act
  opens : List SyncFilter → Act

unfoldable pub pull_filters : ℕ → List OwnedScope → List SyncFilter
pull_filters peer owned =
    map (λ s. filter_instance s.instance_id) owned ++ filter_instance peer ∷ []

abbrev close_old : Option ℕ → List Act
close_old none = []
close_old (some id) = closes id ∷ []

watcher_after : Result Error (Unit {0}) → Responder → Responder
watcher_after (ok u) r = record r { watching = true }
watcher_after (err e) r = r

-- `on_message`: a claim that fails starts no watcher.
unfoldable pub claimed_by :
    Env OwnershipData
    → (ℕ → ℕ)
    → ℕ
    → List ℕ
    → Responder
    → Grants
    → Result Error (Unit {0}) × Responder × Grants
unfolding claim watcher_after
claimed_by v fresh peer is r g =
    let (result, g') = claim v fresh peer is g in (result, watcher_after result r, g')

-- A turn of the watcher; no result when it ends.
unfoldable pub watch_turn :
    ℕ → (connected sent : Bool) → Option ℕ → Grants → Responder → Option (Responder × List Act)
unfolding owned_by pull_filters
watch_turn peer connected sent stream g r =
    let owned = owned_by peer g in
    if told r.previous owned
    then some (r, [])
    else if not sent
    then none
    else if connected
    then some (
      record r { previous = some owned; pull = stream },
      sends owned ∷ close_old r.pull ++ opens (pull_filters peer owned) ∷ [],
    )
    else some (record r { previous = some owned }, sends owned ∷ [])

-- The events among the acts reach the peer's edge.
unfoldable pub deliver : Bool → List Act → Edge → Edge
unfolding on_message
deliver link [] e = e
deliver link (sends scopes ∷ acts) e = deliver link acts (on_message link scopes e)
deliver link (closes id ∷ acts) e = deliver link acts e
deliver link (opens filters ∷ acts) e = deliver link acts e

same_scopes-eq : (xs ys : List OwnedScope) → same_scopes xs ys ≡ true → xs ≡ ys
same_scopes-eq [] [] h = refl
same_scopes-eq [] (y ∷ ys) h = cc
same_scopes-eq (x ∷ xs) [] h = cc
same_scopes-eq (x ∷ xs) (y ∷ ys) h =
    ground
      (arith, same_scopes-eq xs ys, eqb_true x.instance_id y.instance_id, eqb_true x.epoch y.epoch)

told_same :
    (previous : Option (List OwnedScope)) (owned : List OwnedScope)
    → told previous owned ≡ true
    → previous ≡ some owned
told_same none owned h = cc
told_same (some scopes) owned h = ap some (same_scopes-eq scopes owned h)

deliver_rest :
    (link : Bool) (pull : Option ℕ) (filters : List SyncFilter) (e : Edge)
    → deliver link (close_old pull ++ opens filters ∷ []) e ≡ e
unfolding deliver
deliver_rest link none filters e = refl
deliver_rest link (some id) filters e = refl

-- What a turn that does not end tells the peer.
watch_turn-cases :
    (peer : ℕ) (connected sent link : Bool) (stream : Option ℕ) (g : Grants) (r r' : Responder)
    (acts : List Act) (e : Edge)
    → watch_turn peer connected sent stream g r ≡ some (r', acts)
    → (r'.previous ≡ some (owned_by peer g))
      × (((r'.previous ≡ r.previous) × (acts ≡ []))
          ⊎ (deliver link acts e ≡ on_message link (owned_by peer g) e))
unfolding watch_turn deliver
watch_turn-cases peer connected sent link stream g r r' acts e h =
    elim (Bool-cases (told r.previous (owned_by peer g))) [
      | inl t ↦
          let p : r ≡ r' = ground (arith, h, t) in
          let q : acts ≡ [] = ground (arith, h, t) in
          let was = told_same r.previous (owned_by peer g) t in
          let same : r'.previous ≡ r.previous = ap (λ (x : Responder). x.previous) (sym p) in
          (same ∙ was, inl (same, q))
      | inr f ↦ elim (Bool-cases sent) [
        | inl y ↦ elim (Bool-cases connected) [
          | inl c ↦
              let owned = owned_by peer g in
              let q : sends owned ∷ close_old r.pull ++ opens (pull_filters peer owned) ∷ []
                  ≡ acts =
                ground (arith, h, f, y, c) in
              (
                ground (arith, h, f, y, c),
                inr (
                    ap (λ x. deliver link x e) (sym q)
                    ∙ deliver_rest link r.pull (pull_filters peer owned) (on_message link owned e)),
              )
          | inr c ↦
              let q : sends (owned_by peer g) ∷ [] ≡ acts = ground (arith, h, f, y, c) in
              (ground (arith, h, f, y, c), inr (ap (λ x. deliver link x e) (sym q)))
        ]
        | inr y ↦ absurd (ground (arith, h, f, y))
      ]
    ]

module _ (a : WriteAuthority) (commits : List (Write OwnershipData) → Bool) (fresh : ℕ → ℕ)
    (claimer loser : ℕ) where
  -- After a claim on a valid table that succeeds, of a listed instance that is not the claimer, a
  -- turn of the watcher toward any other server that does not end has told that server last what
  -- it owns now: either it had told it the same already and does nothing, or the event that it
  -- sends takes every state of that instance from the other server, so its writes stop.
  pub claim_told :
      (is : List ℕ) (i : ℕ) (g : Grants) (connected sent link : Bool) (stream : Option ℕ)
      (r r' : Responder) (acts : List Act) (e : Edge)
      → IsValid g
      → (claim (grant_env a commits) fresh claimer is g).0 ≡ ok tt
      → In i is
      → i ≢ claimer
      → claimer ≢ loser
      → let g' = (claim (grant_env a commits) fresh claimer is g).1 in
        watch_turn loser connected sent stream g' r ≡ some (r', acts)
        → (r'.previous ≡ some (owned_by loser (claim (grant_env a commits) fresh claimer is g).1))
          × (((r'.previous ≡ r.previous) × (acts ≡ [])) ⊎ (at i (deliver link acts e) ≡ none))
  claim_told is i g connected sent link stream r r' acts e w ok_claim m n n' h =
      let g' = (claim (grant_env a commits) fresh claimer is g).1 in
      let (revoked, listed) =
        claim_revokes a commits fresh claimer loser is i g link e w ok_claim m n n' in
      let (p, c) = watch_turn-cases loser connected sent link stream g' r r' acts e h in
      (p, elim c [ inl same ↦ inl same | inr d ↦ inr (ap (at i) d ∙ revoked) ])
