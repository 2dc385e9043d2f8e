-- ===== src/Server/Hydration/Epochs.antt =====
-- The epoch that a hydration ends with, when the scope was granted again in the meantime.
use sandpolis.Prelude.{
  ℕ, ◌≡◌, refl, sym, ap, ◌≢◌, inl, inr, true, Option, none, some, List, [], ◌∷◌, any, arith, ◌∙◌,
  eqb_self, Bool-cases,
}
use sandpolis.Database.Scope.{
  ScopeState, hydrating, owned_at, state, tracked, may_write, of_instance,
}
use sandpolis.Server.Hydration.{
  OwnedScope, Edge, lists, revoke_one, revoke_missing, apply_state, apply_grant, apply_grants,
  on_message, complete, complete_state,
}
use sandpolis.Server.Hydration.Grants.{at, at-revoke_missing}
use sandpolis.Server.Hydration.Event.{on_message_states}
use sandpolis.Server.Hydration.Tasks.{at-complete}

hydrating-ne-owned : (k : ℕ) → some hydrating ≢ some (owned_at k)
hydrating-ne-owned k = λ e. cc

-- A scope that is hydrating goes on hydrating when an event grants it, at whatever epoch.
granted_again :
    (e : Edge) (s : OwnedScope)
    → at s.instance_id e ≡ some hydrating
    → at s.instance_id (on_message true (s ∷ []) e) ≡ some hydrating
granted_again e s h =
    let p = on_message_states true (s ∷ []) e s.instance_id in
    elim (p.1 s (inl refl) refl) [
      | inl q ↦ q
      | inr q ↦ absurd (hydrating-ne-owned s.epoch (sym h ∙ p.2 s.epoch q))
    ]

complete_hydrating :
    (e : Edge) (s : OwnedScope)
    → at s.instance_id e ≡ some hydrating
    → at s.instance_id (complete s e) ≡ some (owned_at s.epoch)
complete_hydrating e s h = at-complete s.instance_id s e ∙ ground (arith, h, eqb_self s.instance_id)

revoke_missing-tasks :
    (scopes : List OwnedScope) (is : List ℕ) (e : Edge)
    → (revoke_missing scopes is e).tasks ≡ e.tasks
unfolding revoke_missing revoke_one
revoke_missing-tasks scopes [] e = refl
revoke_missing-tasks scopes (i ∷ is) e = elim (Bool-cases (lists scopes i)) [
  | inl y ↦ ground (arith, y, revoke_missing-tasks scopes is e)
  | inr n ↦ ground (arith, n, revoke_missing-tasks scopes is (revoke_one i e))
]

-- An event starts no hydration of a scope that is hydrating.
starts_nothing :
    (e : Edge) (s : OwnedScope)
    → at s.instance_id e ≡ some hydrating
    → (on_message true (s ∷ []) e).tasks ≡ e.tasks
unfolding on_message apply_grants apply_grant apply_state lists any
starts_nothing e s h =
    let kept = revoke_missing (s ∷ []) (tracked e.table) e in
    let q : at s.instance_id kept ≡ some hydrating =
      at-revoke_missing s.instance_id (s ∷ []) (tracked e.table) e
      ∙ ground (arith, h, eqb_self s.instance_id) in
    ap (λ o. (apply_state true s kept o).tasks) q
    ∙ revoke_missing-tasks (s ∷ []) (tracked e.table) e

complete-tasks :
    (s : OwnedScope) (e : Edge) (o : Option ScopeState) → (complete_state s e o).tasks ≡ e.tasks
unfolding complete_state
complete-tasks s e none = refl
complete-tasks s e (some hydrating) = refl
complete-tasks s e (some (owned_at k)) = refl

-- While a scope is hydrating under one grant, an event grants it at another epoch. The event starts
-- no hydration of the new grant; the hydration of the old one then ends, and the scope is owned, hence
-- writable, at the old epoch, still with no task of the new grant; only another event that lists the
-- new grant makes it hydrate again.
pub stale_epoch :
    (e : Edge) (old fresh : OwnedScope)
    → old.instance_id ≡ fresh.instance_id
    → old.epoch ≢ fresh.epoch
    → at fresh.instance_id e ≡ some hydrating
    → let e' = complete old (on_message true (fresh ∷ []) e) in
      ((on_message true (fresh ∷ []) e).tasks ≡ e.tasks)
      × (e'.tasks ≡ e.tasks)
      × (at fresh.instance_id e' ≡ some (owned_at old.epoch))
      × (may_write e'.table (of_instance fresh.instance_id) ≡ true)
      × (at fresh.instance_id (on_message true (fresh ∷ []) e') ≡ some hydrating)
unfolding complete
stale_epoch e old fresh same differ h =
    let granted = on_message true (fresh ∷ []) e in
    let none_new = starts_nothing e fresh h in
    let first : at fresh.instance_id (complete old granted) ≡ some (owned_at old.epoch) =
      ap (λ i. at i (complete old granted)) (sym same)
      ∙ complete_hydrating granted old (ap (λ i. at i granted) same ∙ granted_again e fresh h) in
    (
      none_new,
      complete-tasks old granted (state old.instance_id granted.table) ∙ none_new,
      first,
      unfold may_write in ground (arith, first),
      (on_message_states true (fresh ∷ []) (complete old granted) fresh.instance_id).3 fresh
            (inl refl)
            (λ x i q. elim i [
              | inl p ↦ ap (λ (y : OwnedScope). y.epoch) (sym p)
              | inr b ↦ absurd b
            ])
          ∙ ground (arith, first),
    )
