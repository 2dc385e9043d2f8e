-- ===== src/Server/Hydration/Gains.antt =====
-- How a scope comes to be owned.
use sandpolis.Prelude.{
  ℕ, ◌≡◌, refl, sym, ap, In, ◌⊎◌, inl, inr, Option, none, some, List, [], ◌∷◌, ◌++◌, arith, ◌==◌,
  if◌then◌else◌, ◌∙◌, eqb_true, Bool-cases,
}
use sandpolis.Database.Scope.{ScopeState, hydrating, owned_at}
use sandpolis.Server.Hydration.{OwnedScope, Edge}
use sandpolis.Server.Hydration.Grants.{at}
use sandpolis.Server.Hydration.Event.{on_message_states}
use sandpolis.Server.Hydration.Tasks.{
  Step, event, finished, died, complete_entry, at-complete, abandoned,
}

same_epoch : {k l : ℕ} → some (owned_at k) ≡ some (owned_at l) → k ≡ l
same_epoch h = ground arith

In-middle :
    (xs ys : List OwnedScope) (s : OwnedScope) (j epoch : ℕ)
    → s.instance_id ≡ j
    → s.epoch ≡ epoch
    → In (record { instance_id = j; epoch = epoch }) (xs ++ s ∷ ys)
In-middle [] ys s j epoch p q = inl (ground arith)
In-middle (x ∷ xs) ys s j epoch p q = inr (In-middle xs ys s j epoch p q)

entry_owned :
    (e : Edge) (before after : List OwnedScope) (s : OwnedScope)
    → e.tasks ≡ before ++ s ∷ after
    → (j epoch : ℕ) (o : Option ScopeState) → at s.instance_id e ≡ o
    → complete_entry j s o (at j e) ≡ some (owned_at epoch)
    → (at j e ≡ some (owned_at epoch))
      ⊎ ((at j e ≡ some hydrating) × In (record { instance_id = j; epoch = epoch }) e.tasks)
entry_owned e before after s p j epoch none r h = inl h
entry_owned e before after s p j epoch (some (owned_at k)) r h = inl h
entry_owned e before after s p j epoch (some hydrating) r h =
    elim (Bool-cases (s.instance_id == j)) [
      | inl t ↦
          let i = eqb_true s.instance_id j t in
          inr (
            ap (λ k. at k e) (sym i) ∙ r,
            rw p (In-middle before after s j epoch i (same_epoch (rw t at h))),
          )
      | inr f ↦ inl (rw f at h)
    ]

abandoned_owned :
    (j : ℕ) (s : OwnedScope) (x : Option ScopeState) (epoch : ℕ)
    → (if s.instance_id == j then none else x) ≡ some (owned_at epoch)
    → x ≡ some (owned_at epoch)
abandoned_owned j s x epoch h = ground arith

-- A step makes a scope owned at an epoch only by the end of a pending hydration that was granted
-- with this epoch, while the scope was hydrating; otherwise the scope was so owned before.
pub Step-owned :
    {e f : Edge}
    → Step e f
    → (j epoch : ℕ) → at j f ≡ some (owned_at epoch)
    → (at j e ≡ some (owned_at epoch))
      ⊎ ((at j e ≡ some hydrating) × In (record { instance_id = j; epoch = epoch }) e.tasks)
Step-owned {e} (event link scopes) j epoch h = inl ((on_message_states link scopes e j).2 epoch h)
Step-owned {e} (finished before after s p) j epoch h =
    let rest = record e { tasks = before ++ after } in
    entry_owned e before after s p j epoch (at s.instance_id e) refl
      (sym (at-complete j s rest) ∙ h)
Step-owned {e} (died before after s p) j epoch h = inl (
    abandoned_owned j s (at j e) epoch
      (sym (abandoned j s (record e { tasks = before ++ after })) ∙ h))
