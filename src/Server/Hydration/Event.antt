-- ===== src/Server/Hydration/Event.antt =====
-- What an `Owned` event does to the state of every scope.
use sandpolis.Prelude.{
  ℕ, ◌≡◌, ap, inl, inr, Bool, true, false, not, ◌&&◌, Option, none, some, List, In, any, any-In,
  arith, ◌==◌, if◌then◌else◌, ◌∙◌, eqb_self, Option-cases,
}
use sandpolis.Database.Scope.{ScopeState, owned_at, tracked}
use sandpolis.Database.Scope.History.{tracked-state}
use sandpolis.Server.Hydration.{OwnedScope, Edge, lists, revoke_missing, apply_grants, on_message}
use sandpolis.Server.Hydration.Grants.{
  at, after_grant, at-revoke_missing, at-apply_grants_other, owned-apply_grants, IsUnderWay,
  granted-IsUnderWay, Agrees, granted_state,
}

-- A scope that has a state is in the snapshot of `tracked`.
revoked : ℕ → Bool → List OwnedScope → Edge → Option ScopeState
revoked j listed scopes e =
    if any (λ i. i == j) (tracked e.table) && not listed then none else at j e

revoked-unlisted : (j : ℕ) (scopes : List OwnedScope) (e : Edge) → revoked j false scopes e ≡ none
unfolding revoked
revoked-unlisted j scopes e = elim (Option-cases (at j e)) [
  | inl p ↦ ground arith
  | inr (o, p) ↦
      let i = (tracked-state j e.table).1 (λ q. cc (p, q)) in
      ground (arith, any-In (λ i. i == j) (tracked e.table) i (eqb_self j))
]

-- After an `Owned` event, of every instance: if the event does not list it, it has no state any
-- more (its writes have stopped); if the event lists it and the link is up, it is hydrating or owned
-- at the epoch of the event; if it is owned at all, it was owned at that epoch before, so the
-- event by itself makes nothing writable; and if the event lists it with one epoch only, it stays
-- owned when it was owned at that epoch, goes on hydrating when it was hydrating, and otherwise is
-- hydrating when the link is up and has no state when it is down.
pub on_message_states :
    (link : Bool) (scopes : List OwnedScope) (e : Edge) (j : ℕ)
    → (lists scopes j ≡ false → at j (on_message link scopes e) ≡ none)
      × ((s : OwnedScope)
          → In s scopes
          → link ≡ true
          → IsUnderWay s.epoch (at s.instance_id (on_message link scopes e)))
      × ((epoch : ℕ)
          → at j (on_message link scopes e) ≡ some (owned_at epoch)
          → at j e ≡ some (owned_at epoch))
      × ((s : OwnedScope)
          → In s scopes
          → Agrees s scopes
          → at s.instance_id (on_message link scopes e) ≡ after_grant link s (at s.instance_id e))
unfolding on_message
on_message_states link scopes e j = (unlisted, granted, owned_before, exactly)
  where
    kept : Edge
    kept = revoke_missing scopes (tracked e.table) e

    unlisted : lists scopes j ≡ false → at j (apply_grants link scopes kept) ≡ none
    unlisted n =
        at-apply_grants_other j link scopes kept n
        ∙ at-revoke_missing j scopes (tracked e.table) e
        ∙ rw n (unfold revoked in revoked-unlisted j scopes e)

    granted :
        (s : OwnedScope)
        → In s scopes
        → link ≡ true
        → IsUnderWay s.epoch (at s.instance_id (apply_grants link scopes kept))
    granted s i up = rw up (granted-IsUnderWay scopes kept s i)

    owned_before :
        (epoch : ℕ)
        → at j (apply_grants link scopes kept) ≡ some (owned_at epoch)
        → at j e ≡ some (owned_at epoch)
    owned_before epoch h = ground (
      arith,
      owned-apply_grants j epoch link scopes kept h,
      at-revoke_missing j scopes (tracked e.table) e,
    )

    exactly :
        (s : OwnedScope)
        → In s scopes
        → Agrees s scopes
        → at s.instance_id (apply_grants link scopes kept) ≡ after_grant link s (at s.instance_id e)
    exactly s i agree =
        let l : lists scopes s.instance_id ≡ true =
          unfold lists in
          any-In (λ x. x.instance_id == s.instance_id) scopes i (eqb_self s.instance_id) in
        granted_state link s scopes kept agree i
        ∙ ap (after_grant link s)
            (at-revoke_missing s.instance_id scopes (tracked e.table) e ∙ ground (arith, l))
