-- ===== src/Server/Hydration/Grants.antt =====
-- What the grants and the revocations of an `Owned` event do to the state of one scope.
use sandpolis.Prelude.{
  ℕ, ◌≡◌, refl, sym, ap, subst, ◌⊎◌, inl, inr, Bool, true, false, not, ◌&&◌, Option, none, some,
  List, [], ◌∷◌, In, any, arith, ◌==◌, if◌then◌else◌, ◌∙◌, eqb_self, eqb_true, Bool-cases,
}
use sandpolis.Database.Scope.{ScopeState, hydrating, owned_at, state, begin_hydrating}
use sandpolis.Database.Scope.History.{state-begin_hydrating, state-release}
use sandpolis.Server.Hydration.{
  OwnedScope, Edge, lists, revoke_one, revoke_missing, hydrate, apply_state, apply_grant,
  apply_grants,
}

abbrev pub at : ℕ → Edge → Option ScopeState
at j e = state j e.table

-- A new grant: hydrating while the link is there, and given up at once otherwise.
abbrev pub started : Bool → Option ScopeState
started true = some hydrating
started false = none

-- What one granted scope makes of the state of its instance.
abbrev pub after_grant : Bool → OwnedScope → Option ScopeState → Option ScopeState
after_grant link s none = started link
after_grant link s (some hydrating) = some hydrating
after_grant link s (some (owned_at epoch)) =
    if epoch == s.epoch then some (owned_at epoch) else started link

pub at-revoke_if :
    (j : ℕ) (scopes : List OwnedScope) (i : ℕ) (e : Edge)
    → at j (if not (lists scopes i) then revoke_one i e else e)
      ≡ (if i == j && not (lists scopes j) then none else at j e)
unfolding revoke_one
at-revoke_if j scopes i e = elim (Bool-cases (i == j)) [
  | inl t ↦ let p = eqb_true i j t in ground (arith, state-release j i e.table)
  | inr f ↦ ground (arith, state-release j i e.table)
]

pub at-revoke_missing :
    (j : ℕ) (scopes : List OwnedScope) (is : List ℕ) (e : Edge)
    → at j (revoke_missing scopes is e)
      ≡ (if any (λ i. i == j) is && not (lists scopes j) then none else at j e)
unfolding revoke_missing any
at-revoke_missing j scopes [] e = refl
at-revoke_missing j scopes (i ∷ is) e =
    at-revoke_missing j scopes is (if not (lists scopes i) then revoke_one i e else e)
    ∙ ground (arith, at-revoke_if j scopes i e)

pub at-hydrate :
    (j : ℕ) (link : Bool) (s : OwnedScope) (e : Edge)
    → at j (hydrate link s e) ≡ (if s.instance_id == j then started link else at j e)
unfolding hydrate
at-hydrate j true s e = state-begin_hydrating j s.instance_id e.table
at-hydrate j false s e = ground (
  arith,
  state-release j s.instance_id (begin_hydrating s.instance_id e.table),
  state-begin_hydrating j s.instance_id e.table,
)

at-apply_state :
    (j : ℕ) (link : Bool) (s : OwnedScope) (e : Edge) (o : Option ScopeState)
    → at s.instance_id e ≡ o
    → at j (apply_state link s e o) ≡ (if s.instance_id == j then after_grant link s o else at j e)
unfolding apply_state
at-apply_state j link s e none p = at-hydrate j link s _
at-apply_state j link s e (some hydrating) p = ground (arith, eqb_true s.instance_id j)
at-apply_state j link s e (some (owned_at epoch)) p = elim (Bool-cases (epoch == s.epoch)) [
  | inl t ↦ rw t (ground (arith, eqb_true s.instance_id j))
  | inr f ↦ rw f (at-hydrate j link s _)
]

pub at-apply_grant :
    (j : ℕ) (link : Bool) (s : OwnedScope) (e : Edge)
    → at j (apply_grant link s e)
      ≡ (if s.instance_id == j then after_grant link s (at j e) else at j e)
unfolding apply_grant
at-apply_grant j link s e =
    at-apply_state j link s e (at s.instance_id e) refl ∙ ground (arith, eqb_true s.instance_id j)

-- A scope that no grant of the event names keeps its state.
pub at-apply_grants_other :
    (j : ℕ) (link : Bool) (scopes : List OwnedScope) (e : Edge)
    → lists scopes j ≡ false
    → at j (apply_grants link scopes e) ≡ at j e
unfolding apply_grants lists any
at-apply_grants_other j link [] e n = refl
at-apply_grants_other j link (s ∷ ss) e n =
    at-apply_grants_other j link ss (apply_grant link s e) (ground arith)
    ∙ ground (arith, at-apply_grant j link s e)

-- Grants make no scope writable.
pub owned-apply_grants :
    (j epoch : ℕ) (link : Bool) (scopes : List OwnedScope) (e : Edge)
    → at j (apply_grants link scopes e) ≡ some (owned_at epoch)
    → at j e ≡ some (owned_at epoch)
unfolding apply_grants
owned-apply_grants j epoch link [] e h = h
owned-apply_grants j epoch link (s ∷ ss) e h =
    owned_before (at j e) (
      sym (at-apply_grant j link s e) ∙ owned-apply_grants j epoch link ss (apply_grant link s e) h)
  where
    owned_before :
        (o : Option ScopeState)
        → (if s.instance_id == j then after_grant link s o else o) ≡ some (owned_at epoch)
        → o ≡ some (owned_at epoch)
    owned_before none q = ground arith
    owned_before (some hydrating) q = ground arith
    owned_before (some (owned_at k)) q = ground arith

-- Once a grant is started or found owned, later grants of the event leave it so.
abbrev pub IsUnderWay : ℕ → Option ScopeState → Type 0
IsUnderWay epoch o = (o ≡ some hydrating) ⊎ (o ≡ some (owned_at epoch))

started-IsUnderWay :
    (epoch : ℕ) (s : OwnedScope) (o : Option ScopeState)
    → IsUnderWay epoch o
    → IsUnderWay epoch (after_grant true s o)
started-IsUnderWay epoch s o (inl p) = rw p (inl refl)
started-IsUnderWay epoch s o (inr p) = rw p (ground arith)

after_grant-IsUnderWay :
    (s : OwnedScope) (o : Option ScopeState) → IsUnderWay s.epoch (after_grant true s o)
after_grant-IsUnderWay s none = inl refl
after_grant-IsUnderWay s (some hydrating) = inl refl
after_grant-IsUnderWay s (some (owned_at k)) = ground arith

apply_grants-IsUnderWay :
    (j epoch : ℕ) (scopes : List OwnedScope) (e : Edge)
    → IsUnderWay epoch (at j e)
    → IsUnderWay epoch (at j (apply_grants true scopes e))
unfolding apply_grants
apply_grants-IsUnderWay j epoch [] e h = h
apply_grants-IsUnderWay j epoch (s ∷ ss) e h =
    apply_grants-IsUnderWay j epoch ss (apply_grant true s e)
      (rw (at-apply_grant j true s e) (kept (s.instance_id == j)))
  where
    kept : (b : Bool) → IsUnderWay epoch (if b then after_grant true s (at j e) else at j e)
    kept true = started-IsUnderWay epoch s (at j e) h
    kept false = h

pub granted-IsUnderWay :
    (scopes : List OwnedScope) (e : Edge) (s : OwnedScope)
    → In s scopes
    → IsUnderWay s.epoch (at s.instance_id (apply_grants true scopes e))
unfolding apply_grants
granted-IsUnderWay [] e s i = absurd i
granted-IsUnderWay (x ∷ xs) e s (inl p) =
    subst (λ y. IsUnderWay y.epoch (at y.instance_id (apply_grants true xs (apply_grant true x e))))
      p
      (apply_grants-IsUnderWay x.instance_id x.epoch xs (apply_grant true x e) (
        rw (at-apply_grant x.instance_id true x e, eqb_self x.instance_id)
          (after_grant-IsUnderWay x (at x.instance_id e))))
granted-IsUnderWay (x ∷ xs) e s (inr i) = granted-IsUnderWay xs (apply_grant true x e) s i

after_grant-twice :
    (link : Bool) (s : OwnedScope) (o : Option ScopeState)
    → after_grant link s (after_grant link s o) ≡ after_grant link s o
after_grant-twice true s none = refl
after_grant-twice false s none = refl
after_grant-twice link s (some hydrating) = refl
after_grant-twice true s (some (owned_at k)) = ground arith
after_grant-twice false s (some (owned_at k)) = ground arith

after_grant-epoch :
    (link : Bool) (s x : OwnedScope) (o : Option ScopeState)
    → x.epoch ≡ s.epoch
    → after_grant link x o ≡ after_grant link s o
after_grant-epoch link s x none e = refl
after_grant-epoch link s x (some hydrating) e = refl
after_grant-epoch link s x (some (owned_at k)) e = ground arith

-- An event names no instance of this grant with another epoch.
abbrev pub Agrees : OwnedScope → List OwnedScope → Type 0
Agrees s scopes = (x : OwnedScope) → In x scopes → x.instance_id ≡ s.instance_id → x.epoch ≡ s.epoch

one-grant :
    (link : Bool) (s x : OwnedScope) (e : Edge)
    → (x.instance_id ≡ s.instance_id → x.epoch ≡ s.epoch)
    → after_grant link s (at s.instance_id (apply_grant link x e))
      ≡ after_grant link s (at s.instance_id e)
one-grant link s x e same = elim (Bool-cases (x.instance_id == s.instance_id)) [
  | inl y ↦
      let q =
        after_grant-epoch link s x (at s.instance_id e)
          (same (eqb_true x.instance_id s.instance_id y)) in
      ap (after_grant link s) (ground (arith, at-apply_grant s.instance_id link x e, y, q))
      ∙ after_grant-twice link s (at s.instance_id e)
  | inr n ↦ ap (after_grant link s) (ground (arith, at-apply_grant s.instance_id link x e, n))
]

-- Grants that agree with `s` leave what `s` leaves of a state that it has been applied to.
settled :
    (link : Bool) (s : OwnedScope) (scopes : List OwnedScope) (e : Edge)
    → Agrees s scopes
    → after_grant link s (at s.instance_id e) ≡ at s.instance_id e
    → at s.instance_id (apply_grants link scopes e) ≡ at s.instance_id e
unfolding apply_grants
settled link s [] e agree h = refl
settled link s (x ∷ xs) e agree h =
    let here : at s.instance_id (apply_grant link x e) ≡ at s.instance_id e =
      elim (Bool-cases (x.instance_id == s.instance_id)) [
        | inl y ↦
            let q =
              after_grant-epoch link s x (at s.instance_id e)
                (agree x (inl refl) (eqb_true x.instance_id s.instance_id y)) in
            ground (arith, at-apply_grant s.instance_id link x e, y, q, h)
        | inr n ↦ ground (arith, at-apply_grant s.instance_id link x e, n)
      ] in
    settled link s xs (apply_grant link x e) (λ y i. agree y (inr i))
      (ap (after_grant link s) here ∙ h ∙ sym here)
    ∙ here

pub granted_state :
    (link : Bool) (s : OwnedScope) (scopes : List OwnedScope) (e : Edge)
    → Agrees s scopes
    → In s scopes
    → at s.instance_id (apply_grants link scopes e) ≡ after_grant link s (at s.instance_id e)
unfolding apply_grants
granted_state link s [] e agree i = absurd i
granted_state link s (x ∷ xs) e agree (inl p) =
    let here : at s.instance_id (apply_grant link x e) ≡ after_grant link s (at s.instance_id e) =
      subst (λ y. at s.instance_id (apply_grant link y e) ≡ after_grant link s (at s.instance_id e))
        (sym p) (at-apply_grant s.instance_id link s e ∙ ground (arith, eqb_self s.instance_id)) in
    settled link s xs (apply_grant link x e) (λ y i. agree y (inr i))
      (ap (after_grant link s) here ∙ after_grant-twice link s (at s.instance_id e) ∙ sym here)
    ∙ here
granted_state link s (x ∷ xs) e agree (inr i) =
    granted_state link s xs (apply_grant link x e) (λ y j. agree y (inr j)) i
    ∙ one-grant link s x e (agree x (inl refl))
