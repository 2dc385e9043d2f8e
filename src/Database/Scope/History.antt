-- ===== src/Database/Scope/History.antt =====
-- What the scope table says after any sequence of its operations.
use mathlib.Core.Path.{ap₂}
use sandpolis.Prelude.{
  ℕ, ◌≡◌, refl, sym, ap, ◌↔◌, ◌≢◌, ◌⊎◌, inl, inr, true, false, ◌||◌, Option, none, some, List, [],
  ◌∷◌, In, arith, ◌==◌, if◌then◌else◌, ◌∙◌, eqb_self, eqb_true, Bool-cases,
}
use sandpolis.Prelude.Maps.{Assoc, get, keys, get-put, get-erase}
use sandpolis.Database.Scope.{
  global, of_instance, ScopeState, hydrating, owned_at, ScopeTable, state, begin_hydrating,
  set_owned, release, tracked, is_self, is_owned, may_write,
}

-- The calls that change the table.
pub data Change : Type 0 where
  granted : ℕ → Change
  hydrated : ℕ → ℕ → Change
  revoked : ℕ → Change

change : Change → ScopeTable → ScopeTable
change (granted i) t = begin_hydrating i t
change (hydrated i epoch) t = set_owned i epoch t
change (revoked i) t = release i t

-- Oldest first.
pub run : List Change → ScopeTable → ScopeTable
unfolding change
run [] t = t
run (c ∷ cs) t = run cs (change c t)

-- The state that the latest change of an instance left it in, or the one from before.
abbrev pub latest : ℕ → List Change → Option ScopeState → Option ScopeState
latest i [] o = o
latest i (granted j ∷ cs) o = latest i cs (if j == i then some hydrating else o)
latest i (hydrated j epoch ∷ cs) o = latest i cs (if j == i then some (owned_at epoch) else o)
latest i (revoked j ∷ cs) o = latest i cs (if j == i then none else o)

pub state-begin_hydrating :
    (i j : ℕ) (t : ScopeTable)
    → state i (begin_hydrating j t) ≡ (if j == i then some hydrating else state i t)
unfolding state begin_hydrating
state-begin_hydrating i j t = get-put j i hydrating t.scopes

pub state-set_owned :
    (i j epoch : ℕ) (t : ScopeTable)
    → state i (set_owned j epoch t) ≡ (if j == i then some (owned_at epoch) else state i t)
unfolding state set_owned
state-set_owned i j epoch t = get-put j i (owned_at epoch) t.scopes

pub state-release :
    (i j : ℕ) (t : ScopeTable) → state i (release j t) ≡ (if j == i then none else state i t)
unfolding state release
state-release i j t = get-erase j i t.scopes

state-run :
    (i : ℕ) (cs : List Change) (t : ScopeTable) → state i (run cs t) ≡ latest i cs (state i t)
unfolding run
state-run i [] t = refl
state-run i (granted j ∷ cs) t =
    state-run i cs (begin_hydrating j t) ∙ ap (latest i cs) (state-begin_hydrating i j t)
state-run i (hydrated j epoch ∷ cs) t =
    state-run i cs (set_owned j epoch t) ∙ ap (latest i cs) (state-set_owned i j epoch t)
state-run i (revoked j ∷ cs) t =
    state-run i cs (release j t) ∙ ap (latest i cs) (state-release i j t)

self_id-run : (cs : List Change) (t : ScopeTable) → (run cs t).self_id ≡ t.self_id
unfolding run begin_hydrating set_owned release
self_id-run [] t = refl
self_id-run (granted j ∷ cs) t = self_id-run cs (begin_hydrating j t)
self_id-run (hydrated j epoch ∷ cs) t = self_id-run cs (set_owned j epoch t)
self_id-run (revoked j ∷ cs) t = self_id-run cs (release j t)

self_iff : (s : Option ℕ) (i : ℕ) → (is_self s i ≡ true) ↔ (s ≡ some i)
self_iff none i = (λ h. cc h, λ h. cc h)
self_iff (some k) i = (λ h. ap some (eqb_true k i h), λ h. ground (arith, h, eqb_self i))

owned_iff :
    (o : Option ScopeState) → (is_owned o ≡ true) ↔ ((epoch : ℕ) × (o ≡ some (owned_at epoch)))
owned_iff none = (λ h. cc h, λ (k, h). cc h)
owned_iff (some hydrating) = (λ h. cc h, λ (k, h). cc h)
owned_iff (some (owned_at k)) = (λ h. (k, refl), λ h. refl)

-- After any grants, completed hydrations and revocations, global data is not writable, and the
-- data of an instance is writable exactly when the instance is the server itself or the latest
-- change of its scope is a completed hydration (a grant alone, or a revocation, is not enough);
-- a scope that no change is about counts as it did before.
pub may_write_history :
    (cs : List Change) (t : ScopeTable) (i : ℕ)
    → (may_write (run cs t) global ≡ false)
      × ((may_write (run cs t) (of_instance i) ≡ true) ↔ (
          (t.self_id ≡ some i) ⊎ ((epoch : ℕ) × (latest i cs (state i t) ≡ some (owned_at epoch)))))
unfolding may_write
may_write_history cs t i = (refl, (λ h. split (sym e ∙ h), λ h. e ∙ join h))
  where
    o : Option ScopeState
    o = latest i cs (state i t)

    e : may_write (run cs t) (of_instance i) ≡ (is_self t.self_id i || is_owned o)
    e = ap₂ (λ s o. is_self s i || is_owned o) (self_id-run cs t) (state-run i cs t)

    split :
        (is_self t.self_id i || is_owned o) ≡ true
        → (t.self_id ≡ some i) ⊎ ((epoch : ℕ) × (o ≡ some (owned_at epoch)))
    split h = elim (Bool-cases (is_self t.self_id i)) [
      | inl y ↦ inl ((self_iff t.self_id i).0 y)
      | inr n ↦ inr ((owned_iff o).0 (ground (arith, h, n)))
    ]

    join :
        (t.self_id ≡ some i) ⊎ ((epoch : ℕ) × (o ≡ some (owned_at epoch)))
        → (is_self t.self_id i || is_owned o) ≡ true
    join (inl s) = ground (arith, (self_iff t.self_id i).1 s)
    join (inr w) = ground (arith, (owned_iff o).1 w)

present : (i : ℕ) (m : Assoc ScopeState) → In i (keys m) → get i m ≢ none
unfolding get
present i [] h = absurd h
present i ((j, v) ∷ m) (inl e) = ground (arith, eqb_self i)
present i ((j, v) ∷ m) (inr h) = ground (arith, present i m h)

listed : (i : ℕ) (m : Assoc ScopeState) → get i m ≢ none → In i (keys m)
unfolding get
listed i [] n = absurd (n refl)
listed i ((j, v) ∷ m) n = elim (Bool-cases (j == i)) [
  | inl t ↦ inl (eqb_true j i t)
  | inr f ↦ inr (listed i m (λ e. n (rw f e)))
]

-- An instance is tracked exactly when it has a state.
pub tracked-state : (i : ℕ) (t : ScopeTable) → (In i (tracked t)) ↔ (state i t ≢ none)
unfolding tracked state
tracked-state i t = (present i t.scopes, listed i t.scopes)
