-- ===== src/Network/Liveness/Closure.antt =====
-- The resolution returns, with the closure of the direct peers under the opinions of reachable
-- observers.
use sandpolis.Prelude.{
  ℕ, zero, suc, ◌≤◌, ◌≡◌, refl, sym, subst, ◌↔◌, inl, inr, true, not, ◌&&◌, some, List, [], ◌∷◌,
  length, filter, In, any-In, In-any, In-filter, arith, ◌==◌, Bool-cases, eqb_self, eqb_true,
}
use sandpolis.Network.Liveness.{LivenessData, contains, pass, settle, online_rows, reachable}
use sandpolis.Network.Liveness.Passes.{
  settle_enough, settle-closed, missing, observer, cons-cases, some_inj,
}

-- A direct peer, or the subject of an online row of a reachable observer.
pub data IsReachable (rows : List LivenessData) (direct : List ℕ) : ℕ → Type 0 where
  first_hand : (i : ℕ) → In i direct → IsReachable rows direct i
  vouched :
      (r : LivenessData)
      → In r rows
      → r.online ≡ true
      → IsReachable rows direct r.instance_id
      → IsReachable rows direct r.subject

-- A pass adds subjects of reachable observers only.
pass_sound :
    (all : List LivenessData) (direct : List ℕ) (rows : List LivenessData) (s : List ℕ)
    → ((r : LivenessData) → In r rows → In r all × (r.online ≡ true))
    → ((i : ℕ) → contains i s ≡ true → IsReachable all direct i)
    → (i : ℕ) → contains i (pass rows s).1 ≡ true
    → IsReachable all direct i
unfolding pass
pass_sound all direct [] s h k i c = k i c
pass_sound all direct (r ∷ rs) s h k i c =
    elim (Bool-cases (contains r.instance_id s && not (contains r.subject s))) [
      | inl t ↦
          let (m, o) = h r (inl refl) in
          let new = vouched r m o (k r.instance_id (observer r s t)) in
          pass_sound all direct rs (r.subject ∷ s) (λ z j. h z (inr j))
            (λ j d. elim (cons-cases j r.subject s d) [
              | inl e ↦ subst (IsReachable all direct) e new
              | inr d' ↦ k j d'
            ])
            i (ground (arith, c, t))
      | inr f ↦ pass_sound all direct rs s (λ z j. h z (inr j)) k i (ground (arith, c, f))
    ]

settle_sound :
    (n : ℕ) (all : List LivenessData) (direct : List ℕ) (rows : List LivenessData) (s out : List ℕ)
    → ((r : LivenessData) → In r rows → In r all × (r.online ≡ true))
    → ((i : ℕ) → contains i s ≡ true → IsReachable all direct i)
    → settle n rows s ≡ some out
    → (i : ℕ) → contains i out ≡ true
    → IsReachable all direct i
unfolding settle
settle_sound zero all direct rows s out h k e i c = cc e
settle_sound (suc n) all direct rows s out h k e i c =
    let k' = pass_sound all direct rows s h k in
    elim (Bool-cases (pass rows s).0) [
      | inl t ↦ settle_sound n all direct rows (pass rows s).1 out h k' (ground (arith, t, e)) i c
      | inr f ↦
          let q : (pass rows s).1 ≡ out = some_inj (ground (arith, f, e)) in
          k' i (subst (λ o. contains i o ≡ true) (sym q) c)
    ]

online-In :
    (rows : List LivenessData) (r : LivenessData)
    → In r (online_rows rows) ↔ (In r rows × (r.online ≡ true))
unfolding online_rows
online-In rows r = In-filter (λ z. z.online) rows {a = r}

missing_le : (rows : List LivenessData) (s : List ℕ) → missing (online_rows rows) s ≤ length rows
unfolding online_rows filter missing
missing_le [] s = omega arith
missing_le (r ∷ rs) s = ground (arith, missing_le rs s)

direct-IsReachable :
    (rows : List LivenessData) (direct : List ℕ) (i : ℕ)
    → contains i direct ≡ true
    → IsReachable rows direct i
unfolding contains
direct-IsReachable rows direct i c =
    let (j, m, e) = In-any (λ k. k == i) direct c in
    subst (IsReachable rows direct) (eqb_true j i e) (first_hand j m)

closure-contains :
    (rows : List LivenessData) (direct out : List ℕ)
    → ((i : ℕ) → contains i direct ≡ true → contains i out ≡ true)
    → ((r : LivenessData)
        → In r rows
        → r.online ≡ true
        → contains r.instance_id out ≡ true
        → contains r.subject out ≡ true)
    → (i : ℕ) → IsReachable rows direct i
    → contains i out ≡ true
unfolding contains
closure-contains rows direct out keeps closed _ (first_hand i m) =
    keeps i (any-In (λ k. k == i) direct m (eqb_self i))
closure-contains rows direct out keeps closed _ (vouched r m o h) =
    closed r m o (closure-contains rows direct out keeps closed r.instance_id h)

-- The resolution always returns, with exactly the instances that are direct peers or that a
-- reachable observer says are online: an observer that is not reachable vouches for nobody.
pub reachable_iff :
    (rows : List LivenessData) (direct : List ℕ)
    → (out : List ℕ) × (reachable rows direct ≡ some out)
      × ((i : ℕ) → (contains i out ≡ true) ↔ IsReachable rows direct i)
unfolding reachable
reachable_iff rows direct =
    let (out, e) =
      settle_enough (suc (length rows)) (online_rows rows) direct
        (omega (arith, missing_le rows direct)) in
    let (keeps, closed) = settle-closed (suc (length rows)) (online_rows rows) direct out e in
    let sound =
      settle_sound (suc (length rows)) rows direct (online_rows rows) direct out
        (λ r j. (online-In rows r).0 j) (λ i c. direct-IsReachable rows direct i c) e in
    (
      out,
      e,
      λ i. (
        sound i,
        closure-contains rows direct out keeps (λ r j o. closed r ((online-In rows r).1 (j, o))) i,
      ),
    )
