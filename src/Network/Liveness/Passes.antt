-- ===== src/Network/Liveness/Passes.antt =====
-- The passes of the resolution: each growing pass uses up a row, and the last finds the set closed.
use sandpolis.Prelude.{
  ℕ, zero, suc, ◌≤◌, ◌<◌, ◌≡◌, refl, sym, subst, ap, ◌∙◌, ◌⊎◌, inl, inr, true, false, not, ◌&&◌,
  some, List, [], ◌∷◌, any, In, arith, if◌then◌else◌, Bool-cases, eqb_self,
}
use sandpolis.Network.Liveness.{LivenessData, contains, pass, settle}

contains-cons : (i k : ℕ) (s : List ℕ) → contains i s ≡ true → contains i (k ∷ s) ≡ true
unfolding contains any
contains-cons i k s h = ground arith

pass-contains :
    (rows : List LivenessData) (s : List ℕ) (i : ℕ)
    → contains i s ≡ true
    → contains i (pass rows s).1 ≡ true
unfolding pass
pass-contains [] s i h = h
pass-contains (r ∷ rs) s i h =
    ground
      (arith, pass-contains rs s i, pass-contains rs (r.subject ∷ s) i, contains-cons i r.subject s)

pass-grows :
    (r : LivenessData) (rs : List LivenessData) (s : List ℕ)
    → contains r.instance_id s && not (contains r.subject s) ≡ true
    → (pass (r ∷ rs) s).0 ≡ true
unfolding pass
pass-grows r rs s t = rw t refl

-- A pass that does not grow the set has found it closed.
pass-closed :
    (rows : List LivenessData) (s : List ℕ)
    → (pass rows s).0 ≡ false
    → ((pass rows s).1 ≡ s)
      × ((r : LivenessData)
          → In r rows
          → contains r.instance_id s ≡ true
          → contains r.subject s ≡ true)
unfolding pass
pass-closed [] s h = (refl, λ r i. absurd i)
pass-closed (r ∷ rs) s h =
    elim (Bool-cases (contains r.instance_id s && not (contains r.subject s))) [
      | inl t ↦ cc (pass-grows r rs s t, h)
      | inr f ↦
          let (e, closed) = pass-closed rs s (ground (arith, f, h)) in
          (
            rw f e,
            λ r' i. elim i [
              | inl q ↦
                  subst (λ z. contains z.instance_id s ≡ true → contains z.subject s ≡ true) q
                    (λ c. ground (arith, f, c))
              | inr j ↦ closed r' j
            ],
          )
    ]

-- The rows whose subjects are not in the set yet.
unfoldable pub missing : List LivenessData → List ℕ → ℕ
unfolding contains
missing [] s = 0
missing (r ∷ rs) s = let rest = missing rs s in if contains r.subject s then rest else suc rest

missing-cons :
    (rows : List LivenessData) (k : ℕ) (s : List ℕ) → missing rows (k ∷ s) ≤ missing rows s
unfolding missing contains any
missing-cons [] k s = omega arith
missing-cons (r ∷ rs) k s = ground (arith, missing-cons rs k s)

missing-new :
    (rows : List LivenessData) (r : LivenessData) (s : List ℕ)
    → In r rows
    → contains r.subject s ≡ false
    → missing rows (r.subject ∷ s) < missing rows s
unfolding missing contains any
missing-new [] r s i n = absurd i
missing-new (y ∷ rs) r s (inl e) n =
    subst (λ z. missing (y ∷ rs) (z.subject ∷ s) < missing (y ∷ rs) s) e
      (ground (
        arith,
        missing-cons rs y.subject s,
        ap (λ z. contains z.subject s) e,
        n,
        eqb_self y.subject,
      ))
missing-new (y ∷ rs) r s (inr i) n =
    ground (arith, missing-new rs r s i, missing-cons rs r.subject s)

not-true :
    (r : LivenessData) (s : List ℕ)
    → contains r.instance_id s && not (contains r.subject s) ≡ true
    → contains r.subject s ≡ false
not-true r s t = ground arith

pub observer :
    (r : LivenessData) (s : List ℕ)
    → contains r.instance_id s && not (contains r.subject s) ≡ true
    → contains r.instance_id s ≡ true
observer r s t = ground arith

pub cons-cases :
    (i k : ℕ) (s : List ℕ) → contains i (k ∷ s) ≡ true → (k ≡ i) ⊎ (contains i s ≡ true)
unfolding contains any
cons-cases i k s h = ground arith

pub some_inj : {A : Type 0} {a b : A} → some a ≡ some b → a ≡ b
some_inj p = cc p

pass-missing :
    (all rows : List LivenessData) (s : List ℕ)
    → ((r : LivenessData) → In r rows → In r all)
    → (missing all (pass rows s).1 ≤ missing all s)
      × ((pass rows s).0 ≡ true → missing all (pass rows s).1 < missing all s)
unfolding pass
pass-missing all [] s h = (omega arith, λ p. cc p)
pass-missing all (r ∷ rs) s h =
    let ih = pass-missing all rs s (λ z i. h z (inr i)) in
    let ih' = pass-missing all rs (r.subject ∷ s) (λ z i. h z (inr i)) in
    let new = missing-new all r s (h r (inl refl)) in
    elim (Bool-cases (contains r.instance_id s && not (contains r.subject s))) [
      | inl t ↦
          let l = new (not-true r s t) in
          rw t (omega (arith, ih'.0, l), λ p. omega (arith, ih'.0, l))
      | inr f ↦ rw f ih
    ]

pub settle_enough :
    (n : ℕ) (rows : List LivenessData) (s : List ℕ)
    → missing rows s < n
    → (out : List ℕ) × (settle n rows s ≡ some out)
unfolding settle
settle_enough zero rows s l = absurd (omega (arith, l))
settle_enough (suc n) rows s l = elim (Bool-cases (pass rows s).0) [
  | inl t ↦ rw t (
      settle_enough n rows (pass rows s).1
        (omega (arith, l, (pass-missing rows rows s (λ r i. i)).1 t)))
  | inr f ↦ ((pass rows s).1, rw f refl)
]

pub settle-closed :
    (n : ℕ) (rows : List LivenessData) (s out : List ℕ)
    → settle n rows s ≡ some out
    → ((i : ℕ) → contains i s ≡ true → contains i out ≡ true)
      × ((r : LivenessData)
          → In r rows
          → contains r.instance_id out ≡ true
          → contains r.subject out ≡ true)
unfolding settle
settle-closed zero rows s out h = cc h
settle-closed (suc n) rows s out h = elim (Bool-cases (pass rows s).0) [
  | inl t ↦
      let (keeps, closed) = settle-closed n rows (pass rows s).1 out (ground (arith, t, h)) in
      (λ i c. keeps i (pass-contains rows s i c), closed)
  | inr f ↦
      let (same, closed) = pass-closed rows s f in
      let e : s ≡ out = sym same ∙ some_inj (ground (arith, f, h)) in
      (
        λ i c. subst (λ o. contains i o ≡ true) e c,
        subst
            (λ o.
              (r : LivenessData)
              → In r rows
              → contains r.instance_id o ≡ true
              → contains r.subject o ≡ true)
            e closed,
      )
]
