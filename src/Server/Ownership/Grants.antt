-- ===== src/Server/Ownership/Grants.antt =====
-- The grant table read by instance: one row for each instance, and what storing a row changes.
use sandpolis.Prelude.{
  ℕ, ◌≡◌, ◌≢◌, sym, ap, ◌∙◌, Option, none, some, [], ◌∷◌, find, arith, inl, inr, ◌==◌,
  if◌then◌else◌, Bool-cases, Option-cases, eqb_self, eqb_true, eqb_false, ◌⊎◌,
}
use sandpolis.Prelude.Maps.{get, get-store, store, Ascending, get-Above, store-Ascending}
use sandpolis.Database.Resident.{Row}
use sandpolis.Server.Ownership.{OwnershipData, Grants, find_grant}

-- The keys ascend, and no instance has two rows.
abbrev pub OnePerInstance : Grants → Type 0
OnePerInstance g =
    (k j : ℕ) (r s : Row OwnershipData)
    → get k g ≡ some r
    → get j g ≡ some s
    → r.content.instance_id ≡ s.content.instance_id
    → k ≡ j

abbrev pub IsValid : Grants → Type 0
IsValid g = Ascending g × OnePerInstance g

-- The grant of an instance, whatever row it stands in.
abbrev pub content_of : Option (ℕ × Row OwnershipData) → Option OwnershipData
content_of none = none
content_of (some (k, r)) = some r.content

unfoldable pub lookup : ℕ → Grants → Option OwnershipData
lookup i g = content_of (find_grant i g)

pub find_grant-some :
    (i k : ℕ) (r : Row OwnershipData) (g : Grants)
    → Ascending g
    → find_grant i g ≡ some (k, r)
    → (get k g ≡ some r) × (r.content.instance_id ≡ i)
unfolding find_grant find get
find_grant-some i k r [] a h = cc
find_grant-some i k r ((j, x) ∷ g) (b, a) h =
    ground (arith, find_grant-some i k r g a, get-Above j g k {v = r} b, eqb_self j)

pub find_grant-none :
    (i k : ℕ) (r : Row OwnershipData) (g : Grants)
    → find_grant i g ≡ none
    → get k g ≡ some r
    → r.content.instance_id ≢ i
unfolding find_grant find get
find_grant-none i k r [] h p = cc
find_grant-none i k r ((j, x) ∷ g) h p = ground (arith, find_grant-none i k r g, eqb_self i)

pub find_grant-get :
    (i k : ℕ) (r : Row OwnershipData) (g : Grants)
    → IsValid g
    → get k g ≡ some r
    → r.content.instance_id ≡ i
    → find_grant i g ≡ some (k, r)
find_grant-get i k r g (a, u) p e = elim (Option-cases (find_grant i g)) [
  | inl n ↦ absurd (find_grant-none i k r g n p e)
  | inr ((j, s), f) ↦
      let (q, d) = find_grant-some i j s g a f in cc (f, p, q, u k j r s p q (e ∙ sym d))
]

-- The key `k` is the one of the row of `i`, or is free and `i` has no row.
abbrev pub Fits : ℕ → ℕ → Grants → Type 0
Fits k i g =
    ((j : ℕ) (r : Row OwnershipData) → get j g ≡ some r → r.content.instance_id ≡ i → j ≡ k)
    × ((r : Row OwnershipData) → get k g ≡ some r → r.content.instance_id ≡ i)

abbrev of : Row OwnershipData → ℕ
of r = r.content.instance_id

module _ (k : ℕ) (row : Row OwnershipData) (g : Grants) where
  -- An entry of the table after `row` is stored under `k`.
  stored-cases :
      (j : ℕ) (r : Row OwnershipData)
      → get j (store k row g) ≡ some r
      → ((k ≡ j) × (row ≡ r)) ⊎ ((k ≢ j) × (get j g ≡ some r))
  stored-cases j r p = elim (Bool-cases (k == j)) [
    | inl t ↦ inl (eqb_true k j t, ground (arith, get-store k j row g))
    | inr f ↦ inr (eqb_false k j f, ground (arith, get-store k j row g))
  ]

  pub store-IsValid : Fits k row.content.instance_id g → IsValid g → IsValid (store k row g)
  store-IsValid (f, h) (a, u) = (store-Ascending k row g a, unique)
    where
      unique : OnePerInstance (store k row g)
      unique i j r s p q e = elim (stored-cases i r p) [
        | inl (x, y) ↦ elim (stored-cases j s q) [
          | inl (x', y') ↦ sym x ∙ x'
          | inr (x', y') ↦ absurd (x' (sym (f j s y' (sym e ∙ sym (ap of y)))))
        ]
        | inr (x, y) ↦ elim (stored-cases j s q) [
          | inl (x', y') ↦ absurd (x (sym (f i r y (e ∙ sym (ap of y')))))
          | inr (x', y') ↦ u i j r s y y' e
        ]
      ]

  find_grant-other :
      (i : ℕ)
      → Fits k row.content.instance_id g
      → IsValid g
      → row.content.instance_id ≢ i
      → find_grant i (store k row g) ≡ find_grant i g
  find_grant-other i (f, h) w n = elim (Option-cases (find_grant i g)) [
    | inl none_before ↦ elim (Option-cases (find_grant i (store k row g))) [
      | inl p ↦ p ∙ sym none_before
      | inr ((j, s), p) ↦
          let (q, d) = find_grant-some i j s (store k row g) (store-IsValid (f, h) w).0 p in
          elim (stored-cases j s q) [
            | inl (x, y) ↦ absurd (n (ap of y ∙ d))
            | inr (x, y) ↦ absurd (find_grant-none i j s g none_before y d)
          ]
    ]
    | inr ((j, s), before) ↦
        let (q, d) = find_grant-some i j s g w.0 before in
        let other : k ≢ j = λ e. n (sym (h s (ap (λ x. get x g) e ∙ q)) ∙ d) in
        find_grant-get i j s (store k row g) (store-IsValid (f, h) w)
          (ground (arith, get-store k j row g)) d
        ∙ sym before
  ]

  pub find_grant-store :
      Fits k row.content.instance_id g
      → IsValid g
      → (i : ℕ)
      → find_grant i (store k row g)
        ≡ (if row.content.instance_id == i then some (k, row) else find_grant i g)
  find_grant-store h w i = elim (Bool-cases (row.content.instance_id == i)) [
    | inl t ↦ rw t (
        find_grant-get i k row (store k row g) (store-IsValid h w)
          (ground (arith, get-store k k row g)) (eqb_true row.content.instance_id i t))
    | inr f ↦ rw f (find_grant-other i h w (eqb_false row.content.instance_id i f))
  ]
