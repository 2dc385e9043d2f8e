-- ===== src/Prelude/Lists.antt =====
-- Lists measured by native numbers, predicates on lists by recursion, and searches.
use Prim.Native.Nat.{ℕ, suc, ◌+◌}
use mathlib.Core.Path.{◌≡◌, refl, sym, ap, ◌∙◌}
use mathlib.Core.Logic.{◌⊎◌, ◌↔◌, ◌≢◌, inl, inr}
use mathlib.Core.Bool.{Bool, true, false, ◌||◌}
use mathlib.Core.Option.{Option, none, some}
use mathlib.Core.List.{List, [], ◌∷◌, ◌++◌}
use native.Mathlib.Omega.{arith}
use sandpolis.Prelude.Tests.{if◌then◌else◌, Bool-cases}

module _ {ℓ} {A : Type ℓ} where
  abbrev pub length : List A → ℕ
  length [] = 0
  length (x ∷ xs) = suc (length xs)

  pub length-append : (xs ys : List A) → length (xs ++ ys) ≡ length xs + length ys
  length-append [] ys = omega arith
  length-append (x ∷ xs) ys = omega (arith, length-append xs ys)

  -- `Iterator::find`.
  unfoldable pub find : (A → Bool) → List A → Option A
  find p [] = none
  find p (x ∷ xs) = if p x then some x else find p xs

  -- `Iterator::filter`.
  unfoldable pub filter : (A → Bool) → List A → List A
  filter p [] = []
  filter p (x ∷ xs) = let rest = filter p xs in if p x then x ∷ rest else rest

  -- `Iterator::any`.
  unfoldable pub any : (A → Bool) → List A → Bool
  any p [] = false
  any p (x ∷ xs) = p x || any p xs

module _ {A : Type 0} where
  -- Membership with its position.
  abbrev pub In : A → List A → Type 0
  In a [] = ⊥
  In a (x ∷ xs) = (x ≡ a) ⊎ In a xs

  pub find-some : (p : A → Bool) (xs : List A) {a : A} → find p xs ≡ some a → In a xs × (p a ≡ true)
  unfolding find
  find-some p [] h = cc
  find-some p (x ∷ xs) {a} h = ground (arith, find-some p xs {a = a})

  pub find-none : (p : A → Bool) (xs : List A) {a : A} → find p xs ≡ none → In a xs → p a ≡ false
  unfolding find
  find-none p [] h i = absurd i
  find-none p (x ∷ xs) h (inl e) = ground arith
  find-none p (x ∷ xs) {a} h (inr i) = ground (arith, find-none p xs {a = a})

  pub find-In : (p : A → Bool) (xs : List A) {a : A} → In a xs → p a ≡ true → find p xs ≢ none
  find-In p xs {a} i t e = cc (t, find-none p xs {a = a} e i)

In-filter-cons :
    {A : Type 0} (p : A → Bool) (x : A) (xs ys : List A) (a : A) (b : Bool)
    → (In a ys ↔ (In a xs × (p a ≡ true)))
    → p x ≡ b
    → In a (if b then x ∷ ys else ys) ↔ (In a (x ∷ xs) × (p a ≡ true))
In-filter-cons p x xs ys a true ih e = (
  λ i. elim i [ inl q ↦ (inl q, sym (ap p q) ∙ e) | inr j ↦ let (k, u) = ih.0 j in (inr k, u) ],
  λ h. elim h.0 [ inl q ↦ inl q | inr j ↦ inr (ih.1 (j, h.1)) ],
)
In-filter-cons p x xs ys a false ih e = (
  λ i. let (k, u) = ih.0 i in (inr k, u),
  λ h. elim h.0 [ inl q ↦ absurd (differ (ap p q) e h.1) | inr j ↦ ih.1 (j, h.1) ],
)
  where
    differ : {b c : Bool} → b ≡ c → b ≡ false → c ≡ true → ⊥
    differ u v w = cc (u, v, w)

pub In-filter :
    {A : Type 0} (p : A → Bool) (xs : List A) {a : A}
    → In a (filter p xs) ↔ (In a xs × (p a ≡ true))
unfolding filter
In-filter p [] = (λ i. absurd i, λ h. absurd h.0)
In-filter p (x ∷ xs) {a} = In-filter-cons p x xs (filter p xs) a (p x) (In-filter p xs {a = a}) refl

pub any-In :
    {A : Type 0} (p : A → Bool) (xs : List A) {a : A} → In a xs → p a ≡ true → any p xs ≡ true
unfolding any
any-In p (x ∷ xs) (inl e) h = ground arith
any-In p (x ∷ xs) {a} (inr i) h = ground (arith, any-In p xs {a = a} i h)
any-In p [] i h = absurd i

pub In-any :
    {A : Type 0} (p : A → Bool) (xs : List A) → any p xs ≡ true → (a : A) × In a xs × (p a ≡ true)
unfolding any
In-any p [] h = cc
In-any p (x ∷ xs) h = elim (Bool-cases (p x)) [
  | inl t ↦ (x, inl refl, t)
  | inr f ↦ let (a, i, t) = In-any p xs (ground arith) in (a, inr i, t)
]
