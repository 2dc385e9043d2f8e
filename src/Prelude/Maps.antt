-- ===== src/Prelude/Maps.antt =====
-- Maps keyed by numbers. `Table` is a map that the code only reads, writes and filters by key;
-- `Assoc` is one that the code also enumerates.
use Prim.Native.Nat.{ℕ, ◌<◌}
use mathlib.Core.Path.{◌≡◌}
use mathlib.Core.Bool.{Bool}
use mathlib.Core.Option.{Option, none, some}
use mathlib.Core.List.{List, [], ◌∷◌}
use native.Mathlib.Omega.{arith}
use sandpolis.Prelude.Tests.{◌==◌, ltb, if◌then◌else◌, eqb_true}

abbrev pub Table {ℓ} : Type ℓ → Type ℓ
Table V = ℕ → Option V

module _ {ℓ} {V : Type ℓ} where
  abbrev pub empty : Table V
  empty k = none

  abbrev pub insert : ℕ → V → Table V → Table V
  insert k v m j = if k == j then some v else m j

  abbrev pub remove : ℕ → Table V → Table V
  remove k m j = if k == j then none else m j

  -- What is left of an entry by a test of its value.
  abbrev pub keep_if : (V → Bool) → Option V → Option V
  keep_if p none = none
  keep_if p (some v) = if p v then some v else none

  abbrev pub retain : (V → Bool) → Table V → Table V
  retain p m j = keep_if p (m j)

abbrev pub Assoc {ℓ} : Type ℓ → Type ℓ
Assoc V = List (ℕ × V)

module _ {ℓ} {V : Type ℓ} where
  unfoldable pub get : ℕ → Assoc V → Option V
  get k [] = none
  get k ((j, v) ∷ m) = if j == k then some v else get k m

  unfoldable pub erase : ℕ → Assoc V → Assoc V
  erase k [] = []
  erase k ((j, v) ∷ m) = let rest = erase k m in if j == k then rest else (j, v) ∷ rest

  unfoldable pub put : ℕ → V → Assoc V → Assoc V
  put k v m = (k, v) ∷ erase k m

  abbrev pub keys : Assoc V → List ℕ
  keys [] = []
  keys ((j, v) ∷ m) = j ∷ keys m

  pub get-erase : (k j : ℕ) (m : Assoc V) → get j (erase k m) ≡ (if k == j then none else get j m)
  unfolding get erase
  get-erase k j [] = ground arith
  get-erase k j ((i, v) ∷ m) = ground (arith, get-erase k j m)

  pub get-put :
      (k j : ℕ) (v : V) (m : Assoc V) → get j (put k v m) ≡ (if k == j then some v else get j m)
  unfolding get put
  get-put k j v m = ground (arith, get-erase k j m)

-- A `BTreeMap`: the keys ascend.
module _ {ℓ} {V : Type ℓ} where
  unfoldable pub store : ℕ → V → Assoc V → Assoc V
  store k v [] = (k, v) ∷ []
  store k v ((j, w) ∷ m) =
      let rest = store k v m in
      if j == k then (k, v) ∷ m else if ltb k j then (k, v) ∷ (j, w) ∷ m else (j, w) ∷ rest

  pub get-store :
      (k j : ℕ) (v : V) (m : Assoc V) → get j (store k v m) ≡ (if k == j then some v else get j m)
  unfolding get store
  get-store k j v [] = ground arith
  get-store k j v ((i, w) ∷ m) = ground (arith, get-store k j v m)

  abbrev pub Above : ℕ → Assoc V → Type 0
  Above k [] = Unit
  Above k ((j, w) ∷ m) = (k < j) × Above k m

  abbrev pub Ascending : Assoc V → Type 0
  Ascending [] = Unit
  Ascending ((j, w) ∷ m) = Above j m × Ascending m

  pub get-Above : (k : ℕ) (m : Assoc V) (j : ℕ) {v : V} → Above k m → get j m ≡ some v → k < j
  unfolding get
  get-Above k [] j a h = cc
  get-Above k ((i, w) ∷ m) j {v} (l, a) h = ground (arith, get-Above k m j {v = v} a)

  Above-le : (k i : ℕ) (m : Assoc V) → k < i → Above i m → Above k m
  Above-le k i [] l a = tt
  Above-le k i ((j, w) ∷ m) l (b, a) = (omega (arith, l, b), Above-le k i m l a)

  store-Above : (k j : ℕ) (v : V) (m : Assoc V) → k < j → Above k m → Above k (store j v m)
  unfolding store
  store-Above k j v [] l a = (l, tt)
  store-Above k j v ((i, w) ∷ m) l (b, a) = ground (arith, store-Above k j v m l a)

  pub store-Ascending : (k : ℕ) (v : V) (m : Assoc V) → Ascending m → Ascending (store k v m)
  unfolding store
  store-Ascending k v [] a = (tt, tt)
  store-Ascending k v ((i, w) ∷ m) (b, a) =
      ground (arith, store-Above i k v m, store-Ascending k v m a, Above-le k i m, eqb_true i k)

  -- Storing what is there changes nothing.
  pub store-same : (k : ℕ) (v : V) (m : Assoc V) → Ascending m → get k m ≡ some v → store k v m ≡ m
  unfolding store get
  store-same k v [] a h = absurd (cc h)
  store-same k v ((j, x) ∷ m) (b, a) h =
      ground (arith, store-same k v m a, get-Above j m k {v = v} b, eqb_true j k)
