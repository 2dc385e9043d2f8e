-- ===== src/Database/Revision.antt =====
-- Record revisions (`DataRevision` of sandpolis-instance/src/database/mod.rs). A revision number
-- starts at 1, is incremented, and is decoded to its absolute value, so it is a natural number; its
-- `i64` range is not exceeded in practice and overflow is not modelled. The encoded form is signed.
use sandpolis.Prelude.{ℕ, zero, suc, ◌+◌, ◌≡◌, refl, ◌⊎◌, inl, inr, Bool, leb, ◌==◌}

pub data DataRevision : Type 0 where
  latest previous : ℕ → DataRevision

-- `From<DataRevision> for i64`.
abbrev pub number : DataRevision → ℕ
number (latest v) = v
number (previous v) = v

-- `Add<i64>`.
abbrev pub add : DataRevision → ℕ → DataRevision
add (latest v) n = latest (v + n)
add (previous v) n = previous (v + n)

-- `PartialEq` and `Ord` compare the numbers.
abbrev pub same_revision : DataRevision → DataRevision → Bool
same_revision a b = number a == number b

abbrev pub revision_le : DataRevision → DataRevision → Bool
revision_le a b = leb (number a) (number b)

-- An `i64` as it is written out: `negsuc n` is -(n + 1).
pub data ℤ : Type 0 where
  pos negsuc : ℕ → ℤ

negate : ℕ → ℤ
negate zero = pos 0
negate (suc n) = negsuc n

-- `Serialize`, and `ToKey` before the key is encoded.
unfoldable pub serialize : DataRevision → ℤ
unfolding negate
serialize (latest v) = pos v
serialize (previous v) = negate v

-- `visit_i64`.
unfoldable pub visit_i64 : ℤ → DataRevision
visit_i64 (pos v) = latest v
visit_i64 (negsuc n) = previous (suc n)

-- Decoding an encoded revision gives its number back, and gives the revision back unless it is the
-- previous revision 0, which comes back as the latest.
pub visit_i64-serialize :
    (r : DataRevision)
    → (number (visit_i64 (serialize r)) ≡ number r)
      × ((visit_i64 (serialize r) ≡ r) ⊎ (r ≡ previous 0))
unfolding serialize visit_i64
visit_i64-serialize (latest v) = (refl, inl refl)
visit_i64-serialize (previous zero) = (refl, inr refl)
visit_i64-serialize (previous (suc v)) = (refl, inl refl)

-- Encoding what was decoded gives the stored number back, so the key of a row that was read is
-- the key that it was written under.
pub serialize-visit_i64 : (z : ℤ) → serialize (visit_i64 z) ≡ z
unfolding serialize visit_i64
serialize-visit_i64 (pos v) = refl
serialize-visit_i64 (negsuc n) = refl
