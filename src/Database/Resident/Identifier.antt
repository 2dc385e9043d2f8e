-- ===== src/Database/Resident/Identifier.antt =====
-- Row identifiers (`DataIdentifier` of sandpolis-instance/src/database/mod.rs), as `u64` numbers.
use Prim.Native.Nat.{bit_and, bit_or}
use sandpolis.Prelude.{ℕ, ◌+◌, ◌*◌, ◌/◌, ◌%◌, ◌^◌, ◌<◌, ◌≡◌, ap, ap₂, ◌∙◌, arith}
use sandpolis.Prelude.Bits.{and_low, and_high, and_comm, or_low}

-- `new_revision`, with the random `u64` as an argument.
unfoldable pub new_revision : ℕ → ℕ → ℕ
new_revision id random =
    bit_or (bit_and id 0xffff_ffff_0000_0000) (bit_and 0x0000_0000_ffff_ffff random)

unfoldable pub revision_id : ℕ → ℕ
revision_id id = bit_and (id / 2 ^ 32) 0xffff_ffff % 2 ^ 32

new_revision-sum :
    (id random : ℕ) → id < 2 ^ 64 → new_revision id random ≡ id / 2 ^ 32 * 2 ^ 32 + random % 2 ^ 32
unfolding new_revision
new_revision-sum id random h =
    ap₂ bit_or (and_high 32 id 0xffff_ffff ∙ high) (and_comm 0xffff_ffff random ∙ and_low 32 random)
    ∙ or_low 32 (id / 2 ^ 32) (random % 2 ^ 32) (omega arith)
  where
    high : bit_and (id / 2 ^ 32) 0xffff_ffff * 2 ^ 32 ≡ id / 2 ^ 32 * 2 ^ 32
    high = omega (arith, and_low 32 (id / 2 ^ 32))

-- A new revision of a row keeps the part of the identifier that all its revisions share.
pub revision_id-new_revision :
    (id random : ℕ) → id < 2 ^ 64 → revision_id (new_revision id random) ≡ revision_id id
unfolding revision_id new_revision
revision_id-new_revision id random h = omega (
  arith,
  ap (λ (t : ℕ). bit_and (t / 2 ^ 32) 0xffff_ffff) (new_revision-sum id random h),
  and_low 32 ((id / 2 ^ 32 * 2 ^ 32 + random % 2 ^ 32) / 2 ^ 32),
  and_low 32 (id / 2 ^ 32),
)
