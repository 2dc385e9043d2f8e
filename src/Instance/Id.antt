-- ===== src/Instance/Id.antt =====
-- Instance ids (`InstanceId` and `InstanceType` of sandpolis-instance/src/lib.rs): 128-bit words
-- whose last nibble is the instance's type and whose upper 48 bits are the time of creation. The
-- uuid that `new` starts from comes from the crate uuid and is an argument.
use Prim.Native.Nat.{bit_and, bit_or}
use sandpolis.Prelude.{
  ℕ, ◌+◌, ◌-◌, ◌*◌, ◌/◌, ◌%◌, ◌^◌, ◌<◌, ◌≡◌, ap, ◌∙◌, Bool, ◌||◌, Option, some, [], ◌∷◌, find, ltb,
  ◌==◌, arith,
}
use sandpolis.Prelude.Bits.{or_low, and_one, and_two, and_four, and_clear}

pub data InstanceType : Type 0 where
  agent client server : InstanceType

unfoldable pub mask : InstanceType → ℕ
mask agent = 1
mask client = 2
mask server = 4

-- `InstanceId::new` from the uuid `u`.
unfoldable pub new : ℕ → InstanceType → ℕ
unfolding mask
new u t = bit_or (bit_and u (2 ^ 128 - 16)) (mask t)

unfoldable pub is_type : ℕ → InstanceType → Bool
unfolding mask
is_type id t = ltb 0 (bit_and id (mask t))

pub is_domain_member : ℕ → Bool
unfolding is_type
is_domain_member id = is_type id agent || is_type id client

-- `InstanceType::iter().find`, in the order of the declaration.
unfoldable pub instance_type : ℕ → Option InstanceType
unfolding is_type
instance_type id = find (λ t. is_type id t) (agent ∷ client ∷ server ∷ [])

-- The cast keeps 64 bits.
unfoldable pub timestamp : ℕ → ℕ
timestamp id = id / 2 ^ 80 % 2 ^ 64

abbrev pub same_type : InstanceType → InstanceType → Bool
same_type s t = mask s == mask t

new-arith : (u : ℕ) (t : InstanceType) → u < 2 ^ 128 → new u t ≡ u / 16 * 16 + mask t
unfolding new mask
new-arith u agent h = ap (λ x. bit_or x 1) (and_clear u h) ∙ or_low 4 (u / 16) 1 (omega arith)
new-arith u client h = ap (λ x. bit_or x 2) (and_clear u h) ∙ or_low 4 (u / 16) 2 (omega arith)
new-arith u server h = ap (λ x. bit_or x 4) (and_clear u h) ∙ or_low 4 (u / 16) 4 (omega arith)

-- The types of an id whose last nibble is the mask of `t`.
types_of : (q : ℕ) (s t : InstanceType) → is_type (q * 16 + mask t) s ≡ same_type s t
unfolding is_type mask
types_of q agent agent = ground (arith, and_one (q * 16 + 1))
types_of q agent client = ground (arith, and_one (q * 16 + 2))
types_of q agent server = ground (arith, and_one (q * 16 + 4))
types_of q client agent = ground (arith, and_two (q * 16 + 1))
types_of q client client = ground (arith, and_two (q * 16 + 2))
types_of q client server = ground (arith, and_two (q * 16 + 4))
types_of q server agent = ground (arith, and_four (q * 16 + 1))
types_of q server client = ground (arith, and_four (q * 16 + 2))
types_of q server server = ground (arith, and_four (q * 16 + 4))

first_type :
    (id : ℕ) (t : InstanceType)
    → ((s : InstanceType) → is_type id s ≡ same_type s t)
    → instance_type id ≡ some t
unfolding instance_type find mask
first_type id agent h = ground (arith, h agent)
first_type id client h = ground (arith, h agent, h client)
first_type id server h = ground (arith, h agent, h client, h server)

time : (u : ℕ) (t : InstanceType) → u < 2 ^ 128 → timestamp (new u t) ≡ u / 2 ^ 80
unfolding timestamp mask
time u agent h = omega (arith, new-arith u agent h)
time u client h = omega (arith, new-arith u client h)
time u server h = omega (arith, new-arith u server h)

-- An id made from a 128-bit uuid has the type that it was made for and no other, so that is the
-- type that is read back from it; and it keeps the uuid's timestamp, its upper 48 bits.
pub new-instance_type :
    (u : ℕ) (t : InstanceType)
    → u < 2 ^ 128
    → ((s : InstanceType) → is_type (new u t) s ≡ same_type s t)
      × (instance_type (new u t) ≡ some t)
      × (timestamp (new u t) ≡ u / 2 ^ 80)
new-instance_type u t h = (types, first_type (new u t) t types, time u t h)
  where
    types : (s : InstanceType) → is_type (new u t) s ≡ same_type s t
    types s = ap (λ id. is_type id s) (new-arith u t h) ∙ types_of (u / 16) s t
