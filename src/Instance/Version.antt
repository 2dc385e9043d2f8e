-- ===== src/Instance/Version.antt =====
-- Layer versions (`LayerVersion` of sandpolis-instance/src/lib.rs): parsed and compared. A string is
-- the list of its characters' code points; an error is no result.
use sandpolis.Prelude.{
  ℕ, ◌+◌, ◌-◌, ◌*◌, ◌^◌, ◌≡◌, ◌≢◌, ◌↔◌, refl, ap, ◌∙◌, Bool, ◌&&◌, Option, none, some, List, [],
  ◌∷◌, ◌++◌, arith, ltb, leb, ◌==◌, ◌>>=◌, if◌then◌else◌,
}

abbrev dot : ℕ
dot = 46

abbrev dash : ℕ
dash = 45

abbrev plus : ℕ
plus = 43

pub record LayerVersion : Type 0 where
  pub major : ℕ
  pub minor : ℕ
  pub patch : ℕ
  pub description : Option (List ℕ)

abbrev push_first : ℕ → List ℕ × Option (List ℕ) → List ℕ × Option (List ℕ)
push_first c (l, r) = (c ∷ l, r)

-- `split_once('-')`, with the whole string when there is none.
split_description : List ℕ → List ℕ × Option (List ℕ)
split_description [] = ([], none)
split_description (c ∷ cs) =
    let rest = split_description cs in if c == dash then ([], some cs) else push_first c rest

abbrev push_part : ℕ → List (List ℕ) → List (List ℕ)
push_part c [] = (c ∷ []) ∷ []
push_part c (p ∷ ps) = (c ∷ p) ∷ ps

-- `split('.')`.
split_dots : List ℕ → List (List ℕ)
split_dots [] = [] ∷ []
split_dots (c ∷ cs) = let rest = split_dots cs in if c == dot then [] ∷ rest else push_part c rest

abbrev is_digit : ℕ → Bool
is_digit c = leb 48 c && leb c 57

-- The number that digits stand for, after `n`.
digits : ℕ → List ℕ → Option ℕ
digits n [] = some n
digits n (c ∷ cs) = let rest = digits (n * 10 + (c - 48)) cs in if is_digit c then rest else none

below_limit : Option ℕ → Option ℕ
below_limit none = none
below_limit (some n) = if ltb n (2 ^ 32) then some n else none

-- One digit at least.
unsigned : List ℕ → Option ℕ
unfolding digits below_limit
unsigned [] = none
unsigned (c ∷ cs) = below_limit (digits 0 (c ∷ cs))

-- `str::parse::<u32>`, which takes a leading plus sign.
unfoldable pub parse_u32 : List ℕ → Option ℕ
unfolding unsigned
parse_u32 [] = none
parse_u32 (c ∷ cs) = let signed = unsigned cs in if c == plus then signed else unsigned (c ∷ cs)

-- The three numbers; no fourth part.
unfoldable pub from_parts : Option (List ℕ) → List (List ℕ) → Option LayerVersion
unfolding parse_u32
from_parts description (a ∷ b ∷ c ∷ []) = do
  major ← parse_u32 a
  minor ← parse_u32 b
  patch ← parse_u32 c
  some (record { major = major; minor = minor; patch = patch; description = description })
from_parts description _ = none

unfoldable pub try_from : List ℕ → Option LayerVersion
unfolding split_description split_dots from_parts
try_from value =
    let (numbers, description) = split_description value in
    from_parts description (split_dots numbers)

pub data Ordering : Type 0 where
  less equal greater : Ordering

unfoldable pub cmp : LayerVersion → LayerVersion → Ordering
cmp a b =
    if ltb b.major a.major
    then greater
    else if ltb a.major b.major
    then less
    else if ltb b.minor a.minor
    then greater
    else if ltb a.minor b.minor
    then less
    else if ltb b.patch a.patch
    then greater
    else if ltb a.patch b.patch
    then less
    else equal

-- The parts of a version as they are written: no dot, no dash.
abbrev pub IsPart : List ℕ → Type 0
IsPart [] = Unit
IsPart (c ∷ cs) = (c ≢ dot) × (c ≢ dash) × IsPart cs

abbrev pub AreParts : List (List ℕ) → Type 0
AreParts [] = Unit
AreParts (p ∷ ps) = IsPart p × AreParts ps

-- A first part and others, with dots between them.
unfoldable pub join : List ℕ → List (List ℕ) → List ℕ
join p [] = p
join p (q ∷ ps) = p ++ dot ∷ join q ps

abbrev pub described : Option (List ℕ) → List ℕ
described none = []
described (some d) = dash ∷ d

split_dots-part : (p rest : List ℕ) → IsPart p → split_dots (p ++ dot ∷ rest) ≡ p ∷ split_dots rest
unfolding split_dots
split_dots-part [] rest w = refl
split_dots-part (c ∷ cs) rest (n, m, w) = ground (arith, split_dots-part cs rest w, n)

split_dots-last : (p : List ℕ) → IsPart p → split_dots p ≡ p ∷ []
unfolding split_dots
split_dots-last [] w = refl
split_dots-last (c ∷ cs) (n, m, w) = ground (arith, split_dots-last cs w, n)

split_dots-join :
    (p : List ℕ) (ps : List (List ℕ)) → IsPart p → AreParts ps → split_dots (join p ps) ≡ p ∷ ps
unfolding join
split_dots-join p [] w ws = split_dots-last p w
split_dots-join p (q ∷ ps) w (v, ws) =
    split_dots-part p (join q ps) w ∙ ap (◌∷◌ p) (split_dots-join q ps v ws)

-- A text with no dash.
abbrev IsDashless : List ℕ → Type 0
IsDashless [] = Unit
IsDashless (c ∷ cs) = (c ≢ dash) × IsDashless cs

part-IsDashless : (p rest : List ℕ) → IsPart p → IsDashless rest → IsDashless (p ++ rest)
part-IsDashless [] rest w v = v
part-IsDashless (c ∷ cs) rest (n, m, w) v = (m, part-IsDashless cs rest w v)

last-IsDashless : (p : List ℕ) → IsPart p → IsDashless p
last-IsDashless [] w = tt
last-IsDashless (c ∷ cs) (n, m, w) = (m, last-IsDashless cs w)

join-IsDashless :
    (p : List ℕ) (ps : List (List ℕ)) → IsPart p → AreParts ps → IsDashless (join p ps)
unfolding join
join-IsDashless p [] w ws = last-IsDashless p w
join-IsDashless p (q ∷ ps) w (v, ws) =
    part-IsDashless p (dot ∷ join q ps) w (λ e. omega (arith, e), join-IsDashless q ps v ws)

split_description-dashless :
    (s : List ℕ) (d : Option (List ℕ))
    → IsDashless s
    → split_description (s ++ described d) ≡ (s, d)
unfolding split_description
split_description-dashless [] none w = refl
split_description-dashless [] (some d) w = refl
split_description-dashless (c ∷ cs) d (n, w) = ground (arith, split_description-dashless cs d w, n)

-- A version that is written as parts with dots between them, and a description after a dash, is
-- read as exactly these parts and this description (in which dots and dashes may occur): it
-- is a version when there are three parts and each is a number below 2^32.
pub try_from-join :
    (p : List ℕ) (ps : List (List ℕ)) (d : Option (List ℕ))
    → IsPart p
    → AreParts ps
    → try_from (join p ps ++ described d) ≡ from_parts d (p ∷ ps)
unfolding try_from
try_from-join p ps d w ws =
    rw
      (
        split_description-dashless (join p ps) d (join-IsDashless p ps w ws),
        split_dots-join p ps w ws,
      )
      refl

-- The order compares the three numbers in turn: it is total and transitive and turns around when
-- its arguments change places; it calls two versions equal exactly when their numbers are, also when
-- their descriptions differ.
pub cmp_order :
    (a b c : LayerVersion)
    → ((cmp a b ≡ equal) ↔ ((a.major ≡ b.major) × (a.minor ≡ b.minor) × (a.patch ≡ b.patch)))
      × ((cmp a b ≡ less) ↔ (cmp b a ≡ greater))
      × (cmp a b ≡ less → cmp b c ≡ less → cmp a c ≡ less)
unfolding cmp
cmp_order a b c = (ground arith, ground arith, ground arith)
