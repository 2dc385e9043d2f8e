-- ===== src/Examples/Instance.antt =====
-- The theorems on ids and permissions at concrete inputs.
use sandpolis.Prelude.{ℕ, List, ◌≡◌, refl, true, some, [], ◌∷◌}
use sandpolis.Instance.Version.{try_from}
use sandpolis.Instance.Permission.{
  Permission, parse, print, grants, all, same_string, layer_ok, action_ok, IsValid, print-parse,
}

-- `a:*`, `a:b` and `*`.
abbrev a_any : Permission
a_any = record { layer = 97 ∷ []; action = 42 ∷ [] }

abbrev a_b : Permission
a_b = record { layer = 97 ∷ []; action = 98 ∷ [] }

abbrev everything : Permission
everything = record { layer = 42 ∷ []; action = 42 ∷ [] }

parsed : parse (97 ∷ 58 ∷ 42 ∷ []) ≡ some a_any
unfolding parse same_string layer_ok action_ok all
parsed = refl

print-parse_example : (print a_any ≡ 97 ∷ 58 ∷ 42 ∷ []) × IsValid a_any
print-parse_example = print-parse (97 ∷ 58 ∷ 42 ∷ []) a_any parsed

everything_a : grants everything a_any ≡ true
unfolding grants same_string
everything_a = refl

a_any_b : grants a_any a_b ≡ true
unfolding grants same_string
a_any_b = refl

-- "0.1.12-a.1"
abbrev version_text : List ℕ
version_text = 48 ∷ 46 ∷ 49 ∷ 46 ∷ 49 ∷ 50 ∷ 45 ∷ 97 ∷ 46 ∷ 49 ∷ []

abbrev version_parts : List (List ℕ)
version_parts = (49 ∷ []) ∷ (49 ∷ 50 ∷ []) ∷ []

read_version :
    try_from version_text
    ≡ some (record { major = 0; minor = 1; patch = 12; description = some (97 ∷ 46 ∷ 49 ∷ []) })
unfolding try_from
read_version = refl
