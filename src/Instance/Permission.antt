-- ===== src/Instance/Permission.antt =====
-- Permissions (`Permission` of sandpolis-instance/src/lib.rs): parsed, printed, and what a grant
-- covers. A string is the list of its characters' code points.
use sandpolis.Prelude.{
  ℕ, ◌≡◌, refl, sym, subst, ap, ap₂, ◌∙◌, ◌⊎◌, inl, inr, Bool, true, false, not, ◌&&◌, ◌||◌, Option,
  none, some, List, [], ◌∷◌, ◌++◌, leb, ◌==◌, if◌then◌else◌, arith, Bool-cases, eqb_self, eqb_true,
}

-- `*`, `:` and `_`.
abbrev star : ℕ
star = 42

abbrev colon : ℕ
colon = 58

abbrev underscore : ℕ
underscore = 95

abbrev pub wildcard : List ℕ
wildcard = star ∷ []

pub record Permission : Type 0 where
  pub layer : List ℕ
  pub action : List ℕ

unfoldable pub same_string : List ℕ → List ℕ → Bool
same_string [] [] = true
same_string [] (y ∷ ys) = false
same_string (x ∷ xs) [] = false
same_string (x ∷ xs) (y ∷ ys) = x == y && same_string xs ys

unfoldable pub grants : Permission → Permission → Bool
unfolding same_string
grants p required =
    same_string p.layer wildcard
    || (same_string p.layer required.layer
        && (same_string p.action wildcard || same_string p.action required.action))

-- `is_ascii_lowercase`.
abbrev is_lower : ℕ → Bool
is_lower c = leb 97 c && leb c 122

abbrev is_word : ℕ → Bool
is_word c = is_lower c || c == underscore

unfoldable pub all : (ℕ → Bool) → List ℕ → Bool
all p [] = true
all p (c ∷ cs) = p c && all p cs

abbrev is_empty : List ℕ → Bool
is_empty [] = true
is_empty (c ∷ cs) = false

unfoldable pub layer_ok : List ℕ → Bool
unfolding all
layer_ok l = not (is_empty l || not (all is_lower l))

unfoldable pub action_ok : List ℕ → Bool
unfolding all same_string
action_ok a = not (is_empty a || not (same_string a wildcard || all is_word a))

push_front : ℕ → Option (List ℕ × List ℕ) → Option (List ℕ × List ℕ)
push_front c none = none
push_front c (some (l, r)) = some (c ∷ l, r)

-- `split_once(':')`.
split_once : List ℕ → Option (List ℕ × List ℕ)
unfolding push_front
split_once [] = none
split_once (c ∷ cs) =
    let rest = split_once cs in if c == colon then some ([], cs) else push_front c rest

checked : Option (List ℕ × List ℕ) → Option Permission
unfolding layer_ok action_ok
checked none = none
checked (some (l, a)) =
    if not (layer_ok l)
    then none
    else if not (action_ok a)
    then none
    else some (record { layer = l; action = a })

-- `from_str`.
unfoldable pub parse : List ℕ → Option Permission
unfolding same_string checked split_once
parse s =
    if same_string s wildcard
    then some (record { layer = wildcard; action = wildcard })
    else checked (split_once s)

-- `Display`.
unfoldable pub print : Permission → List ℕ
unfolding same_string
print p = if same_string p.layer wildcard then wildcard else p.layer ++ colon ∷ p.action

pub same_string_refl : (s : List ℕ) → same_string s s ≡ true
unfolding same_string
same_string_refl [] = refl
same_string_refl (x ∷ xs) = ground (arith, same_string_refl xs, eqb_self x)

pub same_string-true : (s t : List ℕ) → same_string s t ≡ true → s ≡ t
unfolding same_string
same_string-true [] [] h = refl
same_string-true [] (y ∷ ys) h = cc h
same_string-true (x ∷ xs) [] h = cc h
same_string-true (x ∷ xs) (y ∷ ys) h =
    ap₂ ◌∷◌ (eqb_true x y (ground arith)) (same_string-true xs ys (ground arith))

-- A lower-case layer is not the wildcard and has no colon.
layer_ok-wildcard : (l : List ℕ) → layer_ok l ≡ true → same_string l wildcard ≡ false
unfolding layer_ok all same_string
layer_ok-wildcard [] h = refl
layer_ok-wildcard (c ∷ cs) h = ground arith

push_front-some :
    (c : ℕ) (o : Option (List ℕ × List ℕ)) (l r : List ℕ)
    → push_front c o ≡ some (l, r)
    → (m : List ℕ) × (o ≡ some (m, r)) × (c ∷ m ≡ l)
unfolding push_front
push_front-some c none l r h = cc h
push_front-some c (some (m, t)) l r h = (m, ground arith, ground arith)

split_once-append : (s l r : List ℕ) → split_once s ≡ some (l, r) → l ++ colon ∷ r ≡ s
unfolding split_once push_front
split_once-append [] l r h = cc h
split_once-append (c ∷ cs) l r h = elim (Bool-cases (c == colon)) [
  | inl t ↦ ground (arith, eqb_true c colon t)
  | inr f ↦
      let (m, p, q) = push_front-some c (split_once cs) l r (ground (arith, h, f)) in
      sym (ap (λ x. x ++ colon ∷ r) q) ∙ ap (λ x. c ∷ x) (split_once-append cs m r p)
]

split_once-lower :
    (l r : List ℕ) → all is_lower l ≡ true → split_once (l ++ colon ∷ r) ≡ some (l, r)
unfolding split_once push_front all
split_once-lower [] r h = refl
split_once-lower (c ∷ cs) r h = ground (arith, split_once-lower cs r)

-- What parsing can give: the bare wildcard, or a layer and an action that pass their checks.
abbrev pub IsValid : Permission → Type 0
IsValid p =
    ((p.layer ≡ wildcard) × (p.action ≡ wildcard))
    ⊎ ((layer_ok p.layer ≡ true) × (action_ok p.action ≡ true))

checked-some :
    (o : Option (List ℕ × List ℕ)) (p : Permission)
    → checked o ≡ some p
    → (o ≡ some (p.layer, p.action)) × (layer_ok p.layer ≡ true) × (action_ok p.action ≡ true)
unfolding checked
checked-some none p h = cc h
checked-some (some (l, a)) p h = ground arith

-- A string that is parsed is printed back as it was, and what it is parsed to is valid: the bare
-- wildcard, or a layer and an action that pass their checks.
pub print-parse : (s : List ℕ) (p : Permission) → parse s ≡ some p → (print p ≡ s) × IsValid p
unfolding parse print same_string
print-parse s p h = elim (Bool-cases (same_string s wildcard)) [
  | inl t ↦
      let l : p.layer ≡ wildcard = ground (arith, h, t) in
      let a : p.action ≡ wildcard = ground (arith, h, t) in
      (ground (arith, l, same_string-true s wildcard t), inl (l, a))
  | inr f ↦
      let (e, l, a) = checked-some (split_once s) p (ground (arith, h, f)) in
      (rw (layer_ok-wildcard p.layer l) (split_once-append s p.layer p.action e), inr (l, a))
]

not_wildcard : (l a : List ℕ) → layer_ok l ≡ true → same_string (l ++ colon ∷ a) wildcard ≡ false
unfolding layer_ok all same_string
not_wildcard [] a h = refl
not_wildcard (c ∷ cs) a h = ground arith

layer_ok-lower : (l : List ℕ) → layer_ok l ≡ true → all is_lower l ≡ true
unfolding layer_ok
layer_ok-lower l h = ground arith

-- A valid permission is printed to a string that is parsed back to it.
pub parse-print : (p : Permission) → IsValid p → parse (print p) ≡ some p
unfolding parse print same_string checked
parse-print p (inl (l, a)) =
    subst (λ q. parse (print q) ≡ some q) (sym (ap₂ (λ x y. record { layer = x; action = y }) l a))
      refl
parse-print p (inr (l, a)) =
    rw (layer_ok-wildcard p.layer l, not_wildcard p.layer p.action l)
      (ground (arith, split_once-lower p.layer p.action (layer_ok-lower p.layer l), l, a))

-- A grant covers whatever is covered by a grant that it covers, and it covers itself.
pub grants_trans :
    (p q r : Permission)
    → grants p q ≡ true
    → grants q r ≡ true
    → (grants p r ≡ true) × (grants p p ≡ true)
unfolding grants
grants_trans p q r a b = (
  ground (
    arith,
    a,
    b,
    same_string-true p.layer q.layer,
    same_string-true p.action q.action,
    same_string-true p.layer wildcard,
    same_string-true q.layer wildcard,
  ),
  ground (arith, same_string_refl p.layer, same_string_refl p.action),
)
