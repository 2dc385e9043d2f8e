-- ===== src/Account/Links.antt =====
-- The links after `recompute_links` (sandpolis-account/src/management.rs): exactly those that the
-- accounts' fields state, whatever the order of the scan.
use sandpolis.Prelude.{
  ◌<◌, ◌≡◌, ◌≢◌, ◌↔◌, ◌⊎◌, refl, sym, ap, subst, ◌∙◌, inl, inr, true, false, not, List, [], ◌∷◌, In,
  In-filter, filter, leb, arith, Bool-cases,
}
use sandpolis.Account.{
  AccountData, AccountLinkData, Book, derive_links, derived_link, ordered_links, links_between,
  links_with, all_links, recomputed,
}
use sandpolis.Account.Derived.{In-append, In-map, Shares, derive_links-Shares}

-- `x` stands before `y`.
abbrev pub Before : AccountData → AccountData → List AccountData → Type 0
Before x y [] = ⊥
Before x y (z ∷ zs) = ((z ≡ x) × In y zs) ⊎ Before x y zs

links_with-In :
    (x : AccountData) (ys : List AccountData) (l : AccountLinkData)
    → In l (links_with x ys) ↔ ((y : AccountData) × In y ys × In l (links_between x y))
unfolding links_with
links_with-In x [] l = (λ h. absurd h, λ h. absurd h.1)
links_with-In x (y ∷ ys) l =
    let split = In-append (links_between x y) (links_with x ys) l in
    let ih = links_with-In x ys l in
    (
      λ h. elim (split.0 h) [
        | inl i ↦ (y, inl refl, i)
        | inr i ↦ let (z, j, k) = ih.0 i in (z, inr j, k)
      ],
      λ h.
          let (z, i, k) = h in
          split.1 (elim i [
            | inl e ↦ inl (subst (λ w. In l (links_between x w)) (sym e) k)
            | inr j ↦ inr (ih.1 (z, j, k))
          ]),
    )

all_links-In :
    (xs : List AccountData) (l : AccountLinkData)
    → In l (all_links xs)
      ↔ ((x : AccountData) × (y : AccountData) × Before x y xs × In l (links_between x y))
unfolding all_links
all_links-In [] l = (λ h. absurd h, λ h. absurd h.2)
all_links-In (z ∷ zs) l =
    let split = In-append (links_with z zs) (all_links zs) l in
    let ih = all_links-In zs l in
    let here = links_with-In z zs l in
    (
      λ h. elim (split.0 h) [
        | inl i ↦ let (y, j, k) = here.0 i in (z, y, inl (refl, j), k)
        | inr i ↦ let (x, y, b, k) = ih.0 i in (x, y, inr b, k)
      ],
      λ h.
          let (x, y, b, k) = h in
          split.1 (elim b [
            | inl (e, j) ↦ inl (here.1 (y, j, subst (λ w. In l (links_between w y)) (sym e) k))
            | inr c ↦ inr (ih.1 (x, y, c, k))
          ]),
    )

-- A derived link of two accounts, the one with the smaller identifier first.
pub record Connects (l : AccountLinkData) (a b : AccountData) : Type 0 where
  pub source : l.source ≡ a.account_id
  pub target : l.target ≡ b.account_id
  pub ascending : a.account_id < b.account_id
  pub is_derived : l.is_derived ≡ true
  pub shares : Shares a b l.link_type

-- The identifier is a unique key.
abbrev pub DistinctIds : List AccountData → Type 0
DistinctIds [] = Unit
DistinctIds (x ∷ xs) = ((y : AccountData) → In y xs → x.account_id ≢ y.account_id) × DistinctIds xs

Before-members :
    (x y : AccountData) (xs : List AccountData)
    → DistinctIds xs
    → Before x y xs
    → In x xs × In y xs × (x.account_id ≢ y.account_id)
Before-members x y [] d b = absurd b
Before-members x y (z ∷ zs) (d, ds) (inl (e, i)) =
    (inl e, inr i, λ q. d y i (ap (λ (a : AccountData). a.account_id) e ∙ q))
Before-members x y (z ∷ zs) (d, ds) (inr b) =
    let (i, j, n) = Before-members x y zs ds b in (inr i, inr j, n)

members-Before :
    (x y : AccountData) (xs : List AccountData)
    → In x xs
    → In y xs
    → x.account_id ≢ y.account_id
    → Before x y xs ⊎ Before y x xs
members-Before x y [] i j n = absurd i
members-Before x y (z ∷ zs) (inl e) (inl f) n =
    absurd (n (ap (λ (a : AccountData). a.account_id) (sym e ∙ f)))
members-Before x y (z ∷ zs) (inl e) (inr j) n = inl (inl (e, j))
members-Before x y (z ∷ zs) (inr i) (inl f) n = inr (inl (f, i))
members-Before x y (z ∷ zs) (inr i) (inr j) n = elim (members-Before x y zs i j n) [
  | inl b ↦ inl (inr b)
  | inr b ↦ inr (inr b)
]

ordered-Connects :
    (a b : AccountData) (l : AccountLinkData)
    → a.account_id < b.account_id
    → In l (ordered_links a b) ↔ Connects l a b
unfolding ordered_links
ordered-Connects a b l lt =
    let m = In-map (derived_link a.account_id b.account_id) (derive_links a b) l in
    (
      λ h.
          let (t, i, e) = m.0 h in
          subst (λ w. Connects w a b) e
            (unfold derived_link in
              record {
                source = refl;
                target = refl;
                ascending = lt;
                is_derived = refl;
                shares = (derive_links-Shares a b t).0 i;
              }),
      λ c. m.1 (l.link_type, (derive_links-Shares a b l.link_type).1 c.shares, rebuilt c),
    )
  where
    rebuilt : Connects l a b → derived_link a.account_id b.account_id l.link_type ≡ l
    rebuilt c = unfold derived_link in ground (arith, c.source, c.target, c.is_derived)

between-Connects :
    (x y : AccountData) (l : AccountLinkData)
    → x.account_id ≢ y.account_id
    → In l (links_between x y) ↔ (Connects l x y ⊎ Connects l y x)
unfolding links_between
between-Connects x y l n = elim (Bool-cases (leb x.account_id y.account_id)) [
  | inl t ↦
      let lt : x.account_id < y.account_id = ground arith in
      let o = ordered-Connects x y l lt in
      rw t (
        λ h. inl (o.0 h),
        λ h. elim h [ inl c ↦ o.1 c | inr c ↦ absurd (omega (arith, c.ascending)) ],
      )
  | inr f ↦
      let lt : y.account_id < x.account_id = ground arith in
      let o = ordered-Connects y x l lt in
      rw f (
        λ h. inr (o.0 h),
        λ h. elim h [ inr c ↦ o.1 c | inl c ↦ absurd (omega (arith, c.ascending)) ],
      )
]

-- After a recomputation over accounts with distinct identifiers, the links are exactly those there
-- before that were not derived, and the derived ones that the fields of two accounts state, from the
-- smaller identifier to the larger, whatever the order in which the accounts are scanned.
pub recomputed-Connects :
    (b : Book) (l : AccountLinkData)
    → DistinctIds b.accounts
    → In l (recomputed b).links ↔ (
        (In l b.links × (l.is_derived ≡ false))
        ⊎ ((x : AccountData) × (y : AccountData) × In x b.accounts
            × In y b.accounts
            × Connects l x y))
unfolding recomputed
recomputed-Connects b l d =
    let split = In-append (filter (λ k. not k.is_derived) b.links) (all_links b.accounts) l in
    let old = In-filter (λ (k : AccountLinkData). not k.is_derived) b.links {a = l} in
    let new = all_links-In b.accounts l in
    (
      λ h. elim (split.0 h) [
        | inl i ↦ let (j, t) = old.0 i in inl (j, ground arith)
        | inr i ↦
            let (x, y, o, k) = new.0 i in
            let (p, q, n) = Before-members x y b.accounts d o in
            inr (elim ((between-Connects x y l n).0 k) [
              | inl c ↦ (x, y, p, q, c)
              | inr c ↦ (y, x, q, p, c)
            ])
      ],
      λ h. split.1 (elim h [
        | inl (i, t) ↦ inl (old.1 (i, ground arith))
        | inr (x, y, i, j, c) ↦ inr (new.1 (found x y i j c))
      ]),
    )
  where
    found :
        (x y : AccountData)
        → In x b.accounts
        → In y b.accounts
        → Connects l x y
        → (a : AccountData) × (z : AccountData) × Before a z b.accounts × In l (links_between a z)
    found x y i j c =
        let lt = c.ascending in
        let n : x.account_id ≢ y.account_id = λ e. omega arith in
        elim (members-Before x y b.accounts i j n) [
          | inl o ↦ (x, y, o, (between-Connects x y l n).1 (inl c))
          | inr o ↦ (y, x, o, (between-Connects y x l (λ e. n (sym e))).1 (inr c))
        ]
