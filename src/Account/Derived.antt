-- ===== src/Account/Derived.antt =====
-- Which links two accounts get (`derive_links` of sandpolis-account/src/management.rs), read off their
-- fields.
use sandpolis.Prelude.{
  ℕ, ◌≡◌, ◌↔◌, ◌⊎◌, refl, sym, ap, subst, ◌∙◌, inl, inr, true, false, Option, none, some, List, [],
  ◌∷◌, ◌++◌, map, In, arith, Bool-cases,
}
use sandpolis.Instance.Permission.{same_string, same_string-true}
use sandpolis.Account.{
  AccountData, AccountLinkType, common_email, common_username, common_password, ssh_authorized_key,
  recovery, same_ignoring_case, string_le, insert_sorted, sort, dedup_after, dedup, shared,
  shared_emails, derive_links,
}

module _ {A : Type 0} where
  pub In-append : (xs ys : List A) (a : A) → In a (xs ++ ys) ↔ (In a xs ⊎ In a ys)
  In-append [] ys a = (λ h. inr h, λ h. elim h [ inl b ↦ absurd b | inr i ↦ i ])
  In-append (x ∷ xs) ys a =
      let ih = In-append xs ys a in
      (
        λ h. elim h [
          | inl e ↦ inl (inl e)
          | inr i ↦ elim (ih.0 i) [ inl l ↦ inl (inr l) | inr r ↦ inr r ]
        ],
        λ h. elim h [
          | inl l ↦ elim l [ inl e ↦ inl e | inr i ↦ inr (ih.1 (inl i)) ]
          | inr r ↦ inr (ih.1 (inr r))
        ],
      )

  pub In-map :
      {B : Type 0} (f : B → A) (xs : List B) (a : A)
      → In a (map f xs) ↔ ((b : B) × In b xs × (f b ≡ a))
  In-map f [] a = (λ h. absurd h, λ h. absurd h.1)
  In-map f (x ∷ xs) a =
      let ih = In-map f xs a in
      (
        λ h. elim h [ inl e ↦ (x, inl refl, e) | inr i ↦ let (b, j, e) = ih.0 i in (b, inr j, e) ],
        λ h.
            let (b, i, e) = h in elim i [ inl q ↦ inl (ap f q ∙ e) | inr j ↦ inr (ih.1 (b, j, e)) ],
      )

In-insert_sorted :
    (s : List ℕ) (ss : List (List ℕ)) (a : List ℕ) → In a (insert_sorted s ss) ↔ In a (s ∷ ss)
unfolding insert_sorted
In-insert_sorted s [] a = (λ h. h, λ h. h)
In-insert_sorted s (t ∷ ts) a =
    let ih = In-insert_sorted s ts a in
    elim (Bool-cases (string_le s t)) [
      | inl y ↦ rw y (λ h. h, λ h. h)
      | inr n ↦ rw n (
        λ h. elim h [
          | inl e ↦ inr (inl e)
          | inr i ↦ elim (ih.0 i) [ inl e ↦ inl e | inr j ↦ inr (inr j) ]
        ],
        λ h. elim h [
          | inl e ↦ inr (ih.1 (inl e))
          | inr i ↦ elim i [ inl e ↦ inl e | inr j ↦ inr (ih.1 (inr j)) ]
        ],
      )
    ]

In-sort : (ss : List (List ℕ)) (a : List ℕ) → In a (sort ss) ↔ In a ss
unfolding sort
In-sort [] a = (λ h. h, λ h. h)
In-sort (s ∷ ss) a =
    let ih = In-sort ss a in
    let w = In-insert_sorted s (sort ss) a in
    (
      λ h. elim (w.0 h) [ inl e ↦ inl e | inr i ↦ inr (ih.0 i) ],
      λ h. elim h [ inl e ↦ w.1 (inl e) | inr i ↦ w.1 (inr (ih.1 i)) ],
    )

In-dedup_after :
    (s : List ℕ) (ss : List (List ℕ)) (a : List ℕ) → In a (s ∷ dedup_after s ss) ↔ In a (s ∷ ss)
unfolding dedup_after
In-dedup_after s [] a = (λ h. h, λ h. h)
In-dedup_after s (t ∷ ts) a =
    let skipped = In-dedup_after s ts a in
    let rest = In-dedup_after t ts a in
    elim (Bool-cases (same_string s t)) [
      | inl y ↦ rw y (
        λ h. elim (skipped.0 h) [ inl e ↦ inl e | inr i ↦ inr (inr i) ],
        λ h. elim h [
          | inl e ↦ inl e
          | inr i ↦ elim i [ inl e ↦ inl (same_string-true s t y ∙ e) | inr j ↦ skipped.1 (inr j) ]
        ],
      )
      | inr n ↦ rw n (
        λ h. elim h [ inl e ↦ inl e | inr i ↦ inr (rest.0 i) ],
        λ h. elim h [ inl e ↦ inl e | inr i ↦ inr (rest.1 i) ],
      )
    ]

In-dedup : (ss : List (List ℕ)) (a : List ℕ) → In a (dedup ss) ↔ In a ss
unfolding dedup
In-dedup [] a = (λ h. h, λ h. h)
In-dedup (s ∷ ss) a = In-dedup_after s ss a

-- A field that has the value `m`, up to the case of ASCII letters.
abbrev pub Matches : List ℕ → Option (List ℕ) → Type 0
Matches m o = (w : List ℕ) × (o ≡ some w) × (same_ignoring_case m w ≡ true)

differ :
    (x y m w : List ℕ)
    → same_ignoring_case x y ≡ false
    → some x ≡ some m
    → some y ≡ some w
    → same_ignoring_case m w ≡ true
    → ⊥
differ x y m w n q e t = cc (n, q, e, t)

In-shared : (o p : Option (List ℕ)) (m : List ℕ) → In m (shared o p) ↔ ((o ≡ some m) × Matches m p)
unfolding shared
In-shared none p m = (λ h. absurd h, λ h. cc (h.0))
In-shared (some x) none m = (λ h. absurd h, λ h. absurd (cc (h.1.1)))
In-shared (some x) (some y) m = elim (Bool-cases (same_ignoring_case x y)) [
  | inr n ↦ rw n (λ h. absurd h, λ h. let (q, (w, e, t)) = h in absurd (differ x y m w n q e t))
  | inl t ↦ rw t (
    λ h. elim h [
      | inl e ↦ (ap some e, (y, refl, ap (λ z. same_ignoring_case z y) (sym e) ∙ t))
      | inr b ↦ absurd b
    ],
    λ h. inl (ground (arith, h.0)),
  )
]

-- The relationship that a link of a type between `a` and `b` states.
abbrev pub Shares : AccountData → AccountData → AccountLinkType → Type 0
Shares a b (common_username m) = (a.username ≡ some m) × Matches m b.username
Shares a b (common_email m) =
    ((a.email ≡ some m) × Matches m b.email)
    ⊎ ((a.email ≡ some m) × Matches m b.username)
    ⊎ ((b.email ≡ some m) × Matches m a.username)
Shares a b (common_password mfa) = ⊥
Shares a b (ssh_authorized_key encrypted) = ⊥
Shares a b recovery = ⊥

In-emails :
    (a b : AccountData) (m : List ℕ)
    → In m (dedup (sort (shared_emails a b))) ↔ Shares a b (common_email m)
unfolding shared_emails
In-emails a b m =
    let d = In-dedup (sort (shared_emails a b)) m in
    let s = In-sort (shared_emails a b) m in
    let first =
      In-append (shared a.email b.email) (shared a.email b.username ++ shared b.email a.username)
        m in
    let rest = In-append (shared a.email b.username) (shared b.email a.username) m in
    (
      λ h. elim (first.0 (s.0 (d.0 h))) [
        | inl i ↦ inl ((In-shared a.email b.email m).0 i)
        | inr i ↦ elim (rest.0 i) [
          | inl j ↦ inr (inl ((In-shared a.email b.username m).0 j))
          | inr j ↦ inr (inr ((In-shared b.email a.username m).0 j))
        ]
      ],
      λ h. d.1 (
          s.1 (elim h [
            | inl i ↦ first.1 (inl ((In-shared a.email b.email m).1 i))
            | inr i ↦ first.1 (
                inr (elim i [
                  | inl j ↦ rest.1 (inl ((In-shared a.email b.username m).1 j))
                  | inr j ↦ rest.1 (inr ((In-shared b.email a.username m).1 j))
                ]))
          ])),
    )

-- Two accounts get a link of a type exactly when their fields state its relationship.
pub derive_links-Shares :
    (a b : AccountData) (t : AccountLinkType) → In t (derive_links a b) ↔ Shares a b t
unfolding derive_links
derive_links-Shares a b t =
    let split =
      In-append (map common_username (shared a.username b.username))
        (map common_email (dedup (sort (shared_emails a b)))) t in
    let names = In-map common_username (shared a.username b.username) t in
    let emails = In-map common_email (dedup (sort (shared_emails a b))) t in
    (
      λ h. elim (split.0 h) [
        | inl i ↦
            let (m, j, e) = names.0 i in
            subst (Shares a b) e ((In-shared a.username b.username m).0 j)
        | inr i ↦ let (m, j, e) = emails.0 i in subst (Shares a b) e ((In-emails a b m).0 j)
      ],
      λ h. split.1 (stated t h),
    )
  where
    stated :
        (t : AccountLinkType)
        → Shares a b t
        → In t (map common_username (shared a.username b.username))
          ⊎ In t (map common_email (dedup (sort (shared_emails a b))))
    stated (common_username m) h = inl (
        (In-map common_username (shared a.username b.username) (common_username m)).1
          (m, (In-shared a.username b.username m).1 h, refl))
    stated (common_email m) h = inr (
        (In-map common_email (dedup (sort (shared_emails a b))) (common_email m)).1
          (m, (In-emails a b m).1 h, refl))
    stated (common_password mfa) h = absurd h
    stated (ssh_authorized_key encrypted) h = absurd h
    stated recovery h = absurd h
