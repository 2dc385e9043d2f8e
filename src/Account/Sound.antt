-- ===== src/Account/Sound.antt =====
-- What every request keeps of the accounts and their links (`handle` of
-- sandpolis-account/src/management.rs).
use sandpolis.Prelude.{
  ℕ, ◌≡◌, ◌≢◌, ◌⊎◌, refl, sym, ap, subst, ◌∙◌, inl, inr, Bool, true, false, not, ◌&&◌, ◌||◌, Option,
  none, some, List, [], ◌∷◌, ◌++◌, Result, ok, err, In, In-filter, filter, any, any-In, ◌==◌, arith,
  Bool-cases,
}
use sandpolis.Account.{
  AccountData, AccountLinkData, AccountMgmtRequest, create_account, delete_account, Error, Book,
  BookEnv, recomputed, recompute_links, identified_by, validated, create_with, delete, change,
  finish, handle,
}
use sandpolis.Account.Derived.{In-append}
use sandpolis.Account.Links.{DistinctIds, Connects, recomputed-Connects}

-- An account has a domain, and a username or an email.
abbrev pub IsIdentified : AccountData → Type 0
IsIdentified a = (a.domain ≢ []) × ((a.username ≢ none) ⊎ (a.email ≢ none))

-- Both ends of a link are accounts.
abbrev pub IsAnchored : List AccountData → AccountLinkData → Type 0
IsAnchored accounts l =
    (x : AccountData) × (y : AccountData) × In x accounts
    × In y accounts
    × (x.account_id ≡ l.source)
    × (y.account_id ≡ l.target)

pub record IsSound (b : Book) : Type 0 where
  pub distinct : DistinctIds b.accounts
  pub identified : (a : AccountData) → In a b.accounts → IsIdentified a
  pub anchored : (l : AccountLinkData) → In l b.links → IsAnchored b.accounts l

recomputed-IsSound : (b : Book) → IsSound b → IsSound (recomputed b)
recomputed-IsSound b s = record {
  distinct = unfold recomputed in s.distinct;
  identified = unfold recomputed in s.identified;
  anchored = λ l i. anchor l ((recomputed-Connects b l s.distinct).0 i);
}
  where
    anchor :
        (l : AccountLinkData)
        → ((In l b.links × (l.is_derived ≡ false))
            ⊎ ((x : AccountData) × (y : AccountData) × In x b.accounts
                × In y b.accounts
                × Connects l x y))
        → IsAnchored (recomputed b).accounts l
    anchor l (inl (i, d)) = unfold recomputed in s.anchored l i
    anchor l (inr (x, y, i, j, c)) = unfold recomputed in (x, y, i, j, sym c.source, sym c.target)

recompute_links-IsSound : (e : BookEnv) (b : Book) → IsSound b → IsSound (recompute_links e b).1
unfolding recompute_links
recompute_links-IsSound e b s = elim (Bool-cases e.commits_links) [
  | inl y ↦ rw y (recomputed-IsSound b s)
  | inr n ↦ rw n s
]

abbrev Unused : ℕ → List AccountData → Type 0
Unused id xs = (x : AccountData) → In x xs → x.account_id ≢ id

append-DistinctIds :
    (a : AccountData) (xs : List AccountData)
    → Unused a.account_id xs
    → DistinctIds xs
    → DistinctIds (xs ++ a ∷ [])
append-DistinctIds a [] n d = (λ y i. absurd i, tt)
append-DistinctIds a (x ∷ xs) n (d, ds) = (
  λ y i. elim ((In-append xs (a ∷ []) y).0 i) [
    | inl j ↦ d y j
    | inr j ↦ elim j [
      | inl e ↦ λ q. n x (inl refl) (q ∙ ap (λ (z : AccountData). z.account_id) (sym e))
      | inr k ↦ absurd k
    ]
  ],
  append-DistinctIds a xs (λ z i. n z (inr i)) ds,
)

filter-DistinctIds :
    (p : AccountData → Bool) (xs : List AccountData) → DistinctIds xs → DistinctIds (filter p xs)
unfolding filter
filter-DistinctIds p [] d = tt
filter-DistinctIds p (x ∷ xs) (d, ds) =
    let ih = filter-DistinctIds p xs ds in
    elim (Bool-cases (p x)) [
      | inl y ↦ rw y (λ z i. d z ((In-filter p xs {a = z}).0 i).0, ih)
      | inr n ↦ rw n ih
    ]

added-IsSound :
    (b : Book) (a : AccountData)
    → Unused a.account_id b.accounts
    → IsIdentified a
    → IsSound b
    → IsSound (record b { accounts = b.accounts ++ a ∷ [] })
added-IsSound b a u h s = record {
  distinct = append-DistinctIds a b.accounts u s.distinct;
  identified = λ x i. elim ((In-append b.accounts (a ∷ []) x).0 i) [
    | inl j ↦ s.identified x j
    | inr j ↦ elim j [ inl e ↦ subst IsIdentified e h | inr k ↦ absurd k ]
  ];
  anchored = λ l i.
      let (x, y, j, k, p, q) = s.anchored l i in
      (
        x,
        y,
        (In-append b.accounts (a ∷ []) x).1 (inl j),
        (In-append b.accounts (a ∷ []) y).1 (inl k),
        p,
        q,
      );
}

identified_by-IsIdentified :
    (e : BookEnv) (id : ℕ) (d : List ℕ) (u m : Option (List ℕ)) {domain : List ℕ}
    {username email : Option (List ℕ)}
    → identified_by e d u m ≡ ok (domain, username, email)
    → IsIdentified (record { account_id = id; domain = domain; username = username; email = email })
unfolding identified_by
identified_by-IsIdentified e id [] u m h = cc h
identified_by-IsIdentified e id (c ∷ d) none none h = cc h
identified_by-IsIdentified e id (c ∷ d) none (some m) h =
    (λ q. ground arith, inr (λ q. ground arith))
identified_by-IsIdentified e id (c ∷ d) (some u) m h = (λ q. ground arith, inl (λ q. ground arith))

Unused-id :
    (e : BookEnv) (xs : List AccountData)
    → any (λ a. a.account_id == e.new_id) xs ≡ false
    → Unused e.new_id xs
Unused-id e xs n x i q =
    absurd
      (clash (any-In (λ (a : AccountData). a.account_id == e.new_id) xs {a = x} i (ground arith)))
  where
    clash : any (λ a. a.account_id == e.new_id) xs ≡ true → ⊥
    clash t = cc (t, n)

create_with-IsSound :
    (e : BookEnv) (r : Result Error (List ℕ × Option (List ℕ) × Option (List ℕ))) (b : Book)
    → ((domain : List ℕ) (username email : Option (List ℕ))
        → r ≡ ok (domain, username, email)
        → IsIdentified
            (record { account_id = e.new_id; domain = domain; username = username; email = email }))
    → IsSound b
    → IsSound (create_with e r b).1
unfolding create_with
create_with-IsSound e (err x) b h s = s
create_with-IsSound e (ok (domain, username, email)) b h s =
    elim (Bool-cases (e.commits_change && not (any (λ a. a.account_id == e.new_id) b.accounts))) [
      | inr n ↦ rw n s
      | inl y ↦ rw y (
          added-IsSound b
            (record { account_id = e.new_id; domain = domain; username = username; email = email })
            (Unused-id e b.accounts (ground arith)) (h domain username email refl) s)
    ]

kept_end :
    (xs : List AccountData) (id end : ℕ) (x : AccountData)
    → In x xs
    → x.account_id ≡ end
    → (end == id) ≡ false
    → In x (filter (λ a. not (a.account_id == id)) xs)
kept_end xs id end x i e n =
    (In-filter (λ (a : AccountData). not (a.account_id == id)) xs {a = x}).1
      (i, ap (λ (k : ℕ). not (k == id)) e ∙ ap not n)

delete-IsSound : (e : BookEnv) (id : ℕ) (b : Book) → IsSound b → IsSound (delete e id b).1
unfolding delete
delete-IsSound e id b s = elim (Bool-cases e.commits_change) [
  | inr n ↦ rw n s
  | inl y ↦ rw y (record {
    distinct = filter-DistinctIds (λ a. not (a.account_id == id)) b.accounts s.distinct;
    identified = λ a i.
        s.identified a
          ((In-filter (λ (a : AccountData). not (a.account_id == id)) b.accounts {a = a}).0 i).0;
    anchored = λ l i.
        let (j, t) =
          (In-filter (λ (l : AccountLinkData). not (l.source == id || l.target == id)) b.links
              {a = l}).0
            i in
        let (x, z, p, q, f, g) = s.anchored l j in
        (
          x,
          z,
          kept_end b.accounts id l.source x p f (ground arith),
          kept_end b.accounts id l.target z q g (ground arith),
          f,
          g,
        );
  })
]

change-IsSound :
    (e : BookEnv) (request : AccountMgmtRequest) (b : Book)
    → IsSound b
    → IsSound (change e request b).1
unfolding change
change-IsSound e (create_account domain username email) b s =
    create_with-IsSound e (validated e domain username email) b
      (λ d u m h.
        unfold validated in
        identified_by-IsIdentified e e.new_id _ _ _ {domain = d} {username = u} {email = m} h)
      s
change-IsSound e (delete_account id) b s = delete-IsSound e id b s

finish-IsSound :
    (e : BookEnv) (r : Result Error (Unit {0})) (b : Book) → IsSound b → IsSound (finish e (r, b)).1
unfolding finish
finish-IsSound e (ok u) b s = recompute_links-IsSound e b s
finish-IsSound e (err x) b s = s

-- Whatever is requested and whichever transactions commit, the accounts keep distinct identifiers and
-- have a domain and an identity each, and both ends of every link stay accounts.
pub handle-IsSound :
    (e : BookEnv) (request : AccountMgmtRequest) (b : Book)
    → IsSound b
    → IsSound (handle e request b).1
unfolding handle
handle-IsSound e request b s =
    finish-IsSound e (change e request b).0 (change e request b).1 (change-IsSound e request b s)
