-- ===== src/Account/Deletion.antt =====
-- What the deletion of an account leaves (`delete` of sandpolis-account/src/management.rs).
use sandpolis.Prelude.{
  ℕ, ◌≡◌, ◌≢◌, ◌↔◌, refl, sym, subst, ◌∙◌, inl, inr, Bool, not, ok, In, In-filter, filter, ◌==◌,
  arith, Bool-cases,
}
use sandpolis.Account.{
  AccountData, AccountLinkData, delete_account, Book, BookEnv, recomputed, recompute_links, delete,
  change, finish, handle,
}
use sandpolis.Account.Sound.{IsSound, handle-IsSound}

remaining : ℕ → AccountData → Bool
remaining id a = not (a.account_id == id)

deleted-accounts :
    (e : BookEnv) (id : ℕ) (b : Book)
    → (handle e (delete_account id) b).0 ≡ ok tt
    → (handle e (delete_account id) b).1.accounts ≡ filter (remaining id) b.accounts
unfolding handle change delete finish recompute_links recomputed remaining
deleted-accounts e id b h = elim (Bool-cases e.commits_change) [
  | inr n ↦ absurd (ground arith)
  | inl y ↦ elim (Bool-cases e.commits_links) [
    | inr n ↦ absurd (ground arith)
    | inl z ↦ rw (y, z) refl
  ]
]

-- A deletion that succeeds removes the accounts of the identifier and no other, and every link that
-- touches it.
pub delete_forgets :
    (e : BookEnv) (id : ℕ) (b : Book)
    → IsSound b
    → (handle e (delete_account id) b).0 ≡ ok tt
    → ((a : AccountData)
        → In a (handle e (delete_account id) b).1.accounts
          ↔ (In a b.accounts × (a.account_id ≢ id)))
      × ((l : AccountLinkData)
          → In l (handle e (delete_account id) b).1.links
          → (l.source ≢ id) × (l.target ≢ id))
delete_forgets e id b s h = (
  λ a.
      subst (λ xs. In a xs ↔ (In a b.accounts × (a.account_id ≢ id)))
        (sym (deleted-accounts e id b h)) (remaining_iff a),
  λ l i.
      let (x, y, p, q, f, g) = (handle-IsSound e (delete_account id) b s).anchored l i in
      (λ r. not_deleted x p (f ∙ r), λ r. not_deleted y q (g ∙ r)),
)
  where
    remaining_iff :
        (a : AccountData)
        → In a (filter (remaining id) b.accounts) ↔ (In a b.accounts × (a.account_id ≢ id))
    remaining_iff a =
        let w = In-filter (remaining id) b.accounts {a = a} in
        (
          λ i. let (j, t) = w.0 i in (j, unfold remaining in λ q. ground arith),
          λ i. w.1 (i.0, unfold remaining in ground (arith, i.1)),
        )

    not_deleted :
        (x : AccountData) → In x (handle e (delete_account id) b).1.accounts → x.account_id ≢ id
    not_deleted x p = ((remaining_iff x).0 (subst (In x) (deleted-accounts e id b h) p)).1
