-- ===== src/Examples/Account.antt =====
-- Accounts at concrete inputs: `ab` of domain `d` and `AB` of domain `e` share a username.
use sandpolis.Prelude.{
  ℕ, ◌≡◌, ◌↔◌, ◌⊎◌, refl, ap, subst, inl, inr, true, false, none, some, List, [], ◌∷◌, In, filter,
  arith, ◌==◌,
}
use sandpolis.Account.{
  AccountData, AccountLinkData, common_username, create_account, Book, BookEnv, recomputed, handle,
  derive_links, links_between,
}
use sandpolis.Account.Links.{Connects, DistinctIds, recomputed-Connects}
use sandpolis.Account.Sound.{IsSound, IsIdentified, handle-IsSound}

abbrev account : ℕ → List ℕ → AccountData
account id name = record { account_id = id; domain = 100 ∷ []; username = some name; email = none }

abbrev first : AccountData
first = account 1 (97 ∷ 98 ∷ [])

abbrev second : AccountData
second = account 2 (65 ∷ 66 ∷ [])

abbrev link : AccountLinkData
link = record {
  source = 1;
  target = 2;
  link_type = common_username (97 ∷ 98 ∷ []);
  is_derived = true;
}

abbrev book : Book
book = record { accounts = second ∷ first ∷ []; links = [] }

abbrev env : BookEnv
env = record {
  is_whitespace = λ c. c == 32;
  new_id = 3;
  commits_change = true;
  commits_links = true;
}

linked : (recomputed book).links ≡ link ∷ []
unfolding recomputed links_between filter derive_links
linked = refl

book-DistinctIds : DistinctIds book.accounts
book-DistinctIds = (
  λ y i q. elim i [
    | inl e ↦ omega (arith, q, ap (λ (a : AccountData). a.account_id) e)
    | inr b ↦ b
  ],
  ((λ y i. absurd i), tt),
)

first-IsIdentified : IsIdentified first
first-IsIdentified = (λ q. cc q, inl (λ q. cc q))

second-IsIdentified : IsIdentified second
second-IsIdentified = (λ q. cc q, inl (λ q. cc q))

recomputed-Connects_example : In link (recomputed book).links ↔ (
    (In link [] × (link.is_derived ≡ false))
    ⊎ ((x : AccountData) × (y : AccountData) × In x book.accounts
        × In y book.accounts
        × Connects link x y))
recomputed-Connects_example = recomputed-Connects book link book-DistinctIds

book-IsSound : IsSound book
book-IsSound = record {
  distinct = book-DistinctIds;
  identified = λ a i. elim i [
    | inl e ↦ subst IsIdentified e second-IsIdentified
    | inr j ↦ elim j [ inl e ↦ subst IsIdentified e first-IsIdentified | inr b ↦ absurd b ]
  ];
  anchored = λ l i. absurd i;
}

handle-IsSound_example :
    IsSound (handle env (create_account (101 ∷ []) none (some (97 ∷ []))) book).1
handle-IsSound_example =
    handle-IsSound env (create_account (101 ∷ []) none (some (97 ∷ []))) book book-IsSound
