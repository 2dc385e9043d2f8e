-- ===== src/Account.antt =====
-- Accounts and the links between them (sandpolis-account/src/lib.rs and management.rs). The rows
-- are lists in the order of a scan; an account's value and instance, and a row's own identifier,
-- play no part. Writing the accounts back to the config file is not modelled. What is whitespace,
-- the identifier of a new account and whether a transaction commits are arguments. A string is the
-- list of its characters, which are ordered as their bytes are. The subsystem has been started: a request before that is an error.
pub mod Derived
pub mod Links
pub mod Sound
pub mod Deletion
use mathlib.Core.List.{reverse}
use sandpolis.Prelude.{
  ℕ, ◌+◌, Bool, true, false, not, ◌&&◌, ◌||◌, Option, none, some, List, [], ◌∷◌, ◌++◌, map, Result,
  ok, err, filter, any, ltb, leb, ◌==◌, if◌then◌else◌,
}
use sandpolis.Instance.Permission.{same_string}

pub record AccountData : Type 0 where
  pub account_id : ℕ
  pub domain : List ℕ
  pub username : Option (List ℕ)
  pub email : Option (List ℕ)

pub data AccountLinkType : Type 0 where
  common_email common_username : List ℕ → AccountLinkType
  common_password ssh_authorized_key : Option Bool → AccountLinkType
  recovery : AccountLinkType

pub record AccountLinkData : Type 0 where
  pub source : ℕ
  pub target : ℕ
  pub link_type : AccountLinkType
  pub is_derived : Bool

pub data AccountMgmtRequest : Type 0 where
  create_account : List ℕ → Option (List ℕ) → Option (List ℕ) → AccountMgmtRequest
  delete_account : ℕ → AccountMgmtRequest

pub data Error : Type 0 where
  domain_required identity_required not_committed : Error

pub record Book : Type 0 where
  pub accounts : List AccountData
  pub links : List AccountLinkData

pub record BookEnv : Type 0 where
  pub is_whitespace : ℕ → Bool
  pub new_id : ℕ
  pub commits_change : Bool
  pub commits_links : Bool

-- `eq_ignore_ascii_case`.
abbrev lower : ℕ → ℕ
lower c = if leb 65 c && leb c 90 then c + 32 else c

unfoldable pub same_ignoring_case : List ℕ → List ℕ → Bool
unfolding same_string
same_ignoring_case s t = same_string (map lower s) (map lower t)

-- The order of strings, `sort` and `dedup`.
string_le : List ℕ → List ℕ → Bool
string_le [] t = true
string_le (c ∷ s) [] = false
string_le (c ∷ s) (d ∷ t) = ltb c d || (c == d && string_le s t)

insert_sorted : List ℕ → List (List ℕ) → List (List ℕ)
unfolding string_le
insert_sorted s [] = s ∷ []
insert_sorted s (t ∷ ts) =
    let rest = insert_sorted s ts in if string_le s t then s ∷ t ∷ ts else t ∷ rest

sort : List (List ℕ) → List (List ℕ)
unfolding insert_sorted
sort [] = []
sort (s ∷ ss) = insert_sorted s (sort ss)

-- A string that was kept already, next to the ones that follow.
dedup_after : List ℕ → List (List ℕ) → List (List ℕ)
unfolding same_string
dedup_after s [] = []
dedup_after s (t ∷ ts) =
    let skipped = dedup_after s ts in
    let rest = dedup_after t ts in if same_string s t then skipped else t ∷ rest

dedup : List (List ℕ) → List (List ℕ)
unfolding dedup_after
dedup [] = []
dedup (s ∷ ss) = s ∷ dedup_after s ss

-- The first string, where the two are there and match.
shared : Option (List ℕ) → Option (List ℕ) → List (List ℕ)
unfolding same_ignoring_case
shared none y = []
shared (some x) none = []
shared (some x) (some y) = if same_ignoring_case x y then x ∷ [] else []

shared_emails : AccountData → AccountData → List (List ℕ)
unfolding shared
shared_emails a b =
    shared a.email b.email ++ (shared a.email b.username ++ shared b.email a.username)

unfoldable pub derive_links : AccountData → AccountData → List AccountLinkType
unfolding shared shared_emails sort dedup
derive_links a b =
    map common_username (shared a.username b.username)
    ++ map common_email (dedup (sort (shared_emails a b)))

derived_link : ℕ → ℕ → AccountLinkType → AccountLinkData
derived_link source target t = record {
  source = source;
  target = target;
  link_type = t;
  is_derived = true;
}

ordered_links : AccountData → AccountData → List AccountLinkData
unfolding derive_links derived_link
ordered_links a b = map (derived_link a.account_id b.account_id) (derive_links a b)

-- The rows of a pair, ordered by identifier.
unfoldable pub links_between : AccountData → AccountData → List AccountLinkData
unfolding ordered_links
links_between x y = if leb x.account_id y.account_id then ordered_links x y else ordered_links y x

links_with : AccountData → List AccountData → List AccountLinkData
unfolding links_between
links_with x [] = []
links_with x (y ∷ ys) = links_between x y ++ links_with x ys

all_links : List AccountData → List AccountLinkData
unfolding links_with
all_links [] = []
all_links (x ∷ xs) = links_with x xs ++ all_links xs

-- What `recompute_links` leaves when it commits.
unfoldable pub recomputed : Book → Book
unfolding all_links filter
recomputed b = record b { links = filter (λ l. not l.is_derived) b.links ++ all_links b.accounts }

module _ (e : BookEnv) where
  unfoldable pub recompute_links : Book → Result Error (Unit {0}) × Book
  unfolding recomputed
  recompute_links b = if e.commits_links then (ok tt, recomputed b) else (err not_committed, b)

  trim_start : List ℕ → List ℕ
  trim_start [] = []
  trim_start (c ∷ s) = if e.is_whitespace c then trim_start s else c ∷ s

  trim : List ℕ → List ℕ
  unfolding trim_start
  trim s = reverse (trim_start (reverse (trim_start s)))

  abbrev non_empty : List ℕ → Option (List ℕ)
  non_empty [] = none
  non_empty (c ∷ s) = some (c ∷ s)

  clean : Option (List ℕ) → Option (List ℕ)
  unfolding trim
  clean none = none
  clean (some v) = non_empty (trim v)

  identified_by :
      List ℕ
      → Option (List ℕ)
      → Option (List ℕ)
      → Result Error (List ℕ × Option (List ℕ) × Option (List ℕ))
  identified_by [] username email = err domain_required
  identified_by (c ∷ d) none none = err identity_required
  identified_by (c ∷ d) none (some m) = ok (c ∷ d, none, some m)
  identified_by (c ∷ d) (some u) email = ok (c ∷ d, some u, email)

  unfoldable pub validated :
      List ℕ
      → Option (List ℕ)
      → Option (List ℕ)
      → Result Error (List ℕ × Option (List ℕ) × Option (List ℕ))
  unfolding identified_by trim clean
  validated domain username email = identified_by (trim domain) (clean username) (clean email)

  -- The identifier is a unique key.
  create_with :
      Result Error (List ℕ × Option (List ℕ) × Option (List ℕ))
      → Book
      → Result Error (Unit {0}) × Book
  create_with (err x) b = (err x, b)
  create_with (ok (domain, username, email)) b =
      if e.commits_change && not (any (λ a. a.account_id == e.new_id) b.accounts)
      then (
        ok tt,
        record b {
          accounts =
              b.accounts
              ++ record {
                account_id = e.new_id;
                domain = domain;
                username = username;
                email = email;
              }
                ∷ [];
        },
      )
      else (err not_committed, b)

  -- `delete`: the accounts of the identifier and what touches them, in one transaction.
  delete : ℕ → Book → Result Error (Unit {0}) × Book
  unfolding filter
  delete id b =
      if e.commits_change
      then (
        ok tt,
        record {
          accounts = filter (λ a. not (a.account_id == id)) b.accounts;
          links = filter (λ l. not (l.source == id || l.target == id)) b.links;
        },
      )
      else (err not_committed, b)

  change : AccountMgmtRequest → Book → Result Error (Unit {0}) × Book
  unfolding validated create_with delete
  change (create_account domain username email) b = create_with (validated domain username email) b
  change (delete_account id) b = delete id b

  finish : Result Error (Unit {0}) × Book → Result Error (Unit {0}) × Book
  unfolding recompute_links
  finish (ok u, b) = recompute_links b
  finish (err x, b) = (err x, b)

  unfoldable pub handle : AccountMgmtRequest → Book → Result Error (Unit {0}) × Book
  unfolding change finish
  handle request b = finish (change request b)
