-- ===== src/Server/User/Configured/Step.antt =====
-- One account of the config (a turn of the second loop of `sync_users` in
-- sandpolis-server/src/user/server.rs): what every user is after it.
use sandpolis.Prelude.{
  ℕ, ◌<◌, ◌≡◌, refl, sym, ap, subst, ◌∙◌, inl, inr, true, false, Option, none, some, List, [], ◌∷◌,
  ok, if◌then◌else◌, ◌==◌, ltb, arith, Bool-cases, Option-cases, eqb_self,
}
use sandpolis.Prelude.Maps.{Assoc, store, get, Above, Ascending, store-Ascending}
use sandpolis.Database.Revision.{latest}
use sandpolis.Database.Resident.{Row, Env, update_inner, same_row}
use sandpolis.Database.Resident.Staleness.{update_content}
use sandpolis.Database.Resident.Vec.{update_at, push_inner}
use sandpolis.Instance.Permission.{same_string, same_string-true}
use sandpolis.Server.User.{UserData, UserConfig, find_user}
use sandpolis.Server.User.Configured.{SyncEnv, find_row, put_config, with_fields, new_user}

find_row-Above :
    (j : ℕ) (name : List ℕ) (rows : Assoc (Row UserData)) {k : ℕ} {r : Row UserData}
    → Above j rows
    → find_row name rows ≡ some (k, r)
    → (j < k) × (r.content.username ≡ name)
unfolding find_row
find_row-Above j name [] a h = cc h
find_row-Above j name ((i, q) ∷ rows) {k} {r} (l, a) h =
    ground (
      arith,
      same_string-true q.content.username name,
      find_row-Above j name rows {k = k} {r = r} a,
    )

-- What every name finds after a row of `name` was stored.
abbrev pub Finds : List ℕ → UserData → Assoc (Row UserData) → Assoc (Row UserData) → Type 0
Finds name u old new =
    (n : List ℕ) → find_user n new ≡ (if same_string name n then some u else find_user n old)

pub apart :
    (s name n : List ℕ)
    → same_string s name ≡ false
    → same_string name n ≡ true
    → same_string s n ≡ false
apart s name n d h = let e = same_string-true name n h in ap (same_string s) (sym e) ∙ d

-- Behind a row of another user.
behind :
    (name : List ℕ) (u : UserData) (j : ℕ) (q : Row UserData) (old new : Assoc (Row UserData))
    → same_string q.content.username name ≡ false
    → Finds name u old new
    → Finds name u ((j, q) ∷ old) ((j, q) ∷ new)
unfolding find_user
behind name u j q old new d ih n = ground (arith, apart q.content.username name n d, ih n)

-- Before rows that are not the user's, or in the place of one.
before :
    (name : List ℕ) (k : ℕ) (r : Row UserData) (old : Assoc (Row UserData))
    → r.content.username ≡ name
    → Finds name r.content old ((k, r) ∷ old)
unfolding find_user
before name k r old e n = ground (arith, ap (λ (s : List ℕ). same_string s n) e)

in_place :
    (name : List ℕ) (j k : ℕ) (q r : Row UserData) (rows : Assoc (Row UserData))
    → q.content.username ≡ name
    → r.content.username ≡ name
    → Finds name r.content ((j, q) ∷ rows) ((k, r) ∷ rows)
unfolding find_user
in_place name j k q r rows o e n =
    ground (arith, ap (λ (s : List ℕ). same_string s n) e, ap (λ (s : List ℕ). same_string s n) o)

store_existing :
    (name : List ℕ) (rows : Assoc (Row UserData)) (k : ℕ) (r r' : Row UserData)
    → Ascending rows
    → find_row name rows ≡ some (k, r)
    → r'.content.username ≡ name
    → Finds name r'.content rows (store k r' rows)
unfolding find_row store
store_existing name [] k r r' a h e = cc h
store_existing name ((j, q) ∷ rows) k r r' (above, a) h e =
    elim (Bool-cases (same_string q.content.username name)) [
      | inl y ↦
          let i : (j == k) ≡ true = ground (arith, eqb_self k) in
          rw i (in_place name j k q r' rows (same_string-true q.content.username name y) e)
      | inr d ↦
          let rest : find_row name rows ≡ some (k, r) = ground arith in
          let l = (find_row-Above j name rows {k = k} {r = r} above rest).0 in
          let i : (j == k) ≡ false = ground arith in
          let b : ltb k j ≡ false = ground arith in
          rw (i, b)
            (behind name r'.content j q rows (store k r' rows) d
              (store_existing name rows k r r' a rest e))
    ]

store_new :
    (name : List ℕ) (rows : Assoc (Row UserData)) (k : ℕ) (r : Row UserData)
    → get k rows ≡ none
    → find_row name rows ≡ none
    → r.content.username ≡ name
    → Finds name r.content rows (store k r rows)
unfolding find_row store get
store_new name [] k r g h e = before name k r [] e
store_new name ((j, q) ∷ rows) k r g h e =
    let d : same_string q.content.username name ≡ false = ground arith in
    let i : (j == k) ≡ false = ground arith in
    let ih = store_new name rows k r (ground arith) (ground arith) e in
    rw i (elim (Bool-cases (ltb k j)) [
      | inl b ↦ rw b (before name k r ((j, q) ∷ rows) e)
      | inr b ↦ rw b (behind name r.content j q rows (store k r rows) d ih)
    ])

push-stores :
    {T : Type 0} (v : Env T) (row : Row T) (rows : Assoc (Row T))
    → (push_inner v false row rows).result ≡ ok tt
    → (get row.id rows ≡ none) × ((push_inner v false row rows).rows ≡ store row.id row rows)
unfolding push_inner
push-stores v row rows h = elim (Option-cases (get row.id rows)) [
  | inl g ↦ (g, ground arith)
  | inr (old, g) ↦ absurd (ground arith)
]

fields_set :
    (c : UserConfig) (u : UserData) → u.username ≡ c.username → with_fields c u ≡ new_user c
unfolding new_user
fields_set c u e = ground arith

-- `v` compares the contents of users as the derived equality does.
abbrev pub ComparesUsers : Env UserData → Type 0
ComparesUsers v = (a b : UserData) → v.same_content a b ≡ true → a ≡ b

updated_content :
    (v : Env UserData) (c : UserConfig) (r : Row UserData)
    → ComparesUsers v
    → r.content.username ≡ c.username
    → (update_inner v
        (λ row. some (record row { content = with_fields c row.content }))
        false
        r).result
      ≡ ok tt
    → (update_inner v
        (λ row. some (record row { content = with_fields c row.content }))
        false
        r).cached.content
      ≡ new_user c
updated_content v c r compares e h =
    let next = record r { content = with_fields c r.content } in
    let (leaves, sets) =
      update_content v (λ row. some (record row { content = with_fields c row.content })) false r
        next refl in
    elim (sets h) [
      | inl w ↦ w ∙ fields_set c r.content e
      | inr (w, s) ↦
          ap (λ (q : Row UserData). q.content) w
          ∙ sym (compares (with_fields c r.content) r.content (unfold same_row in ground arith))
          ∙ fields_set c r.content e
    ]

find_row-username :
    (name : List ℕ) (rows : Assoc (Row UserData)) {k : ℕ} {r : Row UserData}
    → find_row name rows ≡ some (k, r)
    → r.content.username ≡ name
unfolding find_row
find_row-username name [] h = cc h
find_row-username name ((i, q) ∷ rows) {k} {r} h =
    ground
      (arith, same_string-true q.content.username name, find_row-username name rows {k = k} {r = r})

new_user-username : (c : UserConfig) → (new_user c).username ≡ c.username
unfolding new_user
new_user-username c = refl

-- The account's user is as the config says after it, and every other user as before.
pub put-Finds :
    (v : SyncEnv) (c : UserConfig) (users : Assoc (Row UserData)) (o : Option (ℕ × Row UserData))
    → ComparesUsers v.rows
    → Ascending users
    → find_row c.username users ≡ o
    → (put_config v c users o).result ≡ ok tt
    → Finds c.username (new_user c) users (put_config v c users o).rows
      × Ascending (put_config v c users o).rows
unfolding put_config
put-Finds v c users none compares a f h =
    let row : Row UserData = record {
      id = v.new_id c;
      revision = latest 1;
      content = new_user c;
    } in
    let (g, e) = push-stores v.rows row users h in
    rw e (
      store_new c.username users row.id row g f (new_user-username c),
      store-Ascending row.id row users a,
    )
put-Finds v c users (some (k, r)) compares a f h =
    unfold update_at in
    let m =
      update_inner v.rows (λ row. some (record row { content = with_fields c row.content })) false
        r in
    let w =
      updated_content v.rows c r compares (find_row-username c.username users {k = k} {r = r} f)
        h in
    (
      subst (λ u. Finds c.username u users (store k m.cached users)) w
          (store_existing c.username users k r m.cached a f
            (ap (λ (u : UserData). u.username) w ∙ new_user-username c)),
      store-Ascending k m.cached users a,
    )
