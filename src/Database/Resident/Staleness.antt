-- ===== src/Database/Resident/Staleness.antt =====
-- What an update leaves in the cache, and which reported rows the cache takes.
use sandpolis.Prelude.{
  ℕ, zero, suc, ◌+◌, ◌≤◌, ◌<◌, ◌≡◌, refl, ap, ◌∙◌, ◌⊎◌, Bool, true, false, Option, none, some, [],
  In, ok, err, arith,
}
use sandpolis.Database.Scope.{permits}
use sandpolis.Database.Revision.{DataRevision, latest, previous, number, add}
use sandpolis.Database.Resident.{
  Row, insert, upsert, Env, Mutation, same_row, update_inner, commit_update, mutated, accept,
  not_writable,
}

module _ {T : Type 0} (v : Env T) where
  -- The cached row was advanced by one revision and is among the rows of a committed transaction.
  abbrev pub IsAdvanced : Row T → Mutation T → Type 0
  IsAdvanced row m =
      (number m.cached.revision ≡ number row.revision + 1)
      × (v.commits m.writes ≡ true)
      × (In (insert m.cached) m.writes ⊎ In (upsert m.cached) m.writes)

  number-add : (r : DataRevision) → number (add r 1) ≡ number r + 1
  number-add (latest n) = refl
  number-add (previous n) = refl

  commit_ok :
      (local : Bool) (prev next : Row T)
      → (commit_update v local prev next).result ≡ ok tt
      → let m = commit_update v local prev next in
        (m.cached.revision ≡ next.revision)
        × (v.commits m.writes ≡ true)
        × (In (insert m.cached) m.writes ⊎ In (upsert m.cached) m.writes)
  unfolding commit_update
  commit_ok local prev next h = ground arith

  content_mutated :
      (local : Bool) (row next : Row T)
      → let m = mutated v local row (some next) in
        ((m.cached.content ≡ row.content) ⊎ (m.cached.content ≡ next.content))
        × (m.result ≡ ok tt
            → (m.cached.content ≡ next.content) ⊎ ((m.cached ≡ row) × (same_row v next row ≡ true)))
  unfolding mutated commit_update
  content_mutated local row next = ground arith

  mutated_ok :
      (local : Bool) (row : Row T) (o : Option (Row T))
      → ((next : Row T) → o ≡ some next → next.revision ≡ row.revision)
      → (mutated v local row o).result ≡ ok tt
      → let m = mutated v local row o in ((m.cached ≡ row) × (m.writes ≡ [])) ⊎ IsAdvanced row m
  unfolding mutated
  mutated_ok local row none keeps h = cc
  mutated_ok local row (some next) keeps h =
      let prev' = record row { revision = previous (number (add next.revision 1)) } in
      let next' = record next { revision = add next.revision 1 } in
      ground (arith, keeps next refl, number-add row.revision, commit_ok local prev' next')

module _ {T : Type 0} (v : Env T) (mutator : Row T → Option (Row T)) (row : Row T) where
  -- An update that succeeds, by a mutator that leaves the revision alone, either found nothing to
  -- change and wrote nothing, or advanced the revision by one, and the cached row is among the
  -- rows of a committed transaction.
  pub update_ok :
      (local : Bool)
      → ((next : Row T) → mutator row ≡ some next → next.revision ≡ row.revision)
      → (update_inner v mutator local row).result ≡ ok tt
      → let m = update_inner v mutator local row in
        ((m.cached ≡ row) × (m.writes ≡ [])) ⊎ IsAdvanced v row m
  unfolding update_inner
  update_ok local keeps h = mutated_ok v local row (mutator row) keeps h

  -- An update of a row whose scope is not writable here, by a mutator that changes the row but
  -- not its identifier, fails and writes nothing, and the cached content is as it was; but the
  -- cached row's revision is one above that of the row that the mutator left.
  pub update_refused :
      {next : Row T}
      → mutator row ≡ some next
      → same_row v next row ≡ false
      → next.id ≡ row.id
      → permits v.authority (v.scope next.content) ≡ false
      → let m = update_inner v mutator false row in
        (m.result ≡ err not_writable)
        × (m.writes ≡ [])
        × (m.cached.content ≡ row.content)
        × (number m.cached.revision ≡ number next.revision + 1)
  unfolding update_inner
  update_refused e s i p = ground arith

-- An update leaves the old content or the one that the mutator leaves; when it succeeds, it leaves
-- the latter, unless the two rows compare equal.
pub update_content :
    {T : Type 0} (v : Env T) (mutator : Row T → Option (Row T)) (local : Bool) (row next : Row T)
    → mutator row ≡ some next
    → let m = update_inner v mutator local row in
      ((m.cached.content ≡ row.content) ⊎ (m.cached.content ≡ next.content))
      × (m.result ≡ ok tt
          → (m.cached.content ≡ next.content) ⊎ ((m.cached ≡ row) × (same_row v next row ≡ true)))
unfolding update_inner
update_content v mutator local row next e = rw e (content_mutated v local row next)

-- A reported row never takes the cache back to an older revision, and is taken exactly when it is
-- at least as recent as the cached one.
pub accept_newest :
    {T : Type 0} (incoming cached : Row T)
    → (number cached.revision ≤ number (accept incoming cached).revision)
      × (number cached.revision ≤ number incoming.revision → accept incoming cached ≡ incoming)
      × (suc (number incoming.revision) ≤ number cached.revision → accept incoming cached ≡ cached)
unfolding accept
accept_newest incoming cached = ground arith

-- An update of the content, tried again and again.
module _ {T : Type 0} (v : Env T) (f : T → T) where
  abbrev pub by : Row T → Option (Row T)
  by r = some (record r { content = f r.content })

  unfoldable pub tries : ℕ → Row T → Row T
  tries zero row = row
  tries (suc n) row = tries n (update_inner v by false row).cached

  one_try :
      (row : Row T)
      → v.same_content (f row.content) row.content ≡ false
      → permits v.authority (v.scope (f row.content)) ≡ false
      → let m = update_inner v by false row in
        (m.writes ≡ [])
        × (m.cached.content ≡ row.content)
        × (number m.cached.revision ≡ number row.revision + 1)
  one_try row s p =
      let (r, w, c, n) =
        update_refused v by row {next = record row { content = f row.content }} refl
          (unfold same_row in ground (arith, s)) refl p in
      (w, c, n)

  -- However often an update of a row is tried whose scope is not writable here, every try writes
  -- nothing, and the cached content is as it was; but the cached revision has gone up by one each time,
  -- and a replicated row, newer than what is stored, is discarded while it is not at least as many
  -- revisions ahead as there were tries.
  pub refused_tries :
      (n : ℕ) (row : Row T)
      → v.same_content (f row.content) row.content ≡ false
      → permits v.authority (v.scope (f row.content)) ≡ false
      → ((update_inner v by false (tries n row)).writes ≡ [])
        × ((tries n row).content ≡ row.content)
        × (number (tries n row).revision ≡ number row.revision + n)
        × ((incoming : Row T)
            → number incoming.revision < number row.revision + n
            → accept incoming (tries n row) ≡ tries n row)
  unfolding tries
  refused_tries zero row s p =
      let (w, c, k) = one_try row s p in
      (
        w,
        refl,
        omega arith,
        λ incoming l. let (x, y, z) = accept_newest incoming row in z (omega (arith, l)),
      )
  refused_tries (suc n) row s p =
      let next = (update_inner v by false row).cached in
      let (w, c, k) = one_try row s p in
      let (written, content, revision, discards) =
        refused_tries n next (ap (λ x. v.same_content (f x) x) c ∙ s)
          (ap (λ x. permits v.authority (v.scope (f x))) c ∙ p) in
      (
        written,
        content ∙ c,
        omega (arith, revision, k),
        λ incoming l. discards incoming (omega (arith, l, k)),
      )
