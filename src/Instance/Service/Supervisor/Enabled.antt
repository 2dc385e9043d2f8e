-- ===== src/Instance/Service/Supervisor/Enabled.antt =====
-- The stored desire of a service (`enabled`) and what is supervised, when calls do not overlap.
use sandpolis.Prelude.{
  ℕ, ◌≡◌, ◌⊎◌, refl, sym, ap, subst, ◌∙◌, inl, inr, Bool, true, false, Option, none, some, Result,
  ok, err, find, arith, ◌==◌, Bool-cases, Option-cases, eqb_self, eqb_true,
}
use sandpolis.Prelude.Maps.{Table}
use sandpolis.Database.Resident.{Row}
use sandpolis.Instance.Service.{
  ServiceState, ServiceReport, ServiceData, Change, enables, sets, records, change, recorded,
  stopped, idle, running, is_row_of,
}
use sandpolis.Instance.Service.Rows.{Rows, CommitStores, Unique}
use sandpolis.Instance.Service.Books.{update-Books, data_or_default, is_none}
use sandpolis.Instance.Service.Supervisor.{
  Phase, CallPhase, desired, starting, spawning, stopping, ending, Supervisor, Site, moved, book,
  try_book, or_same, start, start_over, stop, stop_over, advance, set_enabled, Move, proceeds,
  enters, begins, finishes, books, leaves_waiting, leaves_pass, IsIdle, InTurn, at_first, next_call,
  next_move,
}

abbrev pub is_some : {A : Type 0} → Option A → Bool
is_some none = false
is_some (some a) = true

module _ {D : Type 0} (v : Site D) where
  -- The database keeps its documented behaviour, and rows that compare equal are equal.
  abbrev pub IsReliable : Type 0
  IsReliable = CommitStores v.access × ((b c : ServiceData) → v.same b c ≡ true → b ≡ c)

  -- Every service has one row, and the data of this one satisfies `P`.
  abbrev pub Holds : (ServiceData → Type 0) → D → Type 0
  Holds P d =
      (rows : Rows) × (row : Row ServiceData) × (v.access.scan d ≡ some rows)
      × Unique rows
      × (find (is_row_of v.instance_id v.key) rows ≡ some row)
      × P row.content

  pub book-Holds :
      (P Q : ServiceData → Type 0) (f : Change) (d : D) (m : D × Row ServiceData)
      → IsReliable
      → ((c : ServiceData) → P c → Q (change f false c))
      → Holds P d
      → book v f d ≡ some m
      → Holds Q m.0
  unfolding book
  book-Holds P Q f d m (laws, sound) h (rows, row, s, u, e, p) b =
      let (rows', s', (u', found, is, others)) =
        update-Books v.access v.same v.authority v.fresh v.instance_id v.key f d m.0 rows m.1 laws
          sound s u b in
      (
        rows',
        m.1,
        s',
        u',
        found,
        subst Q
            (sym (is ∙ ap (λ o. change f (is_none o) (data_or_default v.instance_id v.key o)) e))
            (h row.content p),
      )

  pub try_book-Holds :
      (P : ServiceData → Type 0) (f : Change) (d : D)
      → IsReliable
      → ((c : ServiceData) → P c → P (change f false c))
      → Holds P d
      → Holds P (try_book v f d)
  unfolding try_book or_same
  try_book-Holds P f d w h p = elim (Option-cases (book v f d)) [
    | inl n ↦ subst (Holds P) (ground (arith, n)) p
    | inr (m, b) ↦ subst (Holds P) {x = m.0} (ground (arith, b)) (book-Holds P P f d m w h p b)
  ]

  abbrev pub Desires : Bool → ServiceData → Type 0
  Desires b c = c.enabled ≡ b

  pub sets_keeps :
      (x : ServiceState) (b : Bool) (c : ServiceData)
      → Desires b c
      → Desires b (change (sets x) false c)
  unfolding change
  sets_keeps x b c e = e

  records_keeps :
      (started ended : ℕ) (result : Result ℕ ServiceReport) (saw : Bool) (b : Bool)
      (c : ServiceData)
      → Desires b c
      → Desires b (change (records started ended result saw) false c)
  unfolding change recorded
  records_keeps started ended (ok r) saw b c e = e
  records_keeps started ended (err x) saw b c e = e

  pub enables_sets :
      (b c : Bool) (d : ServiceData) → Desires c d → Desires b (change (enables b) false d)
  unfolding change
  enables_sets b c d e = refl

  -- What a call that is under way has seen to.
  abbrev Promised : CallPhase → Supervisor D → Type 0
  Promised (desired b) s = Holds (Desires b) s.db
  Promised (starting t) s = Holds (Desires true) s.db × (is_some s.token ≡ true)
  Promised (spawning t) s = Holds (Desires true) s.db × (is_some s.token ≡ true)
  Promised (stopping t) s = Holds (Desires false) s.db × (is_some s.token ≡ false)
  Promised ending s = Holds (Desires false) s.db × (is_some s.token ≡ false)

  -- At rest the stored desire is to run exactly when the service has a token; or one call is under way.
  abbrev pub Follows : Supervisor D → Type 0
  Follows s =
      (IsIdle v s × Holds (Desires (is_some s.token)) s.db)
      ⊎ ((c : ℕ) × (p : CallPhase) × (s.calls c ≡ some p)
          × ((x : ℕ) → (c == x) ≡ false → s.calls x ≡ none)
          × Promised p s)

  IsOnly : (c : ℕ) (calls : Table CallPhase) → Type 0
  IsOnly c calls = (x : ℕ) → (c == x) ≡ false → calls x ≡ none

  rests : (c : ℕ) (calls : Table CallPhase) → IsOnly c calls → (x : ℕ) → moved c none calls x ≡ none
  unfolding IsOnly
  rests c calls h x = elim (Bool-cases (c == x)) [
    | inl y ↦ ground (arith, y)
    | inr n ↦ ground (arith, n, h x n)
  ]

  busy :
      (c : ℕ) (q : CallPhase) (calls : Table CallPhase)
      → IsOnly c calls
      → (moved c (some q) calls c ≡ some q)
        × ((x : ℕ) → (c == x) ≡ false → moved c (some q) calls x ≡ none)
  unfolding IsOnly
  busy c q calls h = (ground (arith, eqb_self c), λ x n. ground (arith, n, h x n))

  start_over-Follows :
      (c : ℕ) (s : Supervisor D) (o : Option ℕ)
      → s.token ≡ o
      → IsOnly c s.calls
      → Holds (Desires true) s.db
      → Follows (start_over v c s o)
  unfolding start_over
  start_over-Follows c s (some t) e one h =
      inl (rests c s.calls one, subst (λ o. Holds (Desires (is_some o)) s.db) (sym e) h)
  start_over-Follows c s none e one h =
      let (at, others) = busy c (starting s.drawn) s.calls one in
      inr (c, starting s.drawn, at, others, (h, refl))

  stop_over-Follows :
      (c : ℕ) (s : Supervisor D) (o : Option ℕ)
      → s.token ≡ o
      → IsOnly c s.calls
      → Holds (Desires false) s.db
      → Follows (stop_over v c s o)
  unfolding stop_over
  stop_over-Follows c s none e one h =
      inl (rests c s.calls one, subst (λ o. Holds (Desires (is_some o)) s.db) (sym e) h)
  stop_over-Follows c s (some t) e one h =
      let (at, others) = busy c (stopping t) s.calls one in
      inr (c, stopping t, at, others, (h, refl))

  advance-Follows :
      (c : ℕ) (p : CallPhase) (s : Supervisor D)
      → IsReliable
      → IsOnly c s.calls
      → Promised p s
      → Follows (advance v c p s)
  unfolding advance start stop
  advance-Follows c (desired true) s w one h = start_over-Follows c s s.token refl one h
  advance-Follows c (desired false) s w one h = stop_over-Follows c s s.token refl one h
  advance-Follows c (starting t) s w one (h, r) =
      let (at, others) = busy c (spawning t) s.calls one in
      inr (
        c,
        spawning t,
        at,
        others,
        (try_book-Holds (Desires true) (sets idle) s.db w (sets_keeps idle true) h, r),
      )
  advance-Follows c (spawning t) s w one (h, r) =
      inl (rests c s.calls one, subst (λ b. Holds (Desires b) s.db) (sym r) h)
  advance-Follows c (stopping t) s w one h =
      let (at, others) = busy c ending s.calls one in inr (c, ending, at, others, h)
  advance-Follows c ending s w one (h, r) = inl (
    rests c s.calls one,
    subst (λ b. Holds (Desires b) (try_book v (sets stopped) s.db)) (sym r)
        (try_book-Holds (Desires false) (sets stopped) s.db w (sets_keeps stopped false) h),
  )

  -- Writes that keep every desire.
  writes-Promised :
      (p : CallPhase) (d : D) (ts : Table Phase) (s : Supervisor D)
      → ((b : Bool) → Holds (Desires b) s.db → Holds (Desires b) d)
      → Promised p s
      → Promised p (record s { db = d; tasks = ts })
  writes-Promised (desired b) d ts s f h = f b h
  writes-Promised (starting t) d ts s f (h, r) = (f true h, r)
  writes-Promised (spawning t) d ts s f (h, r) = (f true h, r)
  writes-Promised (stopping t) d ts s f (h, r) = (f false h, r)
  writes-Promised ending d ts s f (h, r) = (f false h, r)

  writes-Follows :
      (d : D) (ts : Table Phase) (s : Supervisor D)
      → ((b : Bool) → Holds (Desires b) s.db → Holds (Desires b) d)
      → Follows s
      → Follows (record s { db = d; tasks = ts })
  writes-Follows d ts s f (inl (i, h)) = inl (i, f (is_some s.token) h)
  writes-Follows d ts s f (inr (c, p, at, others, h)) =
      inr (c, p, at, others, writes-Promised p d ts s f h)

  proceeds-Follows :
      (c : ℕ) (p : CallPhase) (s : Supervisor D)
      → IsReliable
      → s.calls c ≡ some p
      → Follows s
      → Follows (advance v c p s)
  unfolding IsOnly
  proceeds-Follows c p s w e (inl (i, h)) = absurd (cc (e, i c))
  proceeds-Follows c p s w e (inr (k, q, at, others, h)) = elim (Bool-cases (k == c)) [
    | inr n ↦ absurd (cc (e, others c n))
    | inl y ↦
        let same = eqb_true k c y in
        let phase : q ≡ p = cc (at, e, same) in
        advance-Follows c p s w (λ x n. others x (ground (arith, same, n)))
          (subst (λ z. Promised z s) phase h)
  ]

  Move-Follows : (s s' : Supervisor D) → IsReliable → Move v s s' → Follows s → Follows s'
  Move-Follows s _ w (proceeds c p e) h = proceeds-Follows c p s w e h
  Move-Follows s _ w (enters t p c) h = writes-Follows s.db _ s (λ b k. k) h
  Move-Follows s _ w (begins t now p) h =
      writes-Follows _ _ s
        (λ b k. try_book-Holds (Desires b) (sets running) s.db w (sets_keeps running b) k) h
  Move-Follows s _ w (finishes t started ended result p) h = writes-Follows s.db _ s (λ b k. k) h
  Move-Follows s _ w (books t started ended result saw p) h =
      writes-Follows _ _ s
        (λ b k.
          try_book-Holds (Desires b) (records started ended result saw) s.db w
            (records_keeps started ended result saw b) k)
        h
  Move-Follows s _ w (leaves_waiting t p c) h = writes-Follows s.db _ s (λ b k. k) h
  Move-Follows s _ w (leaves_pass t started p c) h = writes-Follows s.db _ s (λ b k. k) h

  call-Follows :
      (c : ℕ) (b : Bool) (s s' : Supervisor D)
      → IsReliable
      → IsIdle v s
      → set_enabled v c b s ≡ some s'
      → Follows s
      → Follows s'
  unfolding set_enabled IsOnly
  call-Follows c b s s' w idle_calls e (inr (k, q, at, others, h)) = absurd (cc (at, idle_calls k))
  call-Follows c b s s' w idle_calls e (inl (i, h)) =
      elim (Option-cases (book v (enables b) s.db)) [
        | inl n ↦ absurd (ground (arith, e, n))
        | inr (m, p) ↦
            let s1 : Supervisor D = record s {
              db = m.0;
              calls = moved c (some (desired b)) s.calls;
            } in
            let q : s1 ≡ s' = ground (arith, e, p) in
            let (at, others) = busy c (desired b) s.calls (λ x n. i x) in
            subst Follows q (
              inr (
                c,
                desired b,
                at,
                others,
                book-Holds (Desires (is_some s.token)) (Desires b) (enables b) s.db m w
                    (enables_sets b (is_some s.token)) h p,
              ))
      ]

  pub InTurn-Follows : (s s' : Supervisor D) → IsReliable → InTurn v s s' → Follows s → Follows s'
  InTurn-Follows s _ w at_first h = h
  InTurn-Follows s _ w (next_call m s' c b r i e) h =
      call-Follows c b m s' w i e (InTurn-Follows s m w r h)
  InTurn-Follows s _ w (next_move m s' r st) h = Move-Follows m s' w st (InTurn-Follows s m w r h)
