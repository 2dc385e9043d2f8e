-- ===== src/Instance/Service/Supervisor/Launch.antt =====
-- A restart of the process (`ServiceRunner::start` of sandpolis-instance/src/service/runner.rs), and
-- what holds from then on.
use sandpolis.Prelude.{
  ℕ, ◌≡◌, ◌≢◌, ◌↔◌, ◌⊎◌, refl, sym, ap, subst, ◌∙◌, inl, inr, Bool, true, false, Option, none, some,
  any, find, arith, ◌==◌, if◌then◌else◌, Option-cases, Bool-cases,
}
use sandpolis.Database.Resident.{Row}
use sandpolis.Instance.Service.{ServiceData, reconciles, change, is_row_of}
use sandpolis.Instance.Service.Rows.{Rows, Unique}
use sandpolis.Instance.Service.Books.{update-Books, data_or_default, is_none}
use sandpolis.Instance.Service.Supervisor.{
  CallPhase, desired, Supervisor, Site, is_cancelled, moved, book, begun, launch, Reach, IsIdle,
  InTurn,
}
use sandpolis.Instance.Service.Supervisor.Tokens.{IsSound, IsStopping}
use sandpolis.Instance.Service.Supervisor.Calls.{Reach-IsSound}
use sandpolis.Instance.Service.Supervisor.Enabled.{
  is_some, IsReliable, Holds, Desires, Follows, InTurn-Follows,
}

module _ {D : Type 0} (v : Site D) where
  -- What a restart finds: the stored desire, or to run when the service is new.
  abbrev pub wanted : Option (Row ServiceData) → Bool
  wanted none = true
  wanted (some row) = row.content.enabled

  -- The calls of a restart: one of `start`, or none.
  abbrev pub first_calls : Bool → ℕ → Option CallPhase
  first_calls b = moved 0 (if b then some (desired true) else none) (λ c. none)

  first_phase : (b : Bool) (c : ℕ) (p : CallPhase) → first_calls b c ≡ some p → p ≡ desired true
  first_phase true c p h = elim (Bool-cases (0 == c)) [
    | inl y ↦ ground (arith, h, y)
    | inr n ↦ absurd (ground (arith, h, n))
  ]
  first_phase false c p h = absurd (ground (arith, h))

  begun-IsSound : (m : D × Row ServiceData) → IsSound (begun v m)
  unfolding any
  begun-IsSound m = record {
    tokens = λ t l. absurd (omega arith);
    of_tasks = λ t n. absurd (n refl);
    of_calls = λ c t p h k. absurd (cc (k, first_phase m.1.content.enabled c p h));
    old = λ t c. absurd (cc c);
    current = λ t e. absurd (cc e);
    away = λ c t h e. cc e;
  }

  launched :
      (layer name description schedule : ℕ) (d : D) (s : Supervisor D)
      → launch v layer name description schedule d ≡ some s
      → (m : D × Row ServiceData) × (book v (reconciles layer name description schedule) d ≡ some m)
        × (begun v m ≡ s)
  unfolding launch
  launched layer name description schedule d s e =
      elim (Option-cases (book v (reconciles layer name description schedule) d)) [
        | inl n ↦ absurd (ground (arith, e, n))
        | inr (m, p) ↦ (m, p, ground (arith, e, p))
      ]

  -- From a restart on, however calls and the supervising tasks interleave: a task whose token is not
  -- cancelled is the one of the supervisor's token, or a call is about to cancel it; and whenever no
  -- call is under way, the tasks that are not cancelled are exactly the one of the supervisor's token,
  -- so that two of them never go on making passes.
  pub launch_runs_one :
      (layer name description schedule : ℕ) (d : D) (s s' : Supervisor D)
      → launch v layer name description schedule d ≡ some s
      → Reach v s s'
      → ((t : ℕ)
          → s'.tasks t ≢ none
          → is_cancelled t s' ≡ false
          → (s'.token ≡ some t) ⊎ IsStopping t s'.calls)
        × (IsIdle v s'
            → (t : ℕ) → ((s'.tasks t ≢ none) × (is_cancelled t s' ≡ false)) ↔ (s'.token ≡ some t))
  launch_runs_one layer name description schedule d s s' e r =
      let (m, p, q) = launched layer name description schedule d s e in
      let w = Reach-IsSound v s s' r (subst IsSound q (begun-IsSound m)) in
      let live : (t : ℕ)
          → s'.tasks t ≢ none
          → is_cancelled t s' ≡ false
          → (s'.token ≡ some t) ⊎ IsStopping t s'.calls =
        λ t n c. elim (w.tokens t (w.of_tasks t n)) [ inl y ↦ absurd (cc (y, c)) | inr r ↦ r ] in
      (
        live,
        λ i t. (
          λ (n, c). elim (live t n c) [ inl y ↦ y | inr (k, z) ↦ absurd (cc (z, i k)) ],
          λ h.
              let (l, c, k) = w.current t h in
              elim k [
                | inl y ↦ (y, c)
                | inr (x, z) ↦ elim z [
                  | inl a ↦ absurd (cc (a, i x))
                  | inr a ↦ absurd (cc (a, i x))
                ]
              ],
        ),
      )

  reconciled_enabled :
      (layer name description schedule : ℕ) (o : Option (Row ServiceData))
      → (change
          (reconciles layer name description schedule)
          (is_none o)
          (data_or_default v.instance_id v.key o)).enabled
        ≡ wanted o
  unfolding change
  reconciled_enabled layer name description schedule none = refl
  reconciled_enabled layer name description schedule (some row) = refl

  begun-Follows :
      (m : D × Row ServiceData) (b : Bool)
      → m.1.content.enabled ≡ b
      → Holds v (Desires v b) m.0
      → Follows v (begun v m)
  begun-Follows m true e h =
      inr (0, desired true, ap (λ b. first_calls b 0) e, λ x n. ground (arith, n), h)
  begun-Follows m false e h = inl (λ c. ground (arith, e), h)

  -- A restart begins to start a service exactly when it is new or its stored desire says so: one
  -- that was disabled stays off. Then, over calls that do not overlap and whatever the supervising
  -- tasks do meanwhile, whenever no call is under way the stored desire is to run exactly when the
  -- supervisor holds a token. (If the database keeps its documented behaviour and every service has
  -- one row at the start.)
  pub launch_supervises :
      (layer name description schedule : ℕ) (d : D) (rows : Rows) (s s' : Supervisor D)
      → IsReliable v
      → v.access.scan d ≡ some rows
      → Unique rows
      → launch v layer name description schedule d ≡ some s
      → InTurn v s s'
      → ((c : ℕ) → s.calls c ≡ first_calls (wanted (find (is_row_of v.instance_id v.key) rows)) c)
        × (s.token ≡ none)
        × (IsIdle v s' → Holds v (Desires v (is_some s'.token)) s'.db)
  unfolding book
  launch_supervises layer name description schedule d rows s s' (laws, sound) scan u e r =
      let (m, p, q) = launched layer name description schedule d s e in
      let (rows', scan', (u', found, is, others)) =
        update-Books v.access v.same v.authority v.fresh v.instance_id v.key
          (reconciles layer name description schedule) d m.0 rows m.1 laws sound scan u p in
      let o = find (is_row_of v.instance_id v.key) rows in
      let on : m.1.content.enabled ≡ wanted o =
        ap (λ (c : ServiceData). c.enabled) is
        ∙ reconciled_enabled layer name description schedule o in
      let held : Holds v (Desires v (wanted o)) m.0 = (rows', m.1, scan', u', found, on) in
      let follows =
        InTurn-Follows v s s' (laws, sound) r
          (subst (Follows v) q (begun-Follows m (wanted o) on held)) in
      (
        λ c. ap (λ (z : Supervisor D). z.calls c) (sym q) ∙ ap (λ b. first_calls b c) on,
        ap (λ (z : Supervisor D). z.token) (sym q),
        λ i. elim follows [ inl (j, h) ↦ h | inr (c, p, at, others, h) ↦ absurd (cc (at, i c)) ],
      )
