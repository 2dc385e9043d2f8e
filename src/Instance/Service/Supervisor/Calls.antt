-- ===== src/Instance/Service/Supervisor/Calls.antt =====
-- The tokens over any interleaving of calls and tasks.
use sandpolis.Prelude.{
  ℕ, ◌≡◌, refl, sym, ap, subst, ◌∙◌, inl, inr, Bool, true, false, Option, none, some, any, arith,
  ◌==◌, Bool-cases, Option-cases, eqb_self, eqb_true,
}
use sandpolis.Instance.Service.{enables}
use sandpolis.Instance.Service.Supervisor.{
  CallPhase, desired, starting, spawning, stopping, ending, Supervisor, Site, is_cancelled, moved,
  book, start, start_over, stop, stop_over, advance, set_enabled, Move, proceeds, enters, begins,
  finishes, books, leaves_waiting, leaves_pass, Reach, here, then_call, then_move,
}
use sandpolis.Instance.Service.Supervisor.Tokens.{
  IsSound, kept-Stopping, kept-Coming, moved-cases, Free-IsSound, phase-IsSound, leave-IsSound,
}

module _ {D : Type 0} (v : Site D) where
  start_over-IsSound :
      (c : ℕ) (s : Supervisor D) (o : Option ℕ)
      → s.calls c ≡ some (desired true)
      → s.token ≡ o
      → IsSound s
      → IsSound (start_over v c s o)
  unfolding start_over
  start_over-IsSound c s (some t) h e w =
      Free-IsSound c none s.db s (λ q u k z. cc (h, k, z)) (λ q u k z. cc k) w
  start_over-IsSound c s none h e w = record {
    tokens = λ t l. elim (Bool-cases (s.drawn == t)) [
      | inl y ↦ inr (inl (ap some (eqb_true s.drawn t y)))
      | inr f ↦ elim (w.tokens t (ground (arith, l, f))) [
        | inl y ↦ inl y
        | inr r ↦ elim r [
          | inl y ↦ absurd (cc (e, y))
          | inr z ↦ inr (inr (kept-Stopping c t _ s.calls (λ k. cc (h, k)) z))
        ]
      ]
    ];
    of_tasks = λ t m. omega (arith, w.of_tasks t m);
    of_calls = λ x t q k z. elim (moved-cases c x (some (starting s.drawn)) s.calls q k) [
      | inl (y, g) ↦ let r : s.drawn ≡ t = cc (g, z) in omega (arith, r)
      | inr g ↦ omega (arith, w.of_calls x t q g z)
    ];
    old = λ t k. omega (arith, w.old t k);
    current = λ t k.
        let q : s.drawn ≡ t = cc k in
        (
          omega (arith, q),
          elim (Bool-cases (is_cancelled t s)) [
            | inl y ↦ absurd (omega (arith, w.old t y, q))
            | inr n ↦ n
          ],
          inr (c, inl (ground (arith, q, eqb_self c))),
        );
    away = λ x t k z. elim (moved-cases c x (some (starting s.drawn)) s.calls (stopping t) k) [
      | inl (y, g) ↦ cc g
      | inr g ↦ let q : s.drawn ≡ t = cc z in omega (arith, w.of_calls x t (stopping t) g refl, q)
    ];
  }

  stop_over-IsSound :
      (c : ℕ) (s : Supervisor D) (o : Option ℕ)
      → s.calls c ≡ some (desired false)
      → s.token ≡ o
      → IsSound s
      → IsSound (stop_over v c s o)
  unfolding stop_over
  stop_over-IsSound c s none h e w =
      Free-IsSound c none s.db s (λ q u k z. cc (h, k, z)) (λ q u k z. cc k) w
  stop_over-IsSound c s (some u) h e w = record {
    tokens = λ t l. elim (w.tokens t l) [
      | inl y ↦ inl y
      | inr r ↦ elim r [
        | inl y ↦ let q : u ≡ t = cc (e, y) in inr (inr (c, ground (arith, q, eqb_self c)))
        | inr z ↦ inr (inr (kept-Stopping c t _ s.calls (λ k. cc (h, k)) z))
      ]
    ];
    of_tasks = w.of_tasks;
    of_calls = λ x t q k z. elim (moved-cases c x (some (stopping u)) s.calls q k) [
      | inl (y, g) ↦ (w.current t (e ∙ cc (g, z))).0
      | inr g ↦ w.of_calls x t q g z
    ];
    old = w.old;
    current = λ t k. absurd (cc k);
    away = λ x t k z. cc z;
  }

  -- A call that holds a token goes on.
  advance-IsSound :
      (c : ℕ) (p : CallPhase) (s : Supervisor D)
      → s.calls c ≡ some p
      → IsSound s
      → IsSound (advance v c p s)
  unfolding advance start stop any
  advance-IsSound c (desired true) s h w = start_over-IsSound c s s.token h refl w
  advance-IsSound c (desired false) s h w = stop_over-IsSound c s s.token h refl w
  advance-IsSound c ending s h w =
      Free-IsSound c none _ s (λ q u k z. cc (h, k, z)) (λ q u k z. cc k) w
  advance-IsSound c (starting u) s h w = record {
    tokens = λ t l. elim (w.tokens t l) [
      | inl y ↦ inl y
      | inr r ↦ elim r [
        | inl y ↦ inr (inl y)
        | inr z ↦ inr (inr (kept-Stopping c t _ s.calls (λ k. cc (h, k)) z))
      ]
    ];
    of_tasks = w.of_tasks;
    of_calls = λ x t q k z. elim (moved-cases c x (some (spawning u)) s.calls q k) [
      | inl (y, g) ↦ w.of_calls c t (starting u) h (cc (g, z))
      | inr g ↦ w.of_calls x t q g z
    ];
    old = w.old;
    current = λ t k.
        let (l, n, r) = w.current t k in
        (
          l,
          n,
          elim r [
            | inl y ↦ inl y
            | inr z ↦ inr (elim (Bool-cases (u == t)) [
              | inl y ↦ (c, inr (ground (arith, eqb_self c, eqb_true u t y)))
              | inr f ↦
                  kept-Coming c t _ s.calls
                    (λ k. let q : u ≡ t = cc (h, k) in ground (arith, q, f, eqb_self u))
                    (λ k. cc (h, k)) z
            ])
          ],
        );
    away = λ x t k. elim (moved-cases c x (some (spawning u)) s.calls (stopping t) k) [
      | inl (y, g) ↦ absurd (cc g)
      | inr g ↦ w.away x t g
    ];
  }
  advance-IsSound c (spawning u) s h w = record {
    tokens = λ t l. elim (w.tokens t l) [
      | inl y ↦ inl y
      | inr r ↦ elim r [
        | inl y ↦ inr (inl y)
        | inr z ↦ inr (inr (kept-Stopping c t _ s.calls (λ k. cc (h, k)) z))
      ]
    ];
    of_tasks = λ t m. elim (Bool-cases (u == t)) [
      | inl y ↦ w.of_calls c t (spawning u) h (ap some (eqb_true u t y))
      | inr f ↦ w.of_tasks t (λ e. m (ground (arith, e, f)))
    ];
    of_calls = λ x t q k z. elim (moved-cases c x none s.calls q k) [
      | inl (y, g) ↦ absurd (cc g)
      | inr g ↦ w.of_calls x t q g z
    ];
    old = w.old;
    current = λ t k.
        let (l, n, r) = w.current t k in
        (
          l,
          n,
          elim (Bool-cases (u == t)) [
            | inl y ↦ inl (λ z. ground (arith, z, y))
            | inr f ↦ elim r [
              | inl y ↦ inl (λ z. y (ground (arith, z, f)))
              | inr z ↦ inr (
                  kept-Coming c t _ s.calls (λ k. cc (h, k))
                    (λ k. let q : u ≡ t = cc (h, k) in ground (arith, q, f, eqb_self u)) z)
            ]
          ],
        );
    away = λ x t k. elim (moved-cases c x none s.calls (stopping t) k) [
      | inl (y, g) ↦ absurd (cc g)
      | inr g ↦ w.away x t g
    ];
  }
  advance-IsSound c (stopping u) s h w = record {
    tokens = λ t l. elim (Bool-cases (u == t)) [
      | inl y ↦ inl (ground (arith, y))
      | inr f ↦ elim (w.tokens t l) [
        | inl y ↦ inl (ground (arith, y))
        | inr r ↦ elim r [
          | inl y ↦ inr (inl y)
          | inr z ↦ inr (
              inr (
                kept-Stopping c t _ s.calls
                  (λ k. let q : u ≡ t = cc (h, k) in ground (arith, q, f, eqb_self u)) z))
        ]
      ]
    ];
    of_tasks = w.of_tasks;
    of_calls = λ x t q k z. elim (moved-cases c x (some ending) s.calls q k) [
      | inl (y, g) ↦ absurd (cc (g, z))
      | inr g ↦ w.of_calls x t q g z
    ];
    old = λ t k. elim (Bool-cases (u == t)) [
      | inl y ↦ w.of_calls c t (stopping u) h (ap some (eqb_true u t y))
      | inr f ↦ w.old t (ground (arith, k, f))
    ];
    current = λ t k.
        let (l, n, r) = w.current t k in
        (
          l,
          elim (Bool-cases (u == t)) [
            | inl y ↦ absurd (w.away c u h (k ∙ ap some (sym (eqb_true u t y))))
            | inr f ↦ ground (arith, n, f)
          ],
          elim r [
            | inl y ↦ inl y
            | inr z ↦ inr (kept-Coming c t _ s.calls (λ k. cc (h, k)) (λ k. cc (h, k)) z)
          ],
        );
    away = λ x t k. elim (moved-cases c x (some ending) s.calls (stopping t) k) [
      | inl (y, g) ↦ absurd (cc g)
      | inr g ↦ w.away x t g
    ];
  }

  Move-IsSound : (s s' : Supervisor D) → Move v s s' → IsSound s → IsSound s'
  Move-IsSound s _ (proceeds c p h) w = advance-IsSound c p s h w
  Move-IsSound s _ (enters t p c) w = phase-IsSound t _ s.db s (λ n. cc (n, p)) w
  Move-IsSound s _ (begins t now p) w = phase-IsSound t _ _ s (λ n. cc (n, p)) w
  Move-IsSound s _ (finishes t started ended result p) w =
      phase-IsSound t _ s.db s (λ n. cc (n, p)) w
  Move-IsSound s _ (books t started ended result saw p) w = phase-IsSound t _ _ s (λ n. cc (n, p)) w
  Move-IsSound s _ (leaves_waiting t p c) w = leave-IsSound t s c w
  Move-IsSound s _ (leaves_pass t started p c) w = leave-IsSound t s c w

  call-IsSound :
      (c : ℕ) (b : Bool) (s s' : Supervisor D)
      → s.calls c ≡ none
      → set_enabled v c b s ≡ some s'
      → IsSound s
      → IsSound s'
  unfolding set_enabled
  call-IsSound c b s s' h e w = elim (Option-cases (book v (enables b) s.db)) [
    | inl n ↦ absurd (ground (arith, e, n))
    | inr (m, p) ↦
        let s1 : Supervisor D = record s { db = m.0; calls = moved c (some (desired b)) s.calls } in
        let q : s1 ≡ s' = ground (arith, e, p) in
        subst IsSound q
          (Free-IsSound c (some (desired b)) m.0 s (λ q u k z. cc (h, k)) (λ q u k z. cc (k, z)) w)
  ]

  pub Reach-IsSound : (s s' : Supervisor D) → Reach v s s' → IsSound s → IsSound s'
  Reach-IsSound s _ here w = w
  Reach-IsSound s _ (then_call m s' c b r n e) w = call-IsSound c b m s' n e (Reach-IsSound s m r w)
  Reach-IsSound s _ (then_move m s' r st) w = Move-IsSound m s' st (Reach-IsSound s m r w)
