-- ===== src/Instance/Service/Supervisor/Tokens.antt =====
-- What the tokens of the calls and of the supervising tasks are, and what leaves it so.
use sandpolis.Prelude.{
  ℕ, ◌<◌, ◌≡◌, ◌≢◌, ◌⊎◌, refl, ap, ◌∙◌, inl, inr, true, false, Option, none, some, arith, ◌==◌,
  Bool-cases, eqb_true,
}
use sandpolis.Prelude.Maps.{Table, remove}
use sandpolis.Instance.Service.Supervisor.{
  Phase, CallPhase, desired, starting, spawning, stopping, ending, Supervisor, is_cancelled,
  in_phase, moved,
}

abbrev pub token_of : CallPhase → Option ℕ
token_of (desired b) = none
token_of (starting t) = some t
token_of (spawning t) = some t
token_of (stopping t) = some t
token_of ending = none

-- A call has taken the token and is about to cancel it.
abbrev pub IsStopping : ℕ → Table CallPhase → Type 0
IsStopping t calls = (c : ℕ) × (calls c ≡ some (stopping t))

-- A call is about to spawn the token's task.
abbrev pub IsComing : ℕ → Table CallPhase → Type 0
IsComing t calls = (c : ℕ) × ((calls c ≡ some (starting t)) ⊎ (calls c ≡ some (spawning t)))

-- A token that has been drawn is cancelled, or the supervisor's, or about to be cancelled; the
-- supervisor's is not cancelled, and has a task or is about to.
pub record IsSound {D : Type 0} (s : Supervisor D) : Type 0 where
  pub tokens :
      (t : ℕ)
      → t < s.drawn
      → (is_cancelled t s ≡ true) ⊎ ((s.token ≡ some t) ⊎ IsStopping t s.calls)
  pub of_tasks : (t : ℕ) → s.tasks t ≢ none → t < s.drawn
  pub of_calls : (c t : ℕ) (p : CallPhase) → s.calls c ≡ some p → token_of p ≡ some t → t < s.drawn
  pub old : (t : ℕ) → is_cancelled t s ≡ true → t < s.drawn
  pub current :
      (t : ℕ)
      → s.token ≡ some t
      → (t < s.drawn) × (is_cancelled t s ≡ false) × ((s.tasks t ≢ none) ⊎ IsComing t s.calls)
  pub away : (c t : ℕ) → s.calls c ≡ some (stopping t) → s.token ≢ some t

-- A phase that is no longer there was another one.
pub kept :
    (c x : ℕ) (o : Option CallPhase) (calls : Table CallPhase) (q : CallPhase)
    → calls c ≢ some q
    → calls x ≡ some q
    → moved c o calls x ≡ some q
kept c x o calls q n h = elim (Bool-cases (c == x)) [
  | inl y ↦ absurd (n (ap calls (eqb_true c x y) ∙ h))
  | inr f ↦ ground (arith, h, f)
]

pub kept-Stopping :
    (c t : ℕ) (o : Option CallPhase) (calls : Table CallPhase)
    → calls c ≢ some (stopping t)
    → IsStopping t calls
    → IsStopping t (moved c o calls)
kept-Stopping c t o calls n (x, h) = (x, kept c x o calls (stopping t) n h)

pub kept-Coming :
    (c t : ℕ) (o : Option CallPhase) (calls : Table CallPhase)
    → calls c ≢ some (starting t)
    → calls c ≢ some (spawning t)
    → IsComing t calls
    → IsComing t (moved c o calls)
kept-Coming c t o calls n k (x, inl h) = (x, inl (kept c x o calls (starting t) n h))
kept-Coming c t o calls n k (x, inr h) = (x, inr (kept c x o calls (spawning t) k h))

-- What stands where the calls are moved is the new phase or an old one.
pub moved-cases :
    (c x : ℕ) (o : Option CallPhase) (calls : Table CallPhase) (q : CallPhase)
    → moved c o calls x ≡ some q
    → ((c ≡ x) × (o ≡ some q)) ⊎ (calls x ≡ some q)
moved-cases c x o calls q h = elim (Bool-cases (c == x)) [
  | inl y ↦ inl (eqb_true c x y, ground (arith, h, y))
  | inr f ↦ inr (ground (arith, h, f))
]

-- No token is named.
abbrev pub Free : Option CallPhase → Type 0
Free o = (q : CallPhase) (t : ℕ) → o ≡ some q → token_of q ≢ some t

module _ {D : Type 0} where
  pub Free-IsSound :
      (c : ℕ) (o : Option CallPhase) (d : D) (s : Supervisor D)
      → Free (s.calls c)
      → Free o
      → IsSound s
      → IsSound (record s { db = d; calls = moved c o s.calls })
  Free-IsSound c o d s f g w = record {
    tokens = λ t l. elim (w.tokens t l) [
      | inl y ↦ inl y
      | inr r ↦ elim r [
        | inl y ↦ inr (inl y)
        | inr z ↦ inr (inr (kept-Stopping c t o s.calls (λ e. f (stopping t) t e refl) z))
      ]
    ];
    of_tasks = w.of_tasks;
    of_calls = λ x t q h k. elim (moved-cases c x o s.calls q h) [
      | inl (y, e) ↦ absurd (g q t e k)
      | inr e ↦ w.of_calls x t q e k
    ];
    old = w.old;
    current = λ t h.
        let (l, n, r) = w.current t h in
        (
          l,
          n,
          elim r [
            | inl y ↦ inl y
            | inr z ↦ inr (
                kept-Coming c t o s.calls (λ e. f (starting t) t e refl)
                  (λ e. f (spawning t) t e refl) z)
          ],
        );
    away = λ x t h. elim (moved-cases c x o s.calls (stopping t) h) [
      | inl (y, e) ↦ absurd (g (stopping t) t e refl)
      | inr e ↦ w.away x t e
    ];
  }

  pub phase-IsSound :
      (t : ℕ) (p : Phase) (d : D) (s : Supervisor D)
      → s.tasks t ≢ none
      → IsSound s
      → IsSound (in_phase t p (record s { db = d }))
  phase-IsSound t p d s n w = record {
    tokens = w.tokens;
    of_tasks = λ u m. w.of_tasks u (λ e. elim (Bool-cases (t == u)) [
      | inl y ↦ n (ap s.tasks (eqb_true t u y) ∙ e)
      | inr f ↦ m (ground (arith, e, f))
    ]);
    of_calls = w.of_calls;
    old = w.old;
    current = λ u e.
        let (l, c, r) = w.current u e in
        (l, c, elim r [ inl y ↦ inl (λ z. ground (arith, y, z)) | inr z ↦ inr z ]);
    away = w.away;
  }

  pub leave-IsSound :
      (t : ℕ) (s : Supervisor D)
      → is_cancelled t s ≡ true
      → IsSound s
      → IsSound (record s { tasks = remove t s.tasks })
  leave-IsSound t s c w = record {
    tokens = w.tokens;
    of_tasks = λ u m. w.of_tasks u (λ e. m (ground (arith, e)));
    of_calls = w.of_calls;
    old = w.old;
    current = λ u e.
        let (l, a, r) = w.current u e in
        (
          l,
          a,
          elim r [
            | inr z ↦ inr z
            | inl b ↦ inl (λ z. elim (Bool-cases (t == u)) [
              | inl y ↦ cc (a, c, ap (λ x. is_cancelled x s) (eqb_true t u y))
              | inr f ↦ b (ground (arith, z, f))
            ])
          ],
        );
    away = w.away;
  }
