-- ===== src/Server/Liveness/Returns.antt =====
-- When a pass of `reconcile` returns.
use sandpolis.Prelude.{
  ℕ, ◌≡◌, ◌≢◌, ◌↔◌, refl, sym, subst, inl, inr, true, Option, none, some, [], ◌∷◌, In, arith,
  Option-cases, Bool-cases,
}
use sandpolis.Database.Resident.{Row, Env}
use sandpolis.Database.Resident.Vec.Search.{Cache, find_row}
use sandpolis.Network.Liveness.{LivenessData}
use sandpolis.Server.Liveness.{
  Attached, is_about, expected_next, needs_write, mark_online, mark_attached, reconcile,
}
use sandpolis.Server.Liveness.Schedule.{PollAnnouncement, Chrono, next_checkin}

module _ (v : Env LivenessData) (fresh : ℕ → ℕ) (observer : ℕ) (c : Chrono) (clock : ℕ → ℕ) where
  online_returns :
      (s : ℕ) (poll : Option PollAnnouncement) (g : Cache LivenessData)
      → expected_next c (clock s) poll ≢ none
      → mark_online v fresh observer c s (clock s) poll g ≢ none
  unfolding mark_online
  online_returns s poll g n e = elim (Option-cases (expected_next c (clock s) poll)) [
    | inl p ↦ n p
    | inr (next, p) ↦ ground (arith, e, p)
  ]

  none_expected : (s : ℕ) → expected_next c (clock s) none ≢ none
  unfolding expected_next
  none_expected s e = cc

  some_expected :
      (s : ℕ) (poll : PollAnnouncement)
      → expected_next c (clock s) (some poll) ≡ none
      → next_checkin c poll (clock s) ≡ none
  unfolding expected_next
  some_expected s poll e = e

  attached_returns :
      (seen : Attached) (g : Cache LivenessData)
      → ((s : ℕ) (poll : Option PollAnnouncement)
          → In (s, poll) seen
          → expected_next c (clock s) poll ≢ none)
      → mark_attached v fresh observer c clock seen g ≢ none
  unfolding mark_attached
  attached_returns [] g h e = cc
  attached_returns ((s, poll) ∷ rest) g h e =
      let later : (m : Cache LivenessData) → mark_attached v fresh observer c clock rest m ≢ none =
        λ m. attached_returns rest m (λ t p i. h t p (inr i)) in
      elim (Bool-cases (needs_write (find_row (is_about observer s) g) poll)) [
        | inl t ↦ elim (Option-cases (mark_online v fresh observer c s (clock s) poll g)) [
          | inl n ↦ online_returns s poll g (h s poll (inl refl)) n
          | inr (m, p) ↦ elim (Option-cases (mark_attached v fresh observer c clock rest m.0)) [
            | inl n ↦ later m.0 n
            | inr (r, q) ↦ ground (arith, e, t, p, q)
          ]
        ]
        | inr f ↦ later g (ground (arith, e, f))
      ]

  announced_writes :
      (found : Option (ℕ × Row LivenessData)) (poll : PollAnnouncement)
      → needs_write found (some poll) ≡ true
  unfolding needs_write
  announced_writes none poll = refl
  announced_writes (some (k, r)) poll = ground arith

  online_ends :
      (s : ℕ) (poll : PollAnnouncement) (g : Cache LivenessData)
      → next_checkin c poll (clock s) ≡ none
      → mark_online v fresh observer c s (clock s) (some poll) g ≡ none
  unfolding mark_online expected_next
  online_ends s poll g e = ground (arith, e)

  visit_ends :
      (s : ℕ) (poll : Option PollAnnouncement) (rest : Attached) (g : Cache LivenessData)
      → ((m : Cache LivenessData) → mark_attached v fresh observer c clock rest m ≡ none)
      → mark_attached v fresh observer c clock ((s, poll) ∷ rest) g ≡ none
  unfolding mark_attached
  visit_ends s poll rest g later =
      elim (Bool-cases (needs_write (find_row (is_about observer s) g) poll)) [
        | inl t ↦ elim (Option-cases (mark_online v fresh observer c s (clock s) poll g)) [
          | inl n ↦ ground (arith, t, n)
          | inr (m, p) ↦ ground (arith, t, p, later m.0)
        ]
        | inr f ↦ ground (arith, f, later g)
      ]

  attached_ends :
      (seen : Attached) (g : Cache LivenessData) (s : ℕ) (poll : PollAnnouncement)
      → In (s, some poll) seen
      → next_checkin c poll (clock s) ≡ none
      → mark_attached v fresh observer c clock seen g ≡ none
  unfolding mark_attached
  attached_ends [] g s poll i e = absurd i
  attached_ends ((t, p) ∷ rest) g s poll (inl q) e =
      let w = announced_writes (find_row (is_about observer s) g) poll in
      let n = online_ends s poll g e in
      subst
        (λ (x : ℕ × Option PollAnnouncement).
          mark_attached v fresh observer c clock (x ∷ rest) g ≡ none)
        (sym q) (ground (arith, w, n))
  attached_ends ((t, p) ∷ rest) g s poll (inr i) e =
      visit_ends t p rest g (λ m. attached_ends rest m s poll i e)

  -- A pass returns exactly when the deadline of every announcement can be computed, whatever the
  -- rows and the writes: one announced timeout that takes a sum of times out of chrono's range
  -- ends the task.
  pub reconcile_returns :
      (seen : Attached) (now : ℕ) (g : Cache LivenessData)
      → (reconcile v fresh observer c clock seen now g ≢ none) ↔ (
          (s : ℕ) (poll : PollAnnouncement)
          → In (s, some poll) seen
          → next_checkin c poll (clock s) ≢ none)
  unfolding reconcile
  reconcile_returns seen now g = (
    λ r s poll i e. r (ground (arith, attached_ends seen g s poll i e)),
    λ h e. elim (Option-cases (mark_attached v fresh observer c clock seen g)) [
      | inl n ↦ attached_returns seen g (expected_returns seen h) n
      | inr (m, p) ↦ ground (arith, e, p)
    ],
  )
    where
      expected_returns :
          (seen : Attached)
          → ((s : ℕ) (poll : PollAnnouncement)
              → In (s, some poll) seen
              → next_checkin c poll (clock s) ≢ none)
          → (s : ℕ) (poll : Option PollAnnouncement) → In (s, poll) seen
          → expected_next c (clock s) poll ≢ none
      expected_returns seen h s none i e = none_expected s e
      expected_returns seen h s (some poll) i e = h s poll i (some_expected s poll e)
