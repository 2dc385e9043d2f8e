-- ===== src/Server/Liveness/Arrivals.antt =====
-- The first loop of `reconcile`, opinion by opinion.
use sandpolis.Prelude.{
  ℕ, ◌⊎◌, ◌≡◌, ◌≢◌, refl, sym, subst, ◌∙◌, inl, inr, Bool, Option, none, some, List, [], ◌∷◌, arith,
  ◌==◌, Bool-cases, Option-cases, eqb_self, eqb_true, eqb_false,
}
use sandpolis.Prelude.Maps.{get, Above, Ascending, get-Above}
use sandpolis.Database.Scope.{WriteAuthority}
use sandpolis.Database.Resident.{Write}
use sandpolis.Database.Resident.Vec.Search.{Cache}
use sandpolis.Network.Liveness.{LivenessData}
use sandpolis.Server.Liveness.{Attached, Marked, liveness_env, mark_attached}
use sandpolis.Server.Liveness.Schedule.{PollAnnouncement, Chrono}
use sandpolis.Server.Liveness.Marks.{opinion, IsValid, CanWrite, Nears, Leads}
use sandpolis.Server.Liveness.Calls.{CanPush}
use sandpolis.Server.Liveness.Visits.{attached_view, visit}

module _ (a : WriteAuthority) (commits : List (Write LivenessData) → Bool) (fresh : ℕ → ℕ)
    (observer : ℕ) (c : Chrono) (clock : ℕ → ℕ) where
  -- The rows can be written, and the keys drawn are new and differ.
  abbrev pub CanRecord : Attached → Cache LivenessData → Type 0
  CanRecord seen g =
      CanWrite a commits observer
      × ((s : ℕ) → get s seen ≢ none → get (fresh s) g ≡ none)
      × ((s t : ℕ) → fresh s ≡ fresh t → s ≡ t)

  abbrev pub attached_want : Attached → ℕ → Option LivenessData → Option LivenessData
  attached_want seen s old = attached_view c observer s (clock s) (get s seen) old

  fresh_rest :
      (s : ℕ) (poll : Option PollAnnouncement) (rest : Attached) (t : ℕ)
      → Above s rest
      → get t rest ≢ none
      → s ≢ t
  fresh_rest s poll rest t b n e = elim (Option-cases (get t rest)) [
    | inl p ↦ n p
    | inr (q, p) ↦ omega (arith, get-Above s rest t {v = q} b p, e)
  ]

  still :
      (s : ℕ) (rest : Attached) (m h : Cache LivenessData)
      → get s rest ≡ none
      → (opinion observer s h ≡ opinion observer s m)
        ⊎ (opinion observer s h ≡ attached_want rest s (opinion observer s m))
      → opinion observer s h ≡ opinion observer s m
  unfolding attached_view
  still s rest m h absent (inl e) = e
  still s rest m h absent (inr e) = ground (arith, e, absent)

  CanRecord-rest :
      (s : ℕ) (poll : Option PollAnnouncement) (rest : Attached) (g m : Cache LivenessData)
      → Above s rest
      → ((k : ℕ) → fresh s ≢ k → get k g ≡ none → get k m ≡ none)
      → CanRecord ((s, poll) ∷ rest) g
      → CanRecord rest m
  unfolding get
  CanRecord-rest s poll rest g m b free (w, new, inj) = (
    w,
    λ t n.
        let x = fresh_rest s poll rest t b n in
        free (fresh t) (λ e. x (inj s t e)) (new t (λ e. n (ground (arith, e, x)))),
    inj,
  )

  CanRecord-first :
      (s : ℕ) (poll : Option PollAnnouncement) (rest : Attached) (g : Cache LivenessData)
      → CanRecord ((s, poll) ∷ rest) g
      → CanPush a commits fresh observer s g
  unfolding get
  CanRecord-first s poll rest g (w, new, inj) = (w, new s (λ e. ground (arith, e, eqb_self s)))

  Nears-first :
      (s : ℕ) (poll : Option PollAnnouncement) (rest : Attached) (g m h : Cache LivenessData)
      → Above s rest
      → Nears
          (CanPush a commits fresh observer s g)
          (opinion observer s g)
          (attached_view c observer s (clock s) (some poll) (opinion observer s g))
          (opinion observer s m)
      → Nears
          (CanRecord rest m)
          (opinion observer s m)
          (attached_want rest s (opinion observer s m))
          (opinion observer s h)
      → Nears
          (CanRecord ((s, poll) ∷ rest) g)
          (opinion observer s g)
          (attached_want ((s, poll) ∷ rest) s (opinion observer s g))
          (opinion observer s h)
  unfolding get
  Nears-first s poll rest g m h b (near, done) (stay, u) =
      let absent : get s rest ≡ none = elim (Option-cases (get s rest)) [
        | inl n ↦ n
        | inr (q, p) ↦ absurd (fresh_rest s poll rest s b (λ e. cc (p, e)) refl)
      ] in
      let seen : get s ((s, poll) ∷ rest) ≡ some poll = ground (arith, eqb_self s) in
      let same : opinion observer s h ≡ opinion observer s m = still s rest m h absent stay in
      rw (seen, same) (near, λ p. done (CanRecord-first s poll rest g p))

  Nears-rest :
      (s t : ℕ) (poll : Option PollAnnouncement) (rest : Attached) (g m h : Cache LivenessData)
      → s ≢ t
      → (CanRecord ((s, poll) ∷ rest) g → CanRecord rest m)
      → opinion observer t m ≡ opinion observer t g
      → Nears
          (CanRecord rest m)
          (opinion observer t m)
          (attached_want rest t (opinion observer t m))
          (opinion observer t h)
      → Nears
          (CanRecord ((s, poll) ∷ rest) g)
          (opinion observer t g)
          (attached_want ((s, poll) ∷ rest) t (opinion observer t g))
          (opinion observer t h)
  unfolding get
  Nears-rest s t poll rest g m h n can same near =
      let seen : get t ((s, poll) ∷ rest) ≡ get t rest = ground (arith, n) in
      let (either, done) =
        subst (λ o. Nears (CanRecord rest m) o (attached_want rest t o) (opinion observer t h)) same
          near in
      rw seen (either, λ p. done (can p))

  pub mark_attached-Leads :
      (seen : Attached) (g : Cache LivenessData) (out : Marked)
      → Ascending seen
      → IsValid g
      → mark_attached (liveness_env a commits) fresh observer c clock seen g ≡ some out
      → Leads observer (CanRecord seen g) (attached_want seen) g out.0
  unfolding mark_attached attached_view get
  mark_attached-Leads [] g out up w e =
      let q : g ≡ out.0 = ground (arith, e) in
      subst (λ h. Leads observer (CanRecord [] g) (λ s old. old) g h) q
        (w, λ o s n. refl, λ s. (inl refl, λ p. refl))
  mark_attached-Leads ((s, poll) ∷ rest) g out (b, up) w e =
      let (m, r, (wm, others, free, near), q, o) =
        visit a commits fresh observer c clock s poll rest g out w e in
      let (wr, foreign, rest_near) = mark_attached-Leads rest m r up wm q in
      let can = CanRecord-rest s poll rest g m b free in
      subst
        (λ h.
          Leads observer (CanRecord ((s, poll) ∷ rest) g) (attached_want ((s, poll) ∷ rest)) g h)
        (sym o)
        (
          wr,
          λ p t n. foreign p t n ∙ others p t (λ e. absurd (n e)),
          λ t. elim (Bool-cases (s == t)) [
            | inl y ↦
                subst
                  (λ t.
                    Nears (CanRecord ((s, poll) ∷ rest) g) (opinion observer t g)
                      (attached_want ((s, poll) ∷ rest) t (opinion observer t g))
                      (opinion observer t r.0))
                  (eqb_true s t y) (Nears-first s poll rest g m r.0 b near (rest_near s))
            | inr n ↦
                Nears-rest s t poll rest g m r.0 (eqb_false s t n) can
                  (others observer t (λ e. eqb_false s t n)) (rest_near t)
          ],
        )
