-- ===== src/Server/Liveness/Visits.antt =====
-- The visit of one attached instance by `reconcile`.
use sandpolis.Prelude.{
  ℕ, ◌≡◌, refl, sym, subst, inl, inr, Bool, true, false, not, ◌||◌, Option, none, some, List, ◌∷◌,
  arith, if◌then◌else◌, Bool-cases, Option-cases,
}
use sandpolis.Database.Scope.{WriteAuthority}
use sandpolis.Database.Resident.{Row, Write}
use sandpolis.Database.Resident.Vec.Search.{Cache, find_row, search, content_of}
use sandpolis.Network.Liveness.{LivenessData}
use sandpolis.Server.Liveness.{
  Attached, Marked, is_about, refreshed, first_seen, liveness_env, mark_online, expected_next,
  needs_write, is_some, mark_attached,
}
use sandpolis.Server.Liveness.Schedule.{PollAnnouncement, Chrono}
use sandpolis.Server.Liveness.Marks.{opinion, IsValid, Marks, present}
use sandpolis.Server.Liveness.Calls.{CanPush, mark_online-Marks}

-- The deadline set for a check-in at `now`.
abbrev pub flat : Option (Option ℕ) → Option ℕ
flat none = none
flat (some o) = o

-- What the server is to say of an instance that is attached with this announcement, if it is.
unfoldable pub attached_view :
    Chrono
    → ℕ
    → ℕ
    → ℕ
    → Option (Option PollAnnouncement)
    → Option LivenessData
    → Option LivenessData
unfolding first_seen refreshed
attached_view c observer s now none old = old
attached_view c observer s now (some poll) none =
    some (first_seen observer s now poll (flat (expected_next c now poll)))
attached_view c observer s now (some poll) (some d) =
    if not d.online || is_some poll
    then some (refreshed now poll (flat (expected_next c now poll)) d)
    else some d

module _ (a : WriteAuthority) (commits : List (Write LivenessData) → Bool) (fresh : ℕ → ℕ)
    (observer : ℕ) (c : Chrono) (clock : ℕ → ℕ) where
  unwritten_view :
      (s : ℕ) (poll : Option PollAnnouncement) (found : Option (ℕ × Row LivenessData))
      → needs_write found poll ≡ false
      → attached_view c observer s (clock s) (some poll) (content_of found) ≡ content_of found
  unfolding needs_write attached_view
  unwritten_view s poll none e = cc
  unwritten_view s poll (some (k, row)) e = ground (arith, e)

  written_view :
      (s : ℕ) (poll : Option PollAnnouncement) (next : Option ℕ)
      (found : Option (ℕ × Row LivenessData))
      → needs_write found poll ≡ true
      → expected_next c (clock s) poll ≡ some next
      → attached_view c observer s (clock s) (some poll) (content_of found)
        ≡ some (present observer s (clock s) poll next (content_of found))
  unfolding needs_write attached_view
  written_view s poll next none e p = ground (arith, p)
  written_view s poll next (some (k, row)) e p = ground (arith, e, p)

  -- The visit of one attached instance, which leaves `m`, and of the rest.
  pub visit :
      (s : ℕ) (poll : Option PollAnnouncement) (rest : Attached) (g : Cache LivenessData)
      (out : Marked)
      → IsValid g
      → mark_attached (liveness_env a commits) fresh observer c clock ((s, poll) ∷ rest) g
        ≡ some out
      → (m : Cache LivenessData) × (r : Marked) × Marks a commits observer
          (CanPush a commits fresh observer s g)
          (fresh s)
          s
          (attached_view c observer s (clock s) (some poll) (opinion observer s g))
          g
          m
        × (mark_attached (liveness_env a commits) fresh observer c clock rest m ≡ some r)
        × (out.0 ≡ r.0)
  unfolding mark_attached search
  visit s poll rest g out w e =
      let v = liveness_env a commits in
      let found = find_row (is_about observer s) g in
      elim (Bool-cases (needs_write found poll)) [
        | inl t ↦ elim (Option-cases (mark_online v fresh observer c s (clock s) poll g)) [
          | inl n ↦ absurd (ground (arith, e, t, n))
          | inr (m, p) ↦ elim (Option-cases (mark_attached v fresh observer c clock rest m.0)) [
            | inl n ↦ absurd (ground (arith, e, t, p, n))
            | inr (r, q) ↦
                let (next, x, marks) =
                  mark_online-Marks a commits fresh observer c s (clock s) poll g m w p in
                (
                  m.0,
                  r,
                  subst
                      (λ o.
                        Marks a commits observer (CanPush a commits fresh observer s g) (fresh s) s
                          o g m.0)
                      (sym (written_view s poll next found t x)) marks,
                  q,
                  ground (arith, e, t, p, q),
                )
          ]
        ]
        | inr f ↦ (
          g,
          out,
          (w, λ o t n. refl, λ k n p. p, (inl refl, λ p. sym (unwritten_view s poll found f))),
          ground (arith, e, f),
          refl,
        )
      ]
