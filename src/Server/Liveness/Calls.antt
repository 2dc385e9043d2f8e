-- ===== src/Server/Liveness/Calls.antt =====
-- What `mark_online` and `mark_offline` leave.
use sandpolis.Prelude.{
  ℕ, ◌≡◌, ◌≢◌, refl, ap, subst, ◌∙◌, inl, inr, Bool, true, false, Option, none, some, List, arith,
  Option-cases, eqb_self, eqb_true,
}
use sandpolis.Prelude.Maps.{get, get-store}
use sandpolis.Database.Scope.{WriteAuthority}
use sandpolis.Database.Revision.{latest}
use sandpolis.Database.Resident.{Row, Write}
use sandpolis.Database.Resident.Vec.{push_inner}
use sandpolis.Database.Resident.Vec.Search.{Cache, find_row, content_of, search}
use sandpolis.Database.Resident.Vec.Leaves.{push_inner-Leaves, push_inner-ok, push-cases}
use sandpolis.Network.Liveness.{LivenessData}
use sandpolis.Server.Liveness.{
  is_about, refreshed, first_seen, gone, liveness_env, Marked, mark_found, mark_online,
  offline_found, mark_offline, expected_next,
}
use sandpolis.Server.Liveness.Schedule.{PollAnnouncement, Chrono}
use sandpolis.Server.Liveness.Marks.{
  opinion, IsValid, CanWrite, Marks, present, Leaves-Marks, IsOpen-env, update-Marks,
}

about_self :
    (observer subject now : ℕ) (poll : Option PollAnnouncement) (next : Option ℕ)
    → is_about observer subject (first_seen observer subject now poll next) ≡ true
unfolding first_seen
about_self observer subject now poll next = ground (arith, eqb_self observer, eqb_self subject)

about_refreshed :
    (observer subject now : ℕ) (poll : Option PollAnnouncement) (next : Option ℕ) (d : LivenessData)
    → is_about observer subject (refreshed now poll next d) ≡ is_about observer subject d
unfolding refreshed
about_refreshed observer subject now poll next d = refl

about_gone :
    (observer subject : ℕ) (d : LivenessData)
    → is_about observer subject (gone d) ≡ is_about observer subject d
unfolding gone
about_gone observer subject d = refl

abbrev pub gone_if : Option LivenessData → Option LivenessData
gone_if none = none
gone_if (some d) = some (gone d)

module _ (a : WriteAuthority) (commits : List (Write LivenessData) → Bool) (fresh : ℕ → ℕ)
    (observer : ℕ) where
  push-get :
      (row : Row LivenessData) (g : Cache LivenessData) (j : ℕ)
      → row.id ≢ j
      → get j g ≡ none
      → get j (push_inner (liveness_env a commits) false row g).rows ≡ none
  push-get row g j x n = elim (push-cases (liveness_env a commits) (λ d. true) g false row) [
    | inl (e, f) ↦ ap (get j) e ∙ n
    | inr (e, f) ↦ ap (get j) e ∙ ground (arith, get-store row.id j row g, eqb_true row.id j)
  ]

  -- The rows can be written, and the key drawn for `subject` is not in use.
  abbrev pub CanPush : ℕ → Cache LivenessData → Type 0
  CanPush subject g = CanWrite a commits observer × (get (fresh subject) g ≡ none)

  -- What is known under less is known under more.
  Marks-weaken :
      (subject : ℕ) (want : Option LivenessData) (g h : Cache LivenessData)
      → Marks a commits observer (CanWrite a commits observer) (fresh subject) subject want g h
      → Marks a commits observer (CanPush subject g) (fresh subject) subject want g h
  Marks-weaken subject want g h (w, others, free, (near, done)) =
      (w, others, free, (near, λ c. done c.0))

  mark_found-Marks :
      (subject now : ℕ) (poll : Option PollAnnouncement) (next : Option ℕ) (g : Cache LivenessData)
      (found : Option (ℕ × Row LivenessData))
      → IsValid g
      → find_row (is_about observer subject) g ≡ found
      → Marks a commits observer
          (CanPush subject g)
          (fresh subject)
          subject
          (some (present observer subject now poll next (content_of found)))
          g
          (mark_found (liveness_env a commits) fresh observer subject now poll next g found).0
  unfolding mark_found
  mark_found-Marks subject now poll next g none w e =
      let row : Row LivenessData = record {
        id = fresh subject;
        revision = latest 1;
        content = first_seen observer subject now poll next;
      } in
      let v = liveness_env a commits in
      let is : LivenessData → Bool = is_about observer subject in
      let about : is row.content ≡ true = about_self observer subject now poll next in
      (Leaves-Marks a commits observer (CanPush subject g) (fresh subject) subject row.content g
        (push_inner v false row g) w (push-get row g)
        (push_inner-Leaves v is g false row w.0 (w.1 observer subject) e about)
        λ c. push_inner-ok v is g false row (IsOpen-env a commits observer subject c.0) about c.1)
  mark_found-Marks subject now poll next g (some (key, row)) w e =
      let t =
        update-Marks a commits observer (refreshed now poll next) subject key row g
          (about_refreshed observer subject now poll next) w e (fresh subject) in
      (Marks-weaken subject _ g _ t)

  -- What `mark_online` does when it returns.
  pub mark_online-Marks :
      (c : Chrono) (subject now : ℕ) (poll : Option PollAnnouncement) (g : Cache LivenessData)
      (m : Marked)
      → IsValid g
      → mark_online (liveness_env a commits) fresh observer c subject now poll g ≡ some m
      → (next : Option ℕ) × (expected_next c now poll ≡ some next)
        × Marks a commits observer
            (CanPush subject g)
            (fresh subject)
            subject
            (some (present observer subject now poll next (opinion observer subject g)))
            g
            m.0
  unfolding mark_online search
  mark_online-Marks c subject now poll g m w e = elim (Option-cases (expected_next c now poll)) [
    | inl n ↦ absurd (cc (n, e))
    | inr (next, p) ↦
        let found = find_row (is_about observer subject) g in
        let same : mark_found (liveness_env a commits) fresh observer subject now poll next g found
            ≡ m =
          ground (arith, e, p) in
        let marks = mark_found-Marks subject now poll next g found w refl in
        (
          next,
          p,
          subst
              (λ x.
                Marks a commits observer (CanPush subject g) (fresh subject) subject
                  (some (present observer subject now poll next (content_of found))) g x.0)
              same marks,
        )
  ]

  offline_found-Marks :
      (subject : ℕ) (g : Cache LivenessData) (found : Option (ℕ × Row LivenessData))
      → IsValid g
      → find_row (is_about observer subject) g ≡ found
      → Marks a commits observer
          (CanWrite a commits observer)
          (fresh subject)
          subject
          (gone_if (content_of found))
          g
          (offline_found (liveness_env a commits) observer subject g found).0
  unfolding offline_found search
  offline_found-Marks subject g none w e =
      (w, λ o s n. refl, λ k n p. p, (inl refl, λ c. ap content_of e))
  offline_found-Marks subject g (some (key, row)) w e =
      update-Marks a commits observer gone subject key row g (about_gone observer subject) w e
        (fresh subject)

  pub mark_offline-Marks :
      (subject : ℕ) (g : Cache LivenessData)
      → IsValid g
      → Marks a commits observer
          (CanWrite a commits observer)
          (fresh subject)
          subject
          (gone_if (opinion observer subject g))
          g
          (mark_offline (liveness_env a commits) observer subject g).0
  unfolding mark_offline search
  mark_offline-Marks subject g w =
      offline_found-Marks subject g (find_row (is_about observer subject) g) w refl
