-- ===== src/Server/Liveness/Sweep.antt =====
-- A whole pass of `reconcile`, opinion by opinion.
use sandpolis.Prelude.{
  ℕ, ◌≡◌, subst, ◌∙◌, inl, inr, Bool, Option, none, some, List, arith, Option-cases, if◌then◌else◌,
}
use sandpolis.Prelude.Maps.{get, Ascending}
use sandpolis.Database.Scope.{WriteAuthority}
use sandpolis.Database.Resident.{Write}
use sandpolis.Database.Resident.Vec.Search.{Cache}
use sandpolis.Network.Liveness.{LivenessData}
use sandpolis.Server.Liveness.{
  Attached, Marked, liveness_env, is_some, mark_attached, mark_overdue, overdue, reconcile,
}
use sandpolis.Server.Liveness.Schedule.{PollAnnouncement, Chrono}
use sandpolis.Server.Liveness.Marks.{opinion, IsValid, Nears, Leads}
use sandpolis.Server.Liveness.Arrivals.{CanRecord, mark_attached-Leads}
use sandpolis.Server.Liveness.Visits.{attached_view}
use sandpolis.Server.Liveness.Departures.{absent_view, departures-Leads}

-- What the server is to say of `s`, given its announcement if it is attached.
unfoldable pub settled_view :
    Chrono
    → ℕ
    → ℕ
    → ℕ
    → ℕ
    → Option (Option PollAnnouncement)
    → Option LivenessData
    → Option LivenessData
unfolding attached_view absent_view
settled_view c observer s seen_at now none old = absent_view now old
settled_view c observer s seen_at now (some poll) old =
    attached_view c observer s seen_at (some poll) old

Nears-settled :
    (P : Type 0) (c : Chrono) (observer s seen_at now : ℕ) (at : Option (Option PollAnnouncement))
    (old mid new : Option LivenessData)
    → Nears P old (attached_view c observer s seen_at at old) mid
    → Nears P mid (if is_some at then mid else absent_view now mid) new
    → Nears P old (settled_view c observer s seen_at now at old) new
unfolding settled_view attached_view
Nears-settled P c observer s seen_at now none old mid new (e, d) (f, q) =
    (ground (arith, e, f), λ p. ground (arith, d p, q p))
Nears-settled P c observer s seen_at now (some poll) old mid new (e, d) (f, q) =
    (ground (arith, e, f), λ p. ground (arith, d p, q p))

-- A pass over valid rows that returns leaves valid rows, keeps what other observers say, and of
-- each instance leaves what the server said before or what it is to say: that one that is attached
-- is online (its row rewritten when it was offline or has announced a schedule, and otherwise left
-- alone), that one that is not attached is offline when it has no deadline or its deadline is past,
-- and otherwise what it was. When its rows can be written and the identifiers drawn are new and
-- differ, it leaves the latter.
pub reconcile_settles :
    (a : WriteAuthority) (commits : List (Write LivenessData) → Bool) (fresh : ℕ → ℕ) (observer : ℕ)
    (c : Chrono) (clock : ℕ → ℕ) (seen : Attached) (now : ℕ) (g : Cache LivenessData) (out : Marked)
    → Ascending seen
    → IsValid g
    → reconcile (liveness_env a commits) fresh observer c clock seen now g ≡ some out
    → Leads observer
        (CanRecord a commits fresh observer c clock seen g)
        (λ s. settled_view c observer s (clock s) now (get s seen))
        g
        out.0
unfolding reconcile
reconcile_settles a commits fresh observer c clock seen now g out up w e =
    elim (Option-cases (mark_attached (liveness_env a commits) fresh observer c clock seen g)) [
      | inl n ↦ absurd (ground (arith, e, n))
      | inr (m, p) ↦
          let (wm, others, near) =
            mark_attached-Leads a commits fresh observer c clock seen g m up w p in
          let v = liveness_env a commits in
          let h = (mark_overdue v observer (overdue observer seen now m.0) m.0).0 in
          let (wh, foreign, rest) = departures-Leads a commits observer seen now m.0 wm in
          let q : h ≡ out.0 = ground (arith, e, p) in
          subst
            (λ h.
              Leads observer (CanRecord a commits fresh observer c clock seen g)
                (λ s. settled_view c observer s (clock s) now (get s seen)) g h)
            q
            (
              wh,
              λ o s n. foreign o s n ∙ others o s n,
              λ s.
                  Nears-settled (CanRecord a commits fresh observer c clock seen g) c observer s
                    (clock s) now (get s seen) (opinion observer s g) (opinion observer s m.0)
                    (opinion observer s h) (near s) ((rest s).0, λ p. (rest s).1 p.0),
            )
    ]
