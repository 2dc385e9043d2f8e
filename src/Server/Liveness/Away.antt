-- ===== src/Server/Liveness/Away.antt =====
-- A polling instance between its check-ins, over the passes of `maintain_liveness`.
use sandpolis.Prelude.{
  ℕ, ◌≤◌, ◌<◌, ◌≡◌, ◌∙◌, ◌⊎◌, inl, inr, Bool, true, Option, none, some, List, [], ◌∷◌, arith,
  Option-cases, ◌>>=◌,
}
use sandpolis.Prelude.Maps.{get, Ascending}
use sandpolis.Database.Scope.{WriteAuthority}
use sandpolis.Database.Resident.{Write}
use sandpolis.Database.Resident.Vec.Search.{Cache}
use sandpolis.Network.Liveness.{LivenessData}
use sandpolis.Server.Liveness.{Attached, Marked, liveness_env, gone, reconcile}
use sandpolis.Server.Liveness.Schedule.{Chrono}
use sandpolis.Server.Liveness.Marks.{opinion, IsValid}
use sandpolis.Server.Liveness.Arrivals.{CanRecord}
use sandpolis.Server.Liveness.Departures.{absent_view}
use sandpolis.Server.Liveness.Sweep.{settled_view, reconcile_settles}

-- One turn of the loop: what is attached, the time, and what becomes of its writes.
pub record Turn : Type 0 where
  pub authority : WriteAuthority
  pub commits : List (Write LivenessData) → Bool
  pub fresh : ℕ → ℕ
  pub clock : ℕ → ℕ
  pub seen : Attached
  pub now : ℕ

module _ (observer : ℕ) (c : Chrono) where
  abbrev pub turn : Turn → Cache LivenessData → Option Marked
  turn t g =
      reconcile (liveness_env t.authority t.commits) t.fresh observer c t.clock t.seen t.now g

  -- The loop of `maintain_liveness`.
  unfoldable pub turns : List Turn → Cache LivenessData → Option (Cache LivenessData)
  turns [] g = some g
  turns (t ∷ ts) g = do m ← turn t g; turns ts m.0

  -- At every turn `s` is away and its deadline is not past.
  abbrev pub IsAway : ℕ → ℕ → List Turn → Type 0
  IsAway s deadline [] = Unit
  IsAway s deadline (t ∷ ts) =
      Ascending t.seen × (get s t.seen ≡ none) × (t.now ≤ deadline) × IsAway s deadline ts

  turn_away :
      (s : ℕ) (t : Turn) (g : Cache LivenessData) (out : Marked) (d : LivenessData)
      → Ascending t.seen
      → get s t.seen ≡ none
      → IsValid g
      → opinion observer s g ≡ some d
      → turn t g ≡ some out
      → IsValid out.0
        × ((opinion observer s out.0 ≡ some d)
            ⊎ (opinion observer s out.0 ≡ absent_view t.now (some d)))
        × (CanRecord t.authority t.commits t.fresh observer c t.clock t.seen g
            → opinion observer s out.0 ≡ absent_view t.now (some d))
  unfolding settled_view
  turn_away s t g out d up away w o e =
      let (wh, foreign, near) =
        reconcile_settles t.authority t.commits t.fresh observer c t.clock t.seen t.now g out up w
          e in
      let (either, done) = near s in
      (wh, ground (arith, either, away, o), λ p. ground (arith, done p, away, o))

  early_view :
      (now deadline : ℕ) (d : LivenessData)
      → d.expected_next ≡ some deadline
      → now ≤ deadline
      → absent_view now (some d) ≡ some d
  unfolding absent_view
  early_view now deadline d e l = ground (arith, e)

  late_view :
      (now deadline : ℕ) (d : LivenessData)
      → d.online ≡ true
      → d.expected_next ≡ some deadline
      → deadline < now
      → absent_view now (some d) ≡ some (gone d)
  unfolding absent_view gone
  late_view now deadline d u e l = ground (arith, e)

  away_kept :
      (s deadline : ℕ) (d : LivenessData) (ts : List Turn) (g out : Cache LivenessData)
      → IsValid g
      → opinion observer s g ≡ some d
      → d.expected_next ≡ some deadline
      → IsAway s deadline ts
      → turns ts g ≡ some out
      → IsValid out × (opinion observer s out ≡ some d)
  unfolding turns
  away_kept s deadline d [] g out w o e a r = ground (arith, r)
  away_kept s deadline d (t ∷ ts) g out w o e (up, away, l, a) r = elim (Option-cases (turn t g)) [
    | inl n ↦ absurd (ground (arith, r, n))
    | inr (m, p) ↦
        let (wm, either, done) = turn_away s t g m d up away w o p in
        let still : opinion observer s m.0 ≡ some d =
          ground (arith, either, early_view t.now deadline d e l) in
        away_kept s deadline d ts m.0 out wm still e a (ground (arith, r, p))
  ]

  -- A polling instance that is away is left online by every pass until its deadline, whatever
  -- becomes of the writes of these passes; and the first pass after the deadline, if it returns,
  -- says that it is offline when the server's rows can be written, and otherwise says so or leaves
  -- it online.
  pub away_until :
      (s deadline : ℕ) (d : LivenessData) (ts : List Turn) (t : Turn) (g h : Cache LivenessData)
      (out : Marked)
      → IsValid g
      → opinion observer s g ≡ some d
      → d.online ≡ true
      → d.expected_next ≡ some deadline
      → IsAway s deadline ts
      → turns ts g ≡ some h
      → Ascending t.seen
      → get s t.seen ≡ none
      → deadline < t.now
      → turn t h ≡ some out
      → (opinion observer s h ≡ some d)
        × ((opinion observer s out.0 ≡ some d) ⊎ (opinion observer s out.0 ≡ some (gone d)))
        × (CanRecord t.authority t.commits t.fresh observer c t.clock t.seen h
            → opinion observer s out.0 ≡ some (gone d))
  away_until s deadline d ts t g h out w o u e a r up away late p =
      let (wh, still) = away_kept s deadline d ts g h w o e a r in
      let (wo, either, done) = turn_away s t h out d up away wh still p in
      let q = late_view t.now deadline d u e late in
      (still, ground (arith, either, q), λ can. done can ∙ q)
