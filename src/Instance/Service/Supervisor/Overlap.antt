-- ===== src/Instance/Service/Supervisor/Overlap.antt =====
-- Two calls that overlap (`set_enabled`, `start` and `stop` of
-- sandpolis-instance/src/service/runner.rs).
use sandpolis.Prelude.{ℕ, ◌≡◌, ◌≢◌, refl, true, false, none, some, List, arith}
use sandpolis.Prelude.Maps.{Table}
use sandpolis.Database.Resident.{Row}
use sandpolis.Instance.Service.{ServiceData, change, enables, sets, idle}
use sandpolis.Instance.Service.Supervisor.{
  Phase, desired, starting, spawning, Supervisor, Site, moved, book, start, stop, advance,
  set_enabled, Reach, here, then_call, then_move, proceeds, IsIdle,
}
use sandpolis.Instance.Service.Supervisor.Enabled.{
  IsReliable, Holds, Desires, book-Holds, try_book-Holds, sets_keeps, enables_sets,
}

module _ {D : Type 0} (v : Site D) (n : ℕ) (cancelled : List ℕ) (tasks : Table Phase) where
  -- A service that is off, with no call under way.
  abbrev pub off : D → Supervisor D
  off d = record {
    db = d;
    token = none;
    drawn = n;
    cancelled = cancelled;
    tasks = tasks;
    calls = λ c. none;
  }

  -- The first call enables and the second disables; the second finds no token and returns, and
  -- then the first puts one.
  abbrev enabling : (D × Row ServiceData) → Supervisor D
  enabling m = record (off m.0) { calls = moved 1 (some (desired true)) (λ c. none) }

  abbrev both : (D × Row ServiceData) → (D × Row ServiceData) → Supervisor D
  both m k = record (enabling m) {
    db = k.0;
    calls = moved 2 (some (desired false)) (enabling m).calls;
  }

  abbrev left_one : (D × Row ServiceData) → (D × Row ServiceData) → Supervisor D
  left_one m k = advance v 2 (desired false) (both m k)

  abbrev pub left_on : (D × Row ServiceData) → (D × Row ServiceData) → Supervisor D
  left_on m k =
      advance v 1 (spawning n)
        (advance v 1 (starting n) (advance v 1 (desired true) (left_one m k)))

  overlapped :
      (d : D) (m k : D × Row ServiceData)
      → book v (enables true) d ≡ some m
      → book v (enables false) m.0 ≡ some k
      → Reach v (off d) (left_on m k)
  unfolding advance start stop
  overlapped d m k e f =
      let called : Reach v (off d) (both m k) =
        then_call (enabling m) (both m k) 2 false
          (then_call (off d) (enabling m) 1 true here refl
            (unfold set_enabled in ground (arith, e)))
          refl (unfold set_enabled in ground (arith, f)) in
      let one = then_move (both m k) (left_one m k) called (proceeds 2 (desired false) refl) in
      let put =
        then_move (left_one m k) (advance v 1 (desired true) (left_one m k)) one
          (proceeds 1 (desired true) refl) in
      let wrote =
        then_move (advance v 1 (desired true) (left_one m k))
          (advance v 1 (starting n) (advance v 1 (desired true) (left_one m k))) put
          (proceeds 1 (starting n) refl) in
      then_move (advance v 1 (starting n) (advance v 1 (desired true) (left_one m k))) (left_on m k)
        wrote (proceeds 1 (spawning n) refl)

  -- A call that enables a service that is off and one that disables it can overlap so that, with both
  -- returned, the stored desire is not to run, but the supervisor holds a token that is being
  -- supervised. (If both desires can be stored, the database keeps its documented behaviour, and the
  -- service has a row.)
  pub overlap_diverges :
      (d : D) (m k : D × Row ServiceData)
      → IsReliable v
      → Holds v (λ c. Unit) d
      → book v (enables true) d ≡ some m
      → book v (enables false) m.0 ≡ some k
      → (s : Supervisor D) × Reach v (off d) s
        × IsIdle v s
        × Holds v (Desires v false) s.db
        × (s.token ≡ some n)
        × (s.tasks n ≢ none)
  overlap_diverges d m k w h e f =
      let on =
        book-Holds v (λ c. Unit) (Desires v true) (enables true) d m w
          (λ c u. unfold change in refl) h e in
      let no =
        book-Holds v (Desires v true) (Desires v false) (enables false) m.0 k w
          (enables_sets v false true) on f in
      (
        left_on m k,
        overlapped d m k e f,
        unfold advance start stop in (λ c. ground arith),
        unfold advance start stop in
            try_book-Holds v (Desires v false) (sets idle) k.0 w (sets_keeps v idle false) no,
        unfold advance start stop in refl,
        unfold advance start stop in (λ z. ground (arith, z)),
      )
