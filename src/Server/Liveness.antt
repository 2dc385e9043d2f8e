-- ===== src/Server/Liveness.antt =====
-- Who is up (`Liveness` of sandpolis-server/src/liveness.rs): a server's rows about the instances
-- attached to it. Times and durations count nanoseconds. What is taken from the crates cron and
-- chrono is `Chrono`; a sum of times that chrono cannot represent ends the task: no result. Each
-- instance is marked at most once in a pass, at the time `clock` gives for it, and `fresh` gives the
-- identifier of the row pushed for it. An alert stands for the notification raised.
pub mod Schedule
pub mod Deadline
pub mod Marks
pub mod Calls
pub mod Visits
pub mod Arrivals
pub mod Departures
pub mod Sweep
pub mod Away
pub mod Returns
pub mod Connected
use sandpolis.Prelude.{
  ℕ, ◌*◌, Bool, true, false, not, ◌&&◌, ◌||◌, Option, none, some, List, [], ◌∷◌, ◌++◌, length,
  Result, ok, err, ◌>>=◌, ltb, leb, ◌==◌, if◌then◌else◌,
}
use sandpolis.Prelude.Maps.{Assoc, get, store}
use sandpolis.Instance.Id.{is_type, client}
use sandpolis.Database.Revision.{latest}
use sandpolis.Database.Scope.{WriteAuthority, of_instance}
use sandpolis.Database.Resident.{Row, Write, Error, Env}
use sandpolis.Database.Resident.Vec.{Outcome, push_inner, update_at}
use sandpolis.Database.Resident.Vec.Search.{Cache, find_row}
use sandpolis.Network.Liveness.{LivenessData}
use Schedule.{PollAnnouncement, Chrono, next_checkin}

-- `poll.and_then(|poll| next_checkin(poll, now))`
unfoldable pub expected_next : Chrono → ℕ → Option PollAnnouncement → Option (Option ℕ)
unfolding next_checkin
expected_next c now none = some none
expected_next c now (some poll) = next_checkin c poll now

abbrev pub schedule_of : Option PollAnnouncement → Option (List ℕ)
schedule_of none = none
schedule_of (some poll) = some poll.schedule

abbrev pub is_some : {A : Type 0} → Option A → Bool
is_some none = false
is_some (some a) = true

pub data Alert : Type 0 where
  joined went_offline : ℕ → Alert

-- The test of `find` of sandpolis-instance/src/network/liveness.rs.
abbrev pub is_about : ℕ → ℕ → LivenessData → Bool
is_about observer subject d = d.instance_id == observer && d.subject == subject

unfoldable pub refreshed : ℕ → Option PollAnnouncement → Option ℕ → LivenessData → LivenessData
refreshed now poll next d = record d {
  online = true;
  last_seen = now;
  poll_schedule = schedule_of poll;
  expected_next = next;
}

unfoldable pub first_seen : ℕ → ℕ → ℕ → Option PollAnnouncement → Option ℕ → LivenessData
first_seen observer subject now poll next = record {
  instance_id = observer;
  subject = subject;
  online = true;
  last_seen = now;
  poll_schedule = schedule_of poll;
  expected_next = next;
}

unfoldable pub gone : LivenessData → LivenessData
gone d = record d { online = false }

-- The alert after `?`.
alert_if_ok : Result Error (Unit {0}) → Alert → List Alert
alert_if_ok (ok u) a = a ∷ []
alert_if_ok (err e) a = []

-- The cache after a mark and the alerts raised; its error is only logged.
abbrev pub Marked : Type 0
Marked = Cache LivenessData × List Alert

abbrev prepend : List Alert → Marked → Marked
prepend xs (g, ys) = (g, xs ++ ys)

-- A row is written on the edge into online, and on a check-in.
needs_write : Option (ℕ × Row LivenessData) → Option PollAnnouncement → Bool
needs_write none poll = true
needs_write (some (key, row)) poll = not row.content.online || is_some poll

-- The deadline of a row, if it has one, is past.
abbrev pub passed : ℕ → Option ℕ → Bool
passed now none = true
passed now (some deadline) = ltb deadline now

abbrev pub Attached : Type 0
Attached = Assoc (Option PollAnnouncement)

module _ (observer : ℕ) where
  unfoldable is_overdue : Attached → ℕ → LivenessData → Bool
  unfolding get
  is_overdue attached now d =
      d.instance_id == observer
      && d.online
      && not (is_some (get d.subject attached))
      && passed now d.expected_next

  unfoldable pub overdue : Attached → ℕ → Cache LivenessData → List ℕ
  unfolding is_overdue
  overdue attached now [] = []
  overdue attached now ((key, row) ∷ g) =
      let rest = overdue attached now g in
      if is_overdue attached now row.content then row.content.subject ∷ rest else rest

module _ (v : Env LivenessData) (observer : ℕ) where
  offline_found : ℕ → Cache LivenessData → Option (ℕ × Row LivenessData) → Marked
  unfolding gone alert_if_ok update_at
  offline_found subject g none = (g, [])
  offline_found subject g (some (key, row)) =
      let o = update_at v (λ r. some (record r { content = gone r.content })) false key row g in
      (o.rows, alert_if_ok o.result (went_offline subject))

  unfoldable pub mark_offline : ℕ → Cache LivenessData → Marked
  unfolding offline_found find_row
  mark_offline subject g = offline_found subject g (find_row (is_about observer subject) g)

  -- The second loop of `reconcile`.
  unfoldable pub mark_overdue : List ℕ → Cache LivenessData → Marked
  unfolding mark_offline
  mark_overdue [] g = (g, [])
  mark_overdue (subject ∷ rest) g =
      let m = mark_offline subject g in prepend m.1 (mark_overdue rest m.0)

module _ (v : Env LivenessData) (fresh : ℕ → ℕ) (observer : ℕ) where
  mark_found :
      ℕ
      → ℕ
      → Option PollAnnouncement
      → Option ℕ
      → Cache LivenessData
      → Option (ℕ × Row LivenessData)
      → Marked
  unfolding refreshed first_seen alert_if_ok push_inner update_at
  mark_found subject now poll next g none =
      let o =
        push_inner v false
          (record {
            id = fresh subject;
            revision = latest 1;
            content = first_seen observer subject now poll next;
          })
          g in
      (o.rows, alert_if_ok o.result (joined subject))
  mark_found subject now poll next g (some (key, row)) = (
    (update_at v (λ r. some (record r { content = refreshed now poll next r.content })) false key
        row g).rows,
    [],
  )

  unfoldable pub mark_online :
      Chrono → ℕ → ℕ → Option PollAnnouncement → Cache LivenessData → Option Marked
  unfolding expected_next mark_found find_row
  mark_online c subject now poll g = do
    next ← expected_next c now poll
    some (mark_found subject now poll next g (find_row (is_about observer subject) g))

  -- The first loop of `reconcile`.
  unfoldable pub mark_attached : Chrono → (ℕ → ℕ) → Attached → Cache LivenessData → Option Marked
  unfolding mark_online needs_write find_row
  mark_attached c clock [] g = some (g, [])
  mark_attached c clock ((subject, poll) ∷ rest) g =
      let skipped = mark_attached c clock rest g in
      let written : Option Marked = (do
        m ← mark_online c subject (clock subject) poll g
        r ← mark_attached c clock rest m.0
        some (prepend m.1 r)) in
      if needs_write (find_row (is_about observer subject) g) poll then written else skipped

  unfoldable pub reconcile : Chrono → (ℕ → ℕ) → Attached → ℕ → Cache LivenessData → Option Marked
  unfolding mark_attached overdue mark_overdue
  reconcile c clock attached now g = do
    m ← mark_attached c clock attached g
    some (prepend m.1 (mark_overdue v observer (overdue observer attached now m.0) m.0))

-- `attached`: the live connections with what they announced, clients left out; for several
-- connections of one instance the last stands.
unfoldable pub attached : List (ℕ × Option PollAnnouncement) → Attached → Attached
unfolding store is_type
attached [] m = m
attached ((id, poll) ∷ cs) m =
    let kept = attached cs (store id poll m) in
    let dropped = attached cs m in if not (is_type id client) then kept else dropped

-- The derived equality of the row's own fields.
abbrev pub same_text : List ℕ → List ℕ → Bool
same_text [] [] = true
same_text [] (y ∷ ys) = false
same_text (x ∷ xs) [] = false
same_text (x ∷ xs) (y ∷ ys) = x == y && same_text xs ys

abbrev pub same_option : {A : Type 0} → (A → A → Bool) → Option A → Option A → Bool
same_option same none none = true
same_option same none (some y) = false
same_option same (some x) none = false
same_option same (some x) (some y) = same x y

abbrev same_bool : Bool → Bool → Bool
same_bool true y = y
same_bool false y = not y

unfoldable pub same_data : LivenessData → LivenessData → Bool
same_data a b =
    a.instance_id == b.instance_id
    && a.subject == b.subject
    && same_bool a.online b.online
    && a.last_seen == b.last_seen
    && same_option same_text a.poll_schedule b.poll_schedule
    && same_option (λ x y. x == y) a.expected_next b.expected_next

-- The environment of a liveness row: it belongs to its observer and is not temporal.
abbrev pub liveness_env : WriteAuthority → (List (Write LivenessData) → Bool) → Env LivenessData
liveness_env authority commits = record {
  authority = authority;
  commits = commits;
  scope = λ d. of_instance d.instance_id;
  temporal = false;
  same_content = same_data;
  random = 0;
}
