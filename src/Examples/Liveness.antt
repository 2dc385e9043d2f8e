-- ===== src/Examples/Liveness.antt =====
-- The liveness theorems at a server 9 that agents 5 and 6 attach to, and which also holds a row of
-- the server 8.
use sandpolis.Prelude.{
  ℕ, ◌+◌, ◌*◌, ◌/◌, ◌<◌, ◌≡◌, ◌≢◌, ◌↔◌, refl, ap, ◌∙◌, ◌⊎◌, Bool, true, false, Option, none, some,
  List, [], ◌∷◌, In, find, arith, leb, if◌then◌else◌,
}
use sandpolis.Prelude.Maps.{get, store}
use sandpolis.Database.Revision.{latest}
use sandpolis.Database.Scope.{full, permits}
use sandpolis.Database.Resident.{Row, Write}
use sandpolis.Database.Resident.Vec.Search.{Cache, search, find_row}
use sandpolis.Network.Liveness.{LivenessData}
use sandpolis.Server.Liveness.{Attached, Marked, liveness_env, reconcile, gone, same_data}
use sandpolis.Server.Liveness.Schedule.{PollAnnouncement, Chrono, next_checkin}
use sandpolis.Server.Liveness.Deadline.{IsChrono, IsDeadline, next_checkin-IsDeadline}
use sandpolis.Server.Liveness.Marks.{opinion, IsValid, Leads}
use sandpolis.Server.Liveness.Arrivals.{CanRecord}
use sandpolis.Server.Liveness.Sweep.{settled_view, reconcile_settles}
use sandpolis.Server.Liveness.Away.{Turn, turn, turns, away_until}
use sandpolis.Server.Liveness.Returns.{reconcile_returns}

abbrev minute : ℕ
minute = 60 * 1000000000

-- The last instant that can be represented, in the example.
abbrev last_instant : ℕ
last_instant = 100000 * minute

abbrev bounded_add : ℕ → ℕ → Option ℕ
bounded_add x y = if leb (x + y) last_instant then some (x + y) else none

-- Every schedule ticks every five minutes.
abbrev five_minutes : Chrono
five_minutes = record {
  schedule = λ text. some (λ t. some ((t / (5 * minute) + 1) * (5 * minute)));
  add = bounded_add;
  from_std = some;
}

abbrev apply : ℕ → Option (ℕ → Option ℕ) → Option ℕ
apply from none = none
apply from (some after) = after from

ticks_later :
    (from next : ℕ) → some ((from / (5 * minute) + 1) * (5 * minute)) ≡ some next → from < next
ticks_later from next e =
    let q : (from / (5 * minute) + 1) * (5 * minute) ≡ next = cc e in omega (arith, q)

five_minutes-IsChrono : IsChrono five_minutes
five_minutes-IsChrono = (
  λ x y t e. ground (arith, e),
  λ text after from next e f. ticks_later from next (ap (apply from) e ∙ f),
)

abbrev announcement : PollAnnouncement
announcement = record { schedule = 42 ∷ []; timeout = minute }

deadline_computed : next_checkin five_minutes announcement (7 * minute) ≡ some (some (13 * minute))
unfolding next_checkin
deadline_computed = refl

next_checkin-IsDeadline_example : IsDeadline five_minutes announcement (7 * minute) (13 * minute)
next_checkin-IsDeadline_example =
    next_checkin-IsDeadline five_minutes announcement (7 * minute) (13 * minute)
      five_minutes-IsChrono deadline_computed

-- Agent 5 is new and announces its schedule; agent 6 was online without a schedule and is gone; the
-- row of the server 8 is not the server 9's.
abbrev said : ℕ → ℕ → Bool → Option ℕ → LivenessData
said observer subject online next = record {
  instance_id = observer;
  subject = subject;
  online = online;
  last_seen = 0;
  poll_schedule = none;
  expected_next = next;
}

abbrev row : ℕ → LivenessData → ℕ × Row LivenessData
row id d = (id, record { id = id; revision = latest 1; content = d })

abbrev rows : Cache LivenessData
rows = row 10 (said 9 6 true none) ∷ row 20 (said 8 6 true none) ∷ []

rows-IsValid : IsValid rows
unfolding get
rows-IsValid = (((omega arith, tt), (tt, tt)), λ o s k j q r p p' t t'. ground arith)

abbrev seen : Attached
seen = (5, some announcement) ∷ []

abbrev clock : ℕ → ℕ
clock s = 7 * minute

abbrev fresh : ℕ → ℕ
fresh s = 100 + s

abbrev commits : List (Write LivenessData) → Bool
commits ws = true

abbrev or_nothing : Option Marked → Marked
or_nothing none = ([], [])
or_nothing (some m) = m

abbrev swept : Marked
swept =
    or_nothing
      (reconcile (liveness_env full commits) fresh 9 five_minutes clock seen (7 * minute) rows)

swept_computed :
    reconcile (liveness_env full commits) fresh 9 five_minutes clock seen (7 * minute) rows
    ≡ some swept
unfolding reconcile find permits
swept_computed = refl

reconcile_settles_example :
    Leads 9
      (CanRecord full commits fresh 9 five_minutes clock seen rows)
      (λ s. settled_view five_minutes 9 s (clock s) (7 * minute) (get s seen))
      rows
      swept.0
reconcile_settles_example =
    reconcile_settles full commits fresh 9 five_minutes clock seen (7 * minute) rows swept (tt, tt)
      rows-IsValid swept_computed

-- What the pass came to: agent 5 is online until minute 13, agent 6 offline.
swept_five :
    opinion 9 5 swept.0
    ≡ some (record {
      instance_id = 9;
      subject = 5;
      online = true;
      last_seen = 7 * minute;
      poll_schedule = some (42 ∷ []);
      expected_next = some (13 * minute);
    })
unfolding reconcile find permits search store same_data
swept_five = refl

swept_six : opinion 9 6 swept.0 ≡ some (said 9 6 false none)
unfolding reconcile find permits search store same_data
swept_six = refl

-- An announced timeout that is out of range ends the task.
too_long : next_checkin five_minutes (record { schedule = []; timeout = last_instant }) 0 ≡ none
unfolding next_checkin
too_long = refl

reconcile_returns_example :
    (reconcile (liveness_env full commits) fresh 9 five_minutes clock seen (7 * minute) rows ≢ none)
    ↔ ((s : ℕ) (poll : PollAnnouncement)
        → In (s, some poll) seen
        → next_checkin five_minutes poll (clock s) ≢ none)
reconcile_returns_example =
    reconcile_returns (liveness_env full commits) fresh 9 five_minutes clock seen (7 * minute) rows

-- Agent 6 has polled and is due in minute 13.
abbrev polled : Cache LivenessData
polled = row 10 (said 9 6 true (some (13 * minute))) ∷ []

polled-IsValid : IsValid polled
unfolding get
polled-IsValid = ((tt, tt), λ o s k j q r p p' t t'. ground arith)

abbrev at_minute : ℕ → Turn
at_minute n = record {
  authority = full;
  commits = commits;
  fresh = fresh;
  clock = λ s. n * minute;
  seen = [];
  now = n * minute;
}

abbrev or_empty : Option (Cache LivenessData) → Cache LivenessData
or_empty none = []
or_empty (some g) = g

abbrev two_turns : List Turn
two_turns = at_minute 9 ∷ at_minute 13 ∷ []

abbrev kept : Cache LivenessData
kept = or_empty (turns 9 five_minutes two_turns polled)

kept_computed : turns 9 five_minutes two_turns polled ≡ some kept
unfolding turns reconcile
kept_computed = refl

abbrev late : Marked
late = or_nothing (turn 9 five_minutes (at_minute 14) kept)

late_computed : turn 9 five_minutes (at_minute 14) kept ≡ some late
unfolding turns reconcile find permits
late_computed = refl

polled_six : opinion 9 6 polled ≡ some (said 9 6 true (some (13 * minute)))
unfolding search find find_row
polled_six = refl

away_until_example :
    (opinion 9 6 kept ≡ some (said 9 6 true (some (13 * minute))))
    × ((opinion 9 6 late.0 ≡ some (said 9 6 true (some (13 * minute))))
        ⊎ (opinion 9 6 late.0 ≡ some (gone (said 9 6 true (some (13 * minute))))))
    × (CanRecord full commits fresh 9 five_minutes (λ s. 14 * minute) [] kept
        → opinion 9 6 late.0 ≡ some (gone (said 9 6 true (some (13 * minute)))))
unfolding get
away_until_example =
    away_until 9 five_minutes 6 (13 * minute) (said 9 6 true (some (13 * minute))) two_turns
      (at_minute 14) polled kept late polled-IsValid polled_six refl refl
      (tt, refl, omega arith, (tt, refl, omega arith, tt)) kept_computed tt refl (omega arith)
      late_computed

-- Two connections of agent 17 (the last without a schedule) and one of the client 2.
abbrev connections : List (ℕ × Option PollAnnouncement)
connections = (17, some announcement) ∷ (2, none) ∷ (17, none) ∷ []
