-- ===== src/Server/Liveness/Schedule.antt =====
-- What a polling peer announces, and the deadline of its next check-in (`PollAnnouncement` of
-- sandpolis-instance/src/network/liveness.rs, `next_checkin` of sandpolis-server/src/liveness.rs).
use sandpolis.Prelude.{ℕ, ◌*◌, Option, none, some, List, length, ◌>>=◌, ltb, leb, if◌then◌else◌}

pub record PollAnnouncement : Type 0 where
  pub schedule : List ℕ
  pub timeout : ℕ

-- `schedule` is `Schedule::from_str` with `after` and `next`; `add` is `DateTime + TimeDelta`;
-- `from_std` is `TimeDelta::from_std`.
pub record Chrono : Type 0 where
  pub schedule : List ℕ → Option (ℕ → Option ℕ)
  pub add : ℕ → ℕ → Option ℕ
  pub from_std : ℕ → Option ℕ

abbrev second : ℕ
second = 1000000000

abbrev pub poll_grace : ℕ
poll_grace = 2 * 60 * second

abbrev pub max_poll_horizon : ℕ
max_poll_horizon = 7 * 86400 * second

abbrev pub max_schedule_len : ℕ
max_schedule_len = 128

abbrev pub or_zero : Option ℕ → ℕ
or_zero none = 0
or_zero (some n) = n

-- `next_checkin` from the next tick on.
unfoldable pub deadline_of : Chrono → ℕ → ℕ → Option ℕ → Option (Option ℕ)
deadline_of c timeout from none = some none
deadline_of c timeout from (some next) = do
  window ← c.add next (or_zero (c.from_std timeout))
  deadline ← c.add window poll_grace
  horizon ← c.add from max_poll_horizon
  some (if leb deadline horizon then some deadline else none)

unfoldable pub after_parse : Chrono → ℕ → ℕ → Option (ℕ → Option ℕ) → Option (Option ℕ)
unfolding deadline_of
after_parse c timeout from none = some none
after_parse c timeout from (some after) = deadline_of c timeout from (after from)

unfoldable pub next_checkin : Chrono → PollAnnouncement → ℕ → Option (Option ℕ)
unfolding after_parse
next_checkin c poll from =
    if ltb max_schedule_len (length poll.schedule)
    then some none
    else after_parse c poll.timeout from (c.schedule poll.schedule)
