-- ===== src/Server/Liveness/Deadline.antt =====
-- The deadline of a polling peer's next check-in (`next_checkin`).
use sandpolis.Prelude.{
  ℕ, ◌+◌, ◌≤◌, ◌<◌, ◌≡◌, ◌≢◌, Option, none, some, List, length, arith, Option-cases, inl, inr,
}
use sandpolis.Server.Liveness.Schedule.{
  PollAnnouncement, Chrono, next_checkin, after_parse, deadline_of, or_zero, poll_grace,
  max_poll_horizon, max_schedule_len,
}

-- What the crates promise: a sum that can be represented is the sum, and the ticks of a schedule
-- after an instant are later than it.
abbrev pub IsChrono : Chrono → Type 0
IsChrono c =
    ((x y t : ℕ) → c.add x y ≡ some t → t ≡ x + y)
    × ((text : List ℕ) (after : ℕ → Option ℕ) (from next : ℕ)
        → c.schedule text ≡ some after
        → after from ≡ some next
        → from < next)

-- A deadline: beyond the grace from now, within the horizon, past the tick and the announced
-- window and the grace.
abbrev pub IsDeadline : Chrono → PollAnnouncement → ℕ → ℕ → Type 0
IsDeadline c poll from d =
    (length poll.schedule ≤ max_schedule_len)
    × (from + poll_grace < d)
    × (d ≤ from + max_poll_horizon)
    × ((after : ℕ → Option ℕ) × (next : ℕ) × (c.schedule poll.schedule ≡ some after)
        × (after from ≡ some next)
        × (d ≡ next + or_zero (c.from_std poll.timeout) + poll_grace))

deadline_of-bounds :
    (c : Chrono) (timeout from next d : ℕ)
    → IsChrono c
    → deadline_of c timeout from (some next) ≡ some (some d)
    → (d ≤ from + max_poll_horizon) × (d ≡ next + or_zero (c.from_std timeout) + poll_grace)
unfolding deadline_of
deadline_of-bounds c timeout from next d (sum, later) e =
    elim (Option-cases (c.add next (or_zero (c.from_std timeout)))) [
      | inl n ↦ absurd (ground (arith, e, n))
      | inr (w, p) ↦ elim (Option-cases (c.add w poll_grace)) [
        | inl n ↦ absurd (ground (arith, e, p, n))
        | inr (t, q) ↦ elim (Option-cases (c.add from max_poll_horizon)) [
          | inl n ↦ absurd (ground (arith, e, p, q, n))
          | inr (h, r) ↦
              let s1 = sum next (or_zero (c.from_std timeout)) w p in
              let s2 = sum w poll_grace t q in
              let s3 = sum from max_poll_horizon h r in ground (arith, e, p, q, r, s1, s2, s3)
        ]
      ]
    ]

-- The deadline that a check-in sets, if it sets one: it is the schedule's next tick with the
-- announced window and the grace, which is later than the grace from now and at most seven days
-- ahead; and it comes from a schedule that is not too long and that parses.
pub next_checkin-IsDeadline :
    (c : Chrono) (poll : PollAnnouncement) (from d : ℕ)
    → IsChrono c
    → next_checkin c poll from ≡ some (some d)
    → IsDeadline c poll from d
unfolding next_checkin after_parse deadline_of
next_checkin-IsDeadline c poll from d w e = elim (Option-cases (c.schedule poll.schedule)) [
  | inl n ↦ absurd (ground (arith, e, n))
  | inr (after, p) ↦ elim (Option-cases (after from)) [
    | inl n ↦ absurd (ground (arith, e, p, n))
    | inr (next, q) ↦
        let r : deadline_of c poll.timeout from (some next) ≡ some (some d) =
          ground (arith, e, p, q) in
        let (le, eq) = deadline_of-bounds c poll.timeout from next d w r in
        let later = w.1 poll.schedule after from next p q in
        (ground (arith, e), omega (arith, later, eq), le, (after, next, p, q, eq))
  ]
]

-- The sums of the deadline can be represented.
abbrev pub IsInRange : Chrono → PollAnnouncement → ℕ → Type 0
IsInRange c poll from =
    (c.add from max_poll_horizon ≢ none)
    × ((after : ℕ → Option ℕ) (next : ℕ)
        → c.schedule poll.schedule ≡ some after
        → after from ≡ some next
        → (w : ℕ) × (c.add next (or_zero (c.from_std poll.timeout)) ≡ some w)
          × (c.add w poll_grace ≢ none))

deadline_of-returns :
    (c : Chrono) (timeout from next w : ℕ)
    → c.add from max_poll_horizon ≢ none
    → c.add next (or_zero (c.from_std timeout)) ≡ some w
    → c.add w poll_grace ≢ none
    → deadline_of c timeout from (some next) ≢ none
unfolding deadline_of
deadline_of-returns c timeout from next w h p q e = elim (Option-cases (c.add w poll_grace)) [
  | inl n ↦ q n
  | inr (t, r) ↦ elim (Option-cases (c.add from max_poll_horizon)) [
    | inl n ↦ h n
    | inr (u, s) ↦ ground (arith, e, p, r, s)
  ]
]

pub next_checkin-returns :
    (c : Chrono) (poll : PollAnnouncement) (from : ℕ)
    → IsInRange c poll from
    → next_checkin c poll from ≢ none
unfolding next_checkin after_parse deadline_of
next_checkin-returns c poll from (h, f) e = elim (Option-cases (c.schedule poll.schedule)) [
  | inl n ↦ ground (arith, e, n)
  | inr (after, p) ↦ elim (Option-cases (after from)) [
    | inl n ↦ ground (arith, e, p, n)
    | inr (next, q) ↦
        let (w, r, s) = f after next p q in
        deadline_of-returns c poll.timeout from next w h r s (ground (arith, e, p, q))
  ]
]
