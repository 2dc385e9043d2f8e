-- ===== src/Network/Liveness.antt =====
-- Who is reachable (`reachable` of sandpolis-instance/src/network/liveness.rs). A row's
-- `_instance_id` is its observer; times are numbers and a schedule is its bytes. A set is a list read by
-- `contains`. The loop has one unit of fuel for each row and one more.
pub mod Passes
pub mod Closure
use sandpolis.Prelude.{
  ℕ, zero, suc, Bool, true, false, not, ◌&&◌, Option, none, some, List, [], ◌∷◌, length, filter,
  any, ◌==◌, if◌then◌else◌,
}

pub record LivenessData : Type 0 where
  pub instance_id : ℕ
  pub subject : ℕ
  pub online : Bool
  pub last_seen : ℕ
  pub poll_schedule : Option (List ℕ)
  pub expected_next : Option ℕ

unfoldable pub contains : ℕ → List ℕ → Bool
contains i s = any (λ j. j == i) s

-- One pass over the rows: whether the set grew, and the set.
unfoldable pub pass : List LivenessData → List ℕ → Bool × List ℕ
unfolding contains
pass [] s = (false, s)
pass (r ∷ rs) s =
    let grown = pass rs (r.subject ∷ s) in
    let same = pass rs s in
    if contains r.instance_id s && not (contains r.subject s) then (true, grown.1) else same

unfoldable pub settle : ℕ → List LivenessData → List ℕ → Option (List ℕ)
unfolding pass
settle zero rows s = none
settle (suc n) rows s =
    let rest = settle n rows (pass rows s).1 in
    if (pass rows s).0 then rest else some (pass rows s).1

unfoldable pub online_rows : List LivenessData → List LivenessData
online_rows rows = filter (λ r. r.online) rows

pub reachable : List LivenessData → List ℕ → Option (List ℕ)
unfolding settle online_rows
reachable rows direct = settle (suc (length rows)) (online_rows rows) direct
