-- ===== src/Instance/Service/Supervisor.antt =====
-- One supervised service (`Supervisor` of sandpolis-instance/src/service/runner.rs). A cancellation
-- token is a number, drawn in turn. Calls and supervising tasks run beside each other: no lock is held
-- from one write of a call to the next, so a call has steps between which other calls and tasks may
-- come. A task checks its token when `select` polls it, writes that its pass runs, runs it, and books it.
pub mod Tokens
pub mod Calls
pub mod Enabled
pub mod Launch
pub mod Overlap
use sandpolis.Prelude.{
  ℕ, suc, ◌+◌, ◌≡◌, ◌&&◌, Bool, true, false, Option, none, some, List, [], ◌∷◌, Result, any, ◌>>=◌,
  ◌==◌, if◌then◌else◌,
}
use sandpolis.Prelude.Maps.{Table, insert, remove}
use sandpolis.Database.Scope.{WriteAuthority}
use sandpolis.Database.Resident.{Row}
use sandpolis.Database.Sync.{Access}
use sandpolis.Instance.Service.{
  ServiceData, ServiceReport, Change, reconciles, enables, sets, records, update, stopped, idle,
  running,
}

-- Where a supervising task stands. It enters a pass when it has found its token not cancelled, and
-- books with what it has read of its token.
pub data Phase : Type 0 where
  waiting entering : Phase
  passing : ℕ → Phase
  booking : (started ended : ℕ) → Result ℕ ServiceReport → Bool → Phase

-- Where a call of `set_enabled` stands: the desire is stored; `start` has put a token, or written
-- that the service is idle; `stop` has taken a token, or cancelled it.
pub data CallPhase : Type 0 where
  desired : Bool → CallPhase
  starting spawning stopping : ℕ → CallPhase
  ending : CallPhase

pub record Supervisor (D : Type 0) : Type 0 where
  pub db : D
  pub token : Option ℕ
  pub drawn : ℕ
  pub cancelled : List ℕ
  pub tasks : Table Phase
  pub calls : Table CallPhase

abbrev pub is_cancelled : {D : Type 0} → ℕ → Supervisor D → Bool
is_cancelled t s = any (λ u. u == t) s.cancelled

abbrev pub in_phase : {D : Type 0} → ℕ → Phase → Supervisor D → Supervisor D
in_phase t p s = record s { tasks = insert t p s.tasks }

-- The calls after one of them goes on, or returns.
abbrev pub moved : ℕ → Option CallPhase → Table CallPhase → Table CallPhase
moved c o calls x = if c == x then o else calls x

-- What `update` is given.
pub record Site (D : Type 0) : Type 0 where
  pub access : Access D ServiceData
  pub same : ServiceData → ServiceData → Bool
  pub authority : WriteAuthority
  pub fresh : ℕ
  pub instance_id : ℕ
  pub key : ℕ

module _ {D : Type 0} (v : Site D) where
  unfoldable pub book : Change → D → Option (D × Row ServiceData)
  unfolding update
  book f d = update v.access v.same v.authority v.fresh v.instance_id v.key f d

  or_same : D → Option (D × Row ServiceData) → D
  or_same d none = d
  or_same d (some (d', row)) = d'

  -- A write whose failure is only logged.
  unfoldable pub try_book : Change → D → D
  unfolding book or_same
  try_book f d = or_same d (book f d)

  -- The lock is held while the token is read and put, or taken.
  start_over : ℕ → Supervisor D → Option ℕ → Supervisor D
  start_over c s (some t) = record s { calls = moved c none s.calls }
  start_over c s none = record s {
    token = some s.drawn;
    drawn = suc s.drawn;
    calls = moved c (some (starting s.drawn)) s.calls;
  }

  start : ℕ → Supervisor D → Supervisor D
  unfolding start_over
  start c s = start_over c s s.token

  stop_over : ℕ → Supervisor D → Option ℕ → Supervisor D
  stop_over c s none = record s { calls = moved c none s.calls }
  stop_over c s (some t) = record s { token = none; calls = moved c (some (stopping t)) s.calls }

  stop : ℕ → Supervisor D → Supervisor D
  unfolding stop_over
  stop c s = stop_over c s s.token

  -- The next step of a call, from where it stands.
  unfoldable pub advance : ℕ → CallPhase → Supervisor D → Supervisor D
  unfolding start stop try_book
  advance c (desired true) s = start c s
  advance c (desired false) s = stop c s
  advance c (starting t) s = record s {
    db = try_book (sets idle) s.db;
    calls = moved c (some (spawning t)) s.calls;
  }
  advance c (spawning t) s = record s {
    tasks = insert t waiting s.tasks;
    calls = moved c none s.calls;
  }
  advance c (stopping t) s = record s {
    cancelled = t ∷ s.cancelled;
    calls = moved c (some ending) s.calls;
  }
  advance c ending s = record s { db = try_book (sets stopped) s.db; calls = moved c none s.calls }

  -- The first step of a call, unless the desire cannot be stored.
  unfoldable pub set_enabled : ℕ → Bool → Supervisor D → Option (Supervisor D)
  unfolding book
  set_enabled c enabled s = do
    m ← book (enables enabled) s.db
    some (record s { db = m.0; calls = moved c (some (desired enabled)) s.calls })

  abbrev pub begun : (D × Row ServiceData) → Supervisor D
  begun m = record {
    db = m.0;
    token = none;
    drawn = 0;
    cancelled = [];
    tasks = λ t. none;
    calls = moved 0 (if m.1.content.enabled then some (desired true) else none) (λ c. none);
  }

  -- `ServiceRunner::start` for one service: `reconcile`, then a call of `start` if it is enabled.
  unfoldable pub launch : (layer name description schedule : ℕ) → D → Option (Supervisor D)
  unfolding book
  launch layer name description schedule d = do
    m ← book (reconciles layer name description schedule) d
    some (begun m)

  -- What goes on by itself: the next step of a call, or of a task (`supervise`, `pass` and `record`).
  -- A task leaves at the points where it waits.
  pub data Move (s : Supervisor D) : Supervisor D → Type 0 where
    proceeds : (c : ℕ) (p : CallPhase) → s.calls c ≡ some p → Move s (advance c p s)
    enters :
        (t : ℕ)
        → s.tasks t ≡ some waiting
        → is_cancelled t s ≡ false
        → Move s (in_phase t entering s)
    begins :
        (t now : ℕ)
        → s.tasks t ≡ some entering
        → Move s (in_phase t (passing now) (record s { db = try_book (sets running) s.db }))
    finishes :
        (t started ended : ℕ) (result : Result ℕ ServiceReport)
        → s.tasks t ≡ some (passing started)
        → Move s (in_phase t (booking started ended result (is_cancelled t s)) s)
    books :
        (t started ended : ℕ) (result : Result ℕ ServiceReport) (saw : Bool)
        → s.tasks t ≡ some (booking started ended result saw)
        → Move s (
            in_phase t waiting (record s { db = try_book (records started ended result saw) s.db }))
    leaves_waiting :
        (t : ℕ)
        → s.tasks t ≡ some waiting
        → is_cancelled t s ≡ true
        → Move s (record s { tasks = remove t s.tasks })
    leaves_pass :
        (t started : ℕ)
        → s.tasks t ≡ some (passing started)
        → is_cancelled t s ≡ true
        → Move s (record s { tasks = remove t s.tasks })

  -- Any interleaving of calls and tasks.
  pub data Reach (s : Supervisor D) : Supervisor D → Type 0 where
    here : Reach s s
    then_call :
        (m s' : Supervisor D) (c : ℕ) (b : Bool)
        → Reach s m
        → m.calls c ≡ none
        → set_enabled c b m ≡ some s'
        → Reach s s'
    then_move : (m s' : Supervisor D) → Reach s m → Move m s' → Reach s s'

  abbrev pub IsIdle : Supervisor D → Type 0
  IsIdle s = (c : ℕ) → s.calls c ≡ none

  -- Interleavings in which no call is made while another one is under way.
  pub data InTurn (s : Supervisor D) : Supervisor D → Type 0 where
    at_first : InTurn s s
    next_call :
        (m s' : Supervisor D) (c : ℕ) (b : Bool)
        → InTurn s m
        → IsIdle m
        → set_enabled c b m ≡ some s'
        → InTurn s s'
    next_move : (m s' : Supervisor D) → InTurn s m → Move m s' → InTurn s s'
