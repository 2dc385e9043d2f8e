-- ===== src/Instance/Service.antt =====
-- Background services (sandpolis-instance/src/service: `ServiceData` of mod.rs, `Supervisor` and
-- `update` of runner.rs, for one instance). A text is a number, an error too. The database is an
-- `Access` as in the sync engine; `fresh` is the identifier of a row that is created. The `u64`
-- counters wrap around.
pub mod Rows
pub mod Books
pub mod Replica
pub mod Supervisor
use sandpolis.Prelude.{
  ℕ, ◌+◌, ◌%◌, ◌^◌, Bool, true, false, not, ◌&&◌, Option, none, some, List, [], ◌∷◌, Result, ok,
  err, find, ◌>>=◌, ◌==◌, if◌then◌else◌,
}
use sandpolis.Database.Revision.{latest}
use sandpolis.Database.Scope.{WriteAuthority, of_instance, permits}
use sandpolis.Database.Resident.{Row, Write, insert, upsert}
use sandpolis.Database.Sync.{Access}

pub data ServiceState : Type 0 where
  stopped idle running failed : ServiceState

pub record ServiceReport : Type 0 where
  pub scanned : ℕ
  pub updated : ℕ
  pub failed_items : ℕ

pub record ServiceData : Type 0 where
  pub instance_id : ℕ
  pub key : ℕ
  pub layer : ℕ
  pub name : ℕ
  pub description : ℕ
  pub schedule : ℕ
  pub enabled : Bool
  pub state : ServiceState
  pub runs : ℕ
  pub failures : ℕ
  pub items_updated : ℕ
  pub last_failed_items : ℕ
  pub last_run : Option ℕ
  pub last_success : Option ℕ
  pub last_error : Option ℕ

-- `ServiceData::default` for an instance and a key.
unfoldable pub default_data : ℕ → ℕ → ServiceData
default_data i k = record {
  instance_id = i;
  key = k;
  layer = 0;
  name = 0;
  description = 0;
  schedule = 0;
  enabled = false;
  state = stopped;
  runs = 0;
  failures = 0;
  items_updated = 0;
  last_failed_items = 0;
  last_run = none;
  last_success = none;
  last_error = none;
}

abbrev pub is_row_of : ℕ → ℕ → Row ServiceData → Bool
is_row_of i k row = row.content.instance_id == i && row.content.key == k

-- The mutators that the supervisor passes to `update`; the second argument says whether the row is
-- new.
pub data Change : Type 0 where
  reconciles : (layer name description schedule : ℕ) → Change
  enables : Bool → Change
  sets : ServiceState → Change
  records : (started ended : ℕ) → Result ℕ ServiceReport → (cancelled : Bool) → Change

abbrev wrap : ℕ → ℕ
wrap n = n % 2 ^ 64

recorded : ℕ → ℕ → Result ℕ ServiceReport → Bool → ServiceData → ServiceData
recorded started ended (ok report) cancelled d = record d {
  runs = wrap (d.runs + 1);
  last_run = some started;
  items_updated = wrap (d.items_updated + report.updated);
  last_failed_items = report.failed_items;
  last_success = some ended;
  last_error = none;
  state = if not cancelled then idle else d.state;
}
recorded started ended (err e) cancelled d = record d {
  runs = wrap (d.runs + 1);
  last_run = some started;
  failures = wrap (d.failures + 1);
  last_error = some e;
  state = if not cancelled then failed else d.state;
}

unfoldable pub change : Change → Bool → ServiceData → ServiceData
unfolding recorded
change (reconciles layer name description schedule) is_new d = record d {
  enabled = if is_new then true else d.enabled;
  layer = layer;
  name = name;
  description = description;
  schedule = schedule;
  state = stopped;
}
change (enables b) is_new d = record d { enabled = b }
change (sets s) is_new d = record d { state = s }
change (records started ended result cancelled) is_new d = recorded started ended result cancelled d

module _ (same : ServiceData → ServiceData → Bool) where
  -- The writes of `update` and the row it returns.
  unfoldable pub written :
      ℕ → Change → ℕ → ℕ → Option (Row ServiceData) → List (Write ServiceData) × Row ServiceData
  unfolding change default_data
  written fresh f i k none =
      let row : Row ServiceData = record {
        id = fresh;
        revision = latest 1;
        content = change f true (default_data i k);
      } in
      (insert row ∷ [], row)
  written fresh f i k (some previous) =
      let row = record previous { content = change f false previous.content } in
      (if not (same previous.content row.content) then upsert row ∷ [] else [], row)

module _ {D : Type 0} (x : Access D ServiceData) (same : ServiceData → ServiceData → Bool) where
  unfoldable pub update : WriteAuthority → ℕ → ℕ → ℕ → Change → D → Option (D × Row ServiceData)
  unfolding written
  update a fresh i k f d = if not (permits a (of_instance i)) then none else do
    rows ← x.scan d
    d' ← x.commit (written same fresh f i k (find (is_row_of i k) rows)).0 d
    some (d', (written same fresh f i k (find (is_row_of i k) rows)).1)
