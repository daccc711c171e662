-- ===== src/Health/Store.antt =====
-- src/core/health/index.ts: `HealthStore`, over what its file holds. A run of queued operations is
-- a sequence of these functions; a failed write of the file system is not modelled.
pub mod Coherent
pub mod Written
pub mod Failures
pub mod Probe
pub mod Frame
pub mod Quarantine
use pi_multi_orchestrator.Prelude.{
  ℕ, ◌+◌, min, max, Bool, true, false, not, ◌&&◌, ◌||◌, Option, none, some, List, [], ◌∷◌, String,
  if◌then◌else◌, leb, ◌===◌, length, or_else, all, Dict, get, put, Result, ok, err,
  max_safe_integer,
}
use pi_multi_orchestrator.Routing.Failure.{
  FailureClass, FailureClassification, is_infrastructure_health_failure, Stamp, instant,
  is_iso_date,
}
use pi_multi_orchestrator.Health.Record.{
  RouteHealthRecord, CircuitState, healthy, degraded, open_circuit, probing, is_stable_id,
  validate_record, later_than, RecordFailureOptions, calculate_cooldown_until,
}

pub record HealthSnapshot : Type 0 where
  pub generation : ℕ
  pub updated_at : Stamp
  pub routes : Dict RouteHealthRecord

-- What is at the path of the file: nothing, what cannot be read, bytes that are too many or that
-- do not decode, or the object that they decode to.
pub data HealthFile : Type 0 where
  missing_file unreadable_file damaged_file : HealthFile
  decoded : HealthSnapshot → HealthFile

-- `size` is the number of bytes of the text that deterministicJson gives for a snapshot.
pub record Disk : Type 0 where
  pub file : HealthFile
  pub quarantined : List HealthFile
  pub size : HealthSnapshot → ℕ

pub data HealthError : Type 0 where
  root_required corrupt invalid_route : HealthError

pub record HealthConfig : Type 0 where
  pub failure_threshold : ℕ
  pub max_cooldown_ms : ℕ

abbrev pub clamp_int : (value least most : ℕ) → ℕ
clamp_int value least most = min most (max least value)

abbrev pub week_ms : ℕ
week_ms = 604800000

-- The constructor's limits.
unfoldable pub health_config : (failure_threshold max_cooldown_ms : Option ℕ) → HealthConfig
health_config threshold cooldown = record {
  failure_threshold = clamp_int (or_else threshold 3) 1 16;
  max_cooldown_ms = clamp_int (or_else cooldown week_ms) 0 week_ms;
}

abbrev pub max_routes : ℕ
max_routes = 2048

unfoldable pub validate_snapshot : HealthSnapshot → Bool
unfolding validate_record
validate_snapshot s =
    leb s.generation max_safe_integer
    && is_iso_date s.updated_at
    && all (λ entry. validate_record entry.1 && entry.0 === entry.1.route_id) s.routes

-- `loadForWrite`: bytes that are not a valid snapshot are copied aside, and the store starts afresh.
unfoldable pub empty_snapshot : ℕ → HealthSnapshot
empty_snapshot now = record { generation = 0; updated_at = instant now; routes = [] }

-- `quarantineBytes` writes a copy of the bytes; the file itself stays.
abbrev pub quarantine : HealthFile → Disk → Disk
quarantine file disk = record disk { quarantined = file ∷ disk.quarantined }

abbrev pub load_decoded : HealthSnapshot → Bool → Disk → ℕ → Disk × HealthSnapshot
load_decoded s true disk now = (disk, s)
load_decoded s false disk now = (quarantine (decoded s) disk, empty_snapshot now)

abbrev pub load_file : HealthFile → Disk → ℕ → Disk × HealthSnapshot
load_file (decoded s) disk now = load_decoded s (validate_snapshot s) disk now
load_file damaged_file disk now = (quarantine damaged_file disk, empty_snapshot now)
load_file _ disk now = (disk, empty_snapshot now)

unfoldable pub load_for_write : Disk → ℕ → Disk × HealthSnapshot
unfolding empty_snapshot validate_snapshot
load_for_write disk now = load_file disk.file disk now

-- `readRaw().result.snapshot`.
abbrev pub read_file : HealthFile → Option HealthSnapshot
read_file (decoded s) = if validate_snapshot s then some s else none
read_file _ = none

abbrev pub routes_of : Option HealthSnapshot → Dict RouteHealthRecord
routes_of none = []
routes_of (some s) = s.routes

unfoldable pub get_record : Disk → String → Option RouteHealthRecord
unfolding validate_snapshot
get_record disk id = get (routes_of (read_file disk.file)) id

-- `saveSnapshot`.
abbrev pub saveable : HealthSnapshot → Bool
saveable s = validate_snapshot s && leb (length s.routes) max_routes

abbrev pub max_bytes : ℕ
max_bytes = 1048576

-- The file that is written. One of too many bytes is not decoded when it is read.
abbrev pub written : Disk → HealthSnapshot → HealthFile
written disk s = if leb (disk.size s) max_bytes then decoded s else damaged_file

unfoldable pub save : {A : Type 0} → Disk → HealthSnapshot → A → Disk × Result HealthError A
unfolding validate_snapshot
save disk s result =
    if saveable s then (record disk { file = written disk s }, ok result) else (disk, err corrupt)

abbrev pub with_record : HealthSnapshot → ℕ → String → RouteHealthRecord → HealthSnapshot
with_record s now id r = record {
  generation = s.generation + 1;
  updated_at = instant now;
  routes = put s.routes id r;
}

abbrev pub failures_of : Option RouteHealthRecord → ℕ
failures_of none = 0
failures_of (some r) = r.consecutive_failures

abbrev pub last_success : Option RouteHealthRecord → Option Stamp
last_success none = none
last_success (some r) = r.last_success_at

abbrev pub last_failure : Option RouteHealthRecord → Option Stamp
last_failure none = none
last_failure (some r) = r.last_failure_at

abbrev pub last_class : Option RouteHealthRecord → Option FailureClass
last_class none = none
last_class (some r) = r.last_failure_class

abbrev pub as_stamp : Option ℕ → Option Stamp
as_stamp none = none
as_stamp (some t) = some (instant t)

abbrev pub reason_for : Option ℕ → FailureClass → Option FailureClass
reason_for none c = none
reason_for (some t) c = some c

unfoldable pub failed_record :
    HealthConfig
    → String
    → Option RouteHealthRecord
    → FailureClassification
    → ℕ
    → RecordFailureOptions
    → RouteHealthRecord
failed_record config id previous c now options =
    let failures = failures_of previous + 1 in
    let until = calculate_cooldown_until c now options config.max_cooldown_ms in
    record {
      route_id = id;
      last_success_at = last_success previous;
      last_failure_at = some (instant now);
      last_failure_class = some c.failure_class;
      consecutive_failures = failures;
      cooldown_until = as_stamp until;
      cooldown_reason = reason_for until c.failure_class;
      last_http_status = c.status;
      retry_after_at = c.retry_after_at;
      circuit = if leb config.failure_threshold failures then open_circuit else degraded;
      probe_in_flight = false;
    }

-- The record of a success; a reset differs in what it keeps as the last success.
unfoldable pub cleared_record : String → Option Stamp → Option RouteHealthRecord → RouteHealthRecord
cleared_record id success previous = record {
  route_id = id;
  last_success_at = success;
  last_failure_at = last_failure previous;
  last_failure_class = last_class previous;
  consecutive_failures = 0;
  cooldown_until = none;
  cooldown_reason = none;
  last_http_status = none;
  retry_after_at = none;
  circuit = healthy;
  probe_in_flight = false;
}

abbrev pub Outcome : Type 0 → Type 0
Outcome A = Disk × Result HealthError A

-- What an operation does with the snapshot that it loaded, once the route's name is accepted.
abbrev pub write_loaded :
    ℕ
    → String
    → (Option RouteHealthRecord → RouteHealthRecord)
    → Disk × HealthSnapshot
    → Outcome RouteHealthRecord
write_loaded now id make (disk, s) =
    let made = make (get s.routes id) in save disk (with_record s now id made) made

abbrev pub for_route : {A : Type 0} → String → Disk → Outcome A → Outcome A
for_route id disk outcome = if is_stable_id id then outcome else (disk, err invalid_route)

module _ (config : HealthConfig) where
  -- `recordFailure`; a cancelled request and a missing result are no failures of the route.
  unfoldable pub record_failure :
      Disk → String → FailureClassification → ℕ → RecordFailureOptions → Outcome RouteHealthRecord
  unfolding load_for_write save failed_record cleared_record is_infrastructure_health_failure
      get_record
  record_failure disk id c now options = for_route id disk (
      if is_infrastructure_health_failure c.failure_class
      then write_loaded now id (λ previous. failed_record config id previous c now options)
          (load_for_write disk now)
      else (disk, ok (or_else (get_record disk id) (cleared_record id none none))))

unfoldable pub record_success : Disk → String → ℕ → Outcome RouteHealthRecord
unfolding load_for_write save cleared_record
record_success disk id now =
    for_route id disk
      (write_loaded now id (cleared_record id (some (instant now))) (load_for_write disk now))

unfoldable pub reset : Disk → String → ℕ → Outcome RouteHealthRecord
unfolding load_for_write save cleared_record
reset disk id now = for_route id disk (
    write_loaded now id (λ previous. cleared_record id (last_success previous) previous)
      (load_for_write disk now))

abbrev pub probe_record : RouteHealthRecord → RouteHealthRecord
probe_record r = record r { circuit = probing; probe_in_flight = true }

abbrev pub probe_loaded :
    String → ℕ → Option RouteHealthRecord → Disk × HealthSnapshot → Outcome Bool
probe_loaded id now none (disk, s) = (disk, ok false)
probe_loaded id now (some r) (disk, s) =
    if r.probe_in_flight || later_than r.cooldown_until now
    then (disk, ok false)
    else save disk (with_record s now id (probe_record r)) true

abbrev pub probe_found : String → ℕ → Disk × HealthSnapshot → Outcome Bool
probe_found id now (disk, s) = probe_loaded id now (get s.routes id) (disk, s)

unfoldable pub begin_probe : Disk → String → ℕ → Outcome Bool
unfolding load_for_write save
begin_probe disk id now = for_route id disk (probe_found id now (load_for_write disk now))

-- `recover` copies a corrupt file aside.
abbrev pub recover_file : HealthFile → Bool → Disk → Disk
recover_file (decoded s) false disk = quarantine (decoded s) disk
recover_file damaged_file valid disk = quarantine damaged_file disk
recover_file _ _ disk = disk

abbrev pub is_valid_file : HealthFile → Bool
is_valid_file (decoded s) = validate_snapshot s
is_valid_file _ = false

unfoldable pub recover : Disk → Disk
unfolding validate_snapshot
recover disk = recover_file disk.file (is_valid_file disk.file) disk
