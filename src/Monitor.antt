-- ===== src/Monitor.antt =====
-- app/monitor.py's downtime tracking, and the state file of app/metrics.py: what one tick of the
-- heartbeat does, and what a restart of the service forgets. Times are microseconds.
use keekars_pi_vpn.Base.{
  ℕ, ◌-◌, Bool, true, false, Option, none, some, List, [], ◌∷◌, ◌==◌, if◌then◌else◌,
}
pub mod Downtime
pub mod Stats
pub mod Listing
pub mod Top
mod Examples

-- The values of state.json; one that is not there is `none`, as `get` gives it.
pub record Saved : Type 0 where
  pub last_boot_time : Option ℕ
  pub last_seen : Option ℕ
  pub last_downtime : Option ℕ

pub data StateFile : Type 0 where
  absent unreadable : StateFile
  holds : Saved → StateFile

-- `_last_downtime_seconds` and `_boot_comparison_done`
pub record Memory : Type 0 where
  pub last_downtime : Option ℕ
  pub boot_comparison_done : Bool

pub record Monitor : Type 0 where
  pub memory : Memory
  pub file : StateFile

-- What a tick reads: the marker of the time service, the clock, psutil's boot time, and whether the
-- state file can be written.
pub record Reading : Type 0 where
  pub ntp_synced : Bool
  pub now : ℕ
  pub boot_time : ℕ
  pub saves : Bool

-- `load_state`: what is not there, or cannot be read, is empty.
unfoldable pub load_state : StateFile → Saved
load_state absent = record { last_boot_time = none; last_seen = none; last_downtime = none }
load_state unreadable = record { last_boot_time = none; last_seen = none; last_downtime = none }
load_state (holds s) = s

-- `save_state`, which leaves the file as it was where it raises
unfoldable pub save_state : Bool → Saved → StateFile → StateFile
save_state saves s file = if saves then holds s else file

-- The downtime that the comparison with the last run finds; `max(now - last_seen, 0)` after a boot.
unfoldable pub compared_downtime : Reading → Saved → Option ℕ → Option ℕ → Option ℕ
compared_downtime r s none last_seen = none
compared_downtime r s (some last_boot) none = s.last_downtime
compared_downtime r s (some last_boot) (some last_seen) =
    if r.boot_time == last_boot then s.last_downtime else some (r.now - last_seen)

-- The first tick with a clock that can be trusted
unfoldable pub compare_boot : Reading → Saved → Saved
unfolding compared_downtime
compare_boot r s = record {
  last_boot_time = some r.boot_time;
  last_seen = s.last_seen;
  last_downtime = compared_downtime r s s.last_boot_time s.last_seen;
}

-- `state["last_seen"] = now`, and the saving of it
unfoldable pub see : Reading → Memory → Saved → StateFile → Monitor
unfolding save_state
see r m s file = record {
  memory = m;
  file = save_state r.saves (record s { last_seen = some r.now }) file;
}

abbrev pub after_comparison : Reading → Monitor → Bool → Saved → Monitor
after_comparison r m true s = see r m.memory s m.file
after_comparison r m false s =
    let compared = compare_boot r s in
    see r (record { last_downtime = compared.last_downtime; boot_comparison_done = true }) compared
      m.file

-- `_heartbeat_tick`; an exception of the saving is caught by `heartbeat_loop`, and what the tick set
-- in memory before it stays set.
unfoldable pub heartbeat_tick : Reading → Monitor → Monitor
heartbeat_tick r m =
    let next = after_comparison r m m.memory.boot_comparison_done (load_state m.file) in
    if r.ntp_synced then next else m

-- What a new process starts with
unfoldable pub restart : Monitor → Monitor
restart m = record m { memory = record { last_downtime = none; boot_comparison_done = false } }

-- What happens to the service: a turn of `heartbeat_loop`, or a restart.
pub data Event : Type 0 where
  tick : Reading → Event
  restarted : Event

unfoldable pub step : Event → Monitor → Monitor
unfolding heartbeat_tick restart
step (tick r) m = heartbeat_tick r m
step restarted m = restart m

unfoldable pub run_events : List Event → Monitor → Monitor
unfolding step
run_events [] m = m
run_events (e ∷ es) m = run_events es (step e m)
