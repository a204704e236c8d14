-- ===== src/Monitor/Examples.antt =====
-- Runs of the heartbeat, and the theorems at them.
use keekars_pi_vpn.Base.{
  elem, inl, inr, ◌≡◌, ◌≢◌, ◌-◌, refl, true, false, none, some, List, [], ◌∷◌, ◌==◌, if◌then◌else◌,
  arith,
}
use keekars_pi_vpn.Monitor.{
  Saved, holds, Monitor, Reading, load_state, save_state, compared_downtime, compare_boot, see,
  heartbeat_tick, restart, Event, tick, restarted, step, run_events,
}
use keekars_pi_vpn.Monitor.Stats.{ProcessRow, Processes, top_processes}
use keekars_pi_vpn.Monitor.Listing.{Distinct, IsListing}
use keekars_pi_vpn.Monitor.Top.{IsTop, top_processes-IsTop}
use keekars_pi_vpn.Monitor.Downtime.{reboot_downtime, restart_downtime}

abbrev saved : Saved
saved = record { last_boot_time = some 1000; last_seen = some 5000; last_downtime = none }

-- Before the reboot
abbrev before : Monitor
before = record {
  memory = record { last_downtime = none; boot_comparison_done = true };
  file = holds saved;
}

abbrev first : Reading
first = record { ntp_synced = true; now = 9000; boot_time = 8000; saves = true }

-- The service is restarted; its clock is not trusted at once.
abbrev events : List Event
events =
    restarted
    ∷ tick (record first { ntp_synced = false; boot_time = 50 })
    ∷ tick (record first { now = 9600 })
    ∷ []

compared_again :
    (run_events events (heartbeat_tick first (restart before))).memory.boot_comparison_done ≡ true
unfolding run_events step heartbeat_tick restart load_state save_state compare_boot
    compared_downtime see
compared_again = refl

other_boot : first.boot_time ≢ 1000
other_boot e = ground arith

reboot_downtime_example :
    (run_events events (heartbeat_tick first (restart before))).memory.last_downtime
    ≡ some (9000 - 5000)
reboot_downtime_example =
    reboot_downtime first before saved 1000 5000 events refl refl refl refl refl other_boot
      (tt, (inl refl, (inr refl, tt))) compared_again

abbrev same_boot : List Event
same_boot =
    tick (record { ntp_synced = true; now = 6000; boot_time = 1000; saves = false })
    ∷ restarted
    ∷ tick (record { ntp_synced = true; now = 7000; boot_time = 1000; saves = true })
    ∷ []

same_boot_done : (run_events same_boot (restart before)).memory.boot_comparison_done ≡ true
unfolding run_events step heartbeat_tick restart load_state save_state compare_boot
    compared_downtime see
same_boot_done = refl

restart_downtime_example : (run_events same_boot (restart before)).memory.last_downtime ≡ none
restart_downtime_example =
    restart_downtime before 1000 (some 5000) none same_boot refl (inr refl, (tt, (inr refl, tt)))
      same_boot_done

-- One process answers, one does not, and one has ended.
abbrev processes : Processes
processes = record {
  pids = 3 ∷ 4 ∷ [];
  opens = λ pid. true;
  row = λ pid.
      if pid == 3 then some (record { pid = 3; name = []; cpu_percent = 20; mem = 7 }) else none;
}

one-Distinct : Distinct (1 ∷ [])
unfolding elem
one-Distinct = (refl, tt)

top_processes-IsTop_example :
    (rows : List ProcessRow) × IsListing processes
      (1 ∷ [])
      (top_processes processes (1 ∷ [])).1
      rows
    × IsTop (λ r. r.cpu_percent) rows (top_processes processes (1 ∷ [])).0.0
    × IsTop (λ r. r.mem) rows (top_processes processes (1 ∷ [])).0.1
top_processes-IsTop_example = top_processes-IsTop processes (1 ∷ []) one-Distinct
