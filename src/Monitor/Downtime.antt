-- ===== src/Monitor/Downtime.antt =====
-- The downtime figure of `_heartbeat_tick`, over restarts of the service and of the device.
use keekars_pi_vpn.Base.{
  ℕ, ◌-◌, ◌≡◌, ◌≢◌, ◌⊎◌, inl, inr, refl, sym, ap, ◌∙◌, Bool, true, false, Option, none, some, List,
  [], ◌∷◌, ◌==◌, ==_iff, arith, All, Bool-cases,
}
use keekars_pi_vpn.Monitor.{
  Saved, StateFile, holds, Memory, Monitor, Reading, load_state, save_state, compared_downtime,
  compare_boot, see, after_comparison, heartbeat_tick, restart, Event, tick, restarted, step,
  run_events,
}

-- The event is a restart, or a tick in the boot that began at `b`: before the clock is in step psutil's
-- boot time may be anything.
abbrev pub InBoot : ℕ → Event → Type 0
InBoot b (tick r) = (r.ntp_synced ≡ false) ⊎ (r.boot_time ≡ b)
InBoot b restarted = Unit

-- The file says that the last boot began at `b` and that the downtime before it was `d`, and the
-- process that has made its comparison has that downtime.
pub record Recorded (b : ℕ) (d : Option ℕ) (m : Monitor) : Type 0 where
  pub seen : Option ℕ
  pub file_holds :
      m.file ≡ holds (record { last_boot_time = some b; last_seen = seen; last_downtime = d })
  pub in_memory : (m.memory.boot_comparison_done ≡ false) ⊎ (m.memory.last_downtime ≡ d)

true-not-false : true ≡ false → ⊥
true-not-false h = ground arith

module _ (b : ℕ) (d : Option ℕ) where
  see-Recorded :
      (r : Reading) (mem : Memory) (s : Saved) (file : StateFile) (seen : Option ℕ)
      → s.last_boot_time ≡ some b
      → s.last_downtime ≡ d
      → mem.last_downtime ≡ d
      → file ≡ holds (record { last_boot_time = some b; last_seen = seen; last_downtime = d })
      → Recorded b d (see r mem s file)
  unfolding see save_state
  see-Recorded r mem s file seen boot down mem_down held = elim (Bool-cases r.saves) [
    | inl e ↦ record {
      seen = some r.now;
      file_holds = rw e (rw (boot, down) refl);
      in_memory = inr mem_down;
    }
    | inr e ↦ record { seen = seen; file_holds = rw e held; in_memory = inr mem_down }
  ]

  -- The comparison of a second run in the boot
  same_boot :
      (r : Reading) (s : Saved)
      → r.boot_time ≡ b
      → s.last_boot_time ≡ some b
      → s.last_downtime ≡ d
      → (compare_boot r s).last_downtime ≡ d
  unfolding compare_boot
  same_boot r s same boot down = rw boot (restored s.last_seen)
    where
      restored : (seen : Option ℕ) → compared_downtime r s (some b) seen ≡ d
      restored none = down
      restored (some t) = rw ((==_iff r.boot_time b).1 same) down

  after-Recorded :
      (r : Reading) (m : Monitor) (done : Bool) (s : Saved)
      → r.boot_time ≡ b
      → Recorded b d m
      → (done ≡ false) ⊎ (m.memory.last_downtime ≡ d)
      → s.last_boot_time ≡ some b
      → s.last_downtime ≡ d
      → Recorded b d (after_comparison r m done s)
  after-Recorded r m false s same rec mem boot down =
      let found = same_boot r s same boot down in
      see-Recorded r _ (compare_boot r s) m.file rec.seen (unfold compare_boot in ap some same)
        found found rec.file_holds
  after-Recorded r m true s same rec (inl fresh) boot down = ground arith
  after-Recorded r m true s same rec (inr known) boot down =
      see-Recorded r m.memory s m.file rec.seen boot down known rec.file_holds

  tick-Recorded :
      (r : Reading) (m : Monitor)
      → InBoot b (tick r)
      → Recorded b d m
      → Recorded b d (heartbeat_tick r m)
  unfolding heartbeat_tick load_state compare_boot see
  tick-Recorded r m (inl unsynced) rec = rw unsynced rec
  tick-Recorded r m (inr same) rec = elim (Bool-cases r.ntp_synced) [
    | inl e ↦ rw e (
        after-Recorded r m m.memory.boot_comparison_done (load_state m.file) same rec rec.in_memory
          (rw rec.file_holds refl) (rw rec.file_holds refl))
    | inr e ↦ rw e rec
  ]

  step-Recorded : (e : Event) (m : Monitor) → InBoot b e → Recorded b d m → Recorded b d (step e m)
  unfolding step restart
  step-Recorded (tick r) m same rec = tick-Recorded r m same rec
  step-Recorded restarted m same rec = record {
    seen = rec.seen;
    file_holds = rec.file_holds;
    in_memory = inl refl;
  }

  run-Recorded :
      (es : List Event) (m : Monitor)
      → All (InBoot b) es
      → Recorded b d m
      → Recorded b d (run_events es m)
  unfolding run_events
  run-Recorded [] m same rec = rec
  run-Recorded (e ∷ es) m same rec =
      run-Recorded es (step e m) same.1 (step-Recorded e m same.0 rec)

in_memory_of :
    {b : ℕ} {d : Option ℕ} {m : Monitor}
    → Recorded b d m
    → m.memory.boot_comparison_done ≡ true
    → m.memory.last_downtime ≡ d
in_memory_of rec done = elim rec.in_memory [
  | inl fresh ↦ absurd (true-not-false (sym done ∙ fresh))
  | inr known ↦ known
]

restart-Recorded :
    (b : ℕ) (d : Option ℕ) (m : Monitor) (seen : Option ℕ)
    → m.file ≡ holds (record { last_boot_time = some b; last_seen = seen; last_downtime = d })
    → Recorded b d (restart m)
unfolding restart
restart-Recorded b d m seen held = record { seen = seen; file_holds = held; in_memory = inl refl }

-- A first tick after a reboot
first_tick-Recorded :
    (r : Reading) (m : Monitor) (s : Saved) (b t : ℕ)
    → m.file ≡ holds s
    → s.last_boot_time ≡ some b
    → s.last_seen ≡ some t
    → r.ntp_synced ≡ true
    → r.saves ≡ true
    → r.boot_time ≢ b
    → Recorded r.boot_time (some (r.now - t)) (heartbeat_tick r (restart m))
unfolding heartbeat_tick restart load_state compare_boot compared_downtime see save_state
first_tick-Recorded r m s b t held boot seen synced saved other =
    let differs : (r.boot_time == b) ≡ false = ground arith in
    record {
      seen = some r.now;
      file_holds = rw (synced, held) (rw (boot, seen) (rw (differs, saved) refl));
      in_memory = inr (rw (synced, held) (rw (boot, seen) (rw differs refl)));
    }

-- Where the state file holds an earlier boot and the time when the service was last seen, and the
-- first tick of a new boot finds the clock in step and the file can be written: after any restarts
-- of the service and ticks in that boot, of which those with an untrusted clock may read any time
-- and any boot time, the downtime of a process that has made its comparison is the time of that
-- first tick less the time last seen, or 0 if that is later.
pub reboot_downtime :
    (r : Reading) (m : Monitor) (s : Saved) (b t : ℕ) (es : List Event)
    → m.file ≡ holds s
    → s.last_boot_time ≡ some b
    → s.last_seen ≡ some t
    → r.ntp_synced ≡ true
    → r.saves ≡ true
    → r.boot_time ≢ b
    → All (InBoot r.boot_time) es
    → (run_events es (heartbeat_tick r (restart m))).memory.boot_comparison_done ≡ true
    → (run_events es (heartbeat_tick r (restart m))).memory.last_downtime ≡ some (r.now - t)
reboot_downtime r m s b t es held boot seen synced saved other same done =
    in_memory_of
      (run-Recorded r.boot_time (some (r.now - t)) es (heartbeat_tick r (restart m)) same
        (first_tick-Recorded r m s b t held boot seen synced saved other))
      done

-- Where the state file holds the present boot and a downtime, and the service is restarted: after
-- any further restarts and ticks in that boot, written or not, of which those with an untrusted
-- clock may read any time and any boot time, the downtime of a process that has made its
-- comparison is the one in the file, so no restart is taken for a reboot.
pub restart_downtime :
    (m : Monitor) (b : ℕ) (seen d : Option ℕ) (es : List Event)
    → m.file ≡ holds (record { last_boot_time = some b; last_seen = seen; last_downtime = d })
    → All (InBoot b) es
    → (run_events es (restart m)).memory.boot_comparison_done ≡ true
    → (run_events es (restart m)).memory.last_downtime ≡ d
restart_downtime m b seen d es held same done =
    in_memory_of (run-Recorded b d es (restart m) same (restart-Recorded b d m seen held)) done
