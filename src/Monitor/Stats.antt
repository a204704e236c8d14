-- ===== src/Monitor/Stats.antt =====
-- app/monitor.py: the list of processes, and the alert of a rollback.
use keekars_pi_vpn.Base.{
  ℕ, zero, suc, Bool, Option, none, some, List, [], ◌∷◌, ◌++◌, ltb, if◌then◌else◌, filter, elem,
}
use keekars_pi_vpn.Base.Text.{Text}
use keekars_pi_vpn.Base.Dict.{Dict}
use keekars_pi_vpn.Metrics.NetRates.{Rate, Sampled, NetRates, Snapshot, sample}
use keekars_pi_vpn.Monitor.{Memory}

-- A process that answers: a float is the number of its millionths.
pub record ProcessRow : Type 0 where
  pub pid : ℕ
  pub name : Text
  pub cpu_percent : ℕ
  pub mem : ℕ

-- What psutil says of the processes: their pids, which of them can be opened, and what each tells of
-- itself; an exception is `none`.
pub record Processes : Type 0 where
  pub pids : List ℕ
  pub opens : ℕ → Bool
  pub row : ℕ → Option ProcessRow

-- `_procs`, by the pids: the ones that have ended go.
unfoldable pub drop_ended : List ℕ → List ℕ → List ℕ
drop_ended live procs = filter (λ pid. elem pid live) procs

-- A process that cannot be opened is left out.
abbrev pub open_one : Processes → ℕ → List ℕ → List ℕ
open_one p pid procs =
    if elem pid procs then procs else if p.opens pid then procs ++ pid ∷ [] else procs

unfoldable pub open_new : Processes → List ℕ → List ℕ → List ℕ
open_new p [] procs = procs
open_new p (pid ∷ pids) procs = open_new p pids (open_one p pid procs)

unfoldable pub process_rows : Processes → List ℕ → List ProcessRow
process_rows p [] = []
process_rows p (pid ∷ pids) =
    let rest = process_rows p pids in elim (p.row pid) [ none ↦ rest | some r ↦ r ∷ rest ]

-- `sorted(rows, key=..., reverse=True)`, which keeps the order of equals
unfoldable pub insert_by : (ProcessRow → ℕ) → ProcessRow → List ProcessRow → List ProcessRow
insert_by key r [] = r ∷ []
insert_by key r (s ∷ ss) =
    let rest = insert_by key r ss in if ltb (key r) (key s) then s ∷ rest else r ∷ s ∷ ss

unfoldable pub sorted_by : (ProcessRow → ℕ) → List ProcessRow → List ProcessRow
unfolding insert_by
sorted_by key [] = []
sorted_by key (r ∷ rs) = insert_by key r (sorted_by key rs)

-- `rows[:n]`
unfoldable pub first_rows : ℕ → List ProcessRow → List ProcessRow
first_rows zero rows = []
first_rows (suc n) [] = []
first_rows (suc n) (r ∷ rs) = r ∷ first_rows n rs

abbrev pub top_n : ℕ
top_n = 10

-- `_top_processes`: the two lists, and what `_procs` is then
unfoldable pub top_processes : Processes → List ℕ → (List ProcessRow × List ProcessRow) × List ℕ
unfolding drop_ended open_new process_rows sorted_by first_rows
top_processes p procs =
    let known = open_new p p.pids (drop_ended p.pids procs) in
    let rows = process_rows p known in
    (
      (
        first_rows top_n (sorted_by (λ r. r.cpu_percent) rows),
        first_rows top_n (sorted_by (λ r. r.mem) rows),
      ),
      known,
    )

-- rollback_alert.json: not there, not to be read as JSON, or with its text
pub data AlertFile : Type 0 where
  absent unreadable : AlertFile
  holds : Text → AlertFile

unfoldable pub load_rollback_alert : AlertFile → Option Text
load_rollback_alert (holds alert) = some alert
load_rollback_alert _ = none

-- `unlink(missing_ok=True)`
unfoldable pub dismiss_rollback_alert : AlertFile → AlertFile
dismiss_rollback_alert file = absent

-- What `stats` reads, apart from the processes and the counters; a float is of the type `F`.
pub record Usage (F : Type 0) : Type 0 where
  pub cpu_percent : F
  pub cpu_temp_c : Option F
  pub mem_percent : F
  pub disk_percent : F
  pub uptime_seconds : Option F

pub record Stats (F : Type 0) : Type 0 where
  pub usage : Usage F
  pub interfaces : Dict (Rate × Rate)
  pub top_cpu : List ProcessRow
  pub top_mem : List ProcessRow
  pub last_downtime : Option ℕ
  pub rollback_alert : Option Text

unfoldable pub interface_rates : Dict Sampled → Dict (Rate × Rate)
interface_rates [] = []
interface_rates ((name, v) ∷ rest) = (name, (v.sent_rate, v.recv_rate)) ∷ interface_rates rest

-- `_net_rates` and `_procs`
pub record Samplers : Type 0 where
  pub net_rates : NetRates
  pub procs : List ℕ

unfoldable pub stats :
    {F : Type 0}
    → Usage F
    → Snapshot
    → Processes
    → Memory
    → AlertFile
    → Samplers
    → Stats F × Samplers
unfolding interface_rates load_rollback_alert
stats usage snapshot processes memory alert samplers =
    let (sampled, net_rates) = sample snapshot samplers.net_rates in
    let ((top_cpu, top_mem), procs) = top_processes processes samplers.procs in
    (
      record {
        usage = usage;
        interfaces = interface_rates sampled;
        top_cpu = top_cpu;
        top_mem = top_mem;
        last_downtime = memory.last_downtime;
        rollback_alert = load_rollback_alert alert;
      },
      record { net_rates = net_rates; procs = procs },
    )
