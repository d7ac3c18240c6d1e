-- ===== src/Kernel/Priority.antt =====
-- lab3/kernel/proc.c: the priority and the counters that the lab adds to each process. A process
-- table is a function of the index; each function below runs under the lock of the process. What
-- `swtch` does is left to the steps of the machine (Priority/Steps.antt).
pub mod Steps
mod Examples
use operating_system_fa_maf.Common.{
  ℕ, ◌-◌, Bool, true, false, ◌&&◌, not, Option, none, some, ◌==◌, if◌then◌else◌, Run, done, fault,
}
use operating_system_fa_maf.Common.Int.{ℤ, pos, is_pos, is_below, pos_part, succ_ℤ, pred_ℤ}

abbrev pub nprio : ℕ
nprio = 3

pub data ProcState : Type 0 where
  unused used sleeping runnable running zombie : ProcState

pub record Proc : Type 0 where
  pub state : ProcState
  pub pid : ℕ
  pub chan : Option ℕ
  pub schedpick : ℤ
  pub lastexec : ℕ
  pub priority : ℤ

abbrev pub int_max : ℕ
int_max = 0x7fff_ffff

-- What `allocproc` sets when it has found an unused process.
unfoldable pub allocproc : (pid : ℕ) → Proc → Proc
allocproc pid p = record p {
  pid = pid;
  state = used;
  schedpick = pos 0;
  priority = pos (nprio - 1);
}

-- The members of this model that `freeproc` clears.
unfoldable pub freeproc : Proc → Proc
freeproc p = record p { pid = 0; chan = none; state = unused }

abbrev pub is_runnable : ProcState → Bool
is_runnable runnable = true
is_runnable _ = false

abbrev pub is_sleeping : ProcState → Bool
is_sleeping sleeping = true
is_sleeping _ = false

abbrev pub on_chan : Option ℕ → ℕ → Bool
on_chan none c = false
on_chan (some d) c = d == c

-- The body of the `for` loop of `scheduler`, up to the switch to the process. A counter that is
-- INT_MAX cannot be increased; `lastexec` is kept as the unsigned number that `ticks` is.
unfoldable pub schedule : (ticks : ℕ) → Proc → Run Proc
schedule ticks p =
    if is_runnable p.state
    then (if pos_part p.schedpick == int_max
        then fault
        else done (record p { schedpick = succ_ℤ p.schedpick; lastexec = ticks; state = running }))
    else done p

-- `yield`, up to the switch to the scheduler.
unfoldable pub yield : Proc → Proc
yield p = record p {
  priority = if is_pos p.priority then pred_ℤ p.priority else p.priority;
  state = runnable;
}

-- `sleep`, up to the switch to the scheduler, and from the switch back.
unfoldable pub sleep : (chan : ℕ) → Proc → Proc
sleep chan p = record p {
  chan = some chan;
  state = sleeping;
  priority = if is_below p.priority (nprio - 1) then succ_ℤ p.priority else p.priority;
}

unfoldable pub awake : Proc → Proc
awake p = record p { chan = none }

-- `wakeup` by the process `me`.
unfoldable pub wakeup : (me chan : ℕ) → (ℕ → Proc) → ℕ → Proc
wakeup me chan procs j =
    if not (j == me) && (is_sleeping (procs j).state && on_chan (procs j).chan chan)
    then record (procs j) { state = runnable }
    else procs j
