-- ===== src/Sched.antt =====
-- lib/sched.c: the scheduler. Its `while` runs on fuel; `Sched/Yield` says how much is enough, and
-- when none is.
pub mod Turn
pub mod Yield
pub mod Spin
use jos_buaa_a20_porting.Prelude.{
  ℕ, zero, suc, ◌+◌, ◌-◌, ◌%◌, ◌^◌, Bool, ◌||◌, Option, none, some, ◌==◌, leb, if◌then◌else◌, Cmd,
  Run, pure, stop, done, out_of_fuel, modify, gets, ◌>>=◌, ◌>>◌,
}
use jos_buaa_a20_porting.Mmu.{word}
use jos_buaa_a20_porting.Queue
use jos_buaa_a20_porting.Kernel.{Kernel, env_runnable}
use jos_buaa_a20_porting.Envs.{env_run}

-- `x <= 0` for an `int` given by its bit pattern
abbrev pub is_le_zero : ℕ → Bool
is_le_zero x = x == 0 || leb (2 ^ 31) x

-- `LIST_NEXT(iter, env_sched_link)`, or the first element where that is NULL
unfoldable pub advance : Kernel → Option ℕ
advance k =
    let next : Option ℕ = elim k.iter [ none ↦ none | some e ↦ k.env_sched_list.next e ] in
    elim next [ none ↦ k.env_sched_list.first | some e ↦ some e ]

-- the statements of the loop before the test of `iter`
unfoldable pub sched_round : Kernel → Kernel
sched_round k =
    let iter = advance k in
    let pri : ℕ = elim iter [ none ↦ 0 | some e ↦ (k.envs e).env_pri ] in
    if is_le_zero k.ts
    then record k { iter = iter; ts = (pri + word - 1) % word }
    else record k { ts = (k.ts + word - 1) % word }

-- whether `iter && iter->env_status == ENV_RUNNABLE`
abbrev pub is_ready : Kernel → Option ℕ → Bool
is_ready k none = Bool.false
is_ready k (some e) = (k.envs e).env_status == env_runnable

-- `env_run(iter)`; `iter` is not NULL there
abbrev pub run_iter : Option ℕ → Cmd Kernel (Unit {0})
run_iter none = pure tt
run_iter (some e) = env_run e

-- `load_trapframe(KSTACKTOP)` of lib/irq.c
abbrev pub load_kstack : Kernel → Kernel
load_kstack k = record k { exc_tf = k.kstack_tf }

unfoldable pub sched_loop : ℕ → Cmd Kernel (Unit {0})
sched_loop zero k = stop out_of_fuel k
sched_loop (suc fuel) k =
    let k' = sched_round k in
    let rest = sched_loop fuel k' in
    if Queue.is_empty k.env_sched_list
    then done tt (load_kstack k)
    else if is_ready k' k'.iter
    then run_iter k'.iter k'
    else rest

-- `sched_yield` with the given fuel
unfoldable pub sched_yield : ℕ → Cmd Kernel (Unit {0})
unfolding sched_loop
sched_yield fuel = sched_loop fuel

-- `sched_init`
unfoldable pub sched_init : Cmd Kernel (Unit {0})
sched_init = modify λ k. record k { env_sched_list = Queue.init k.env_sched_list }
