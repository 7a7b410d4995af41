-- ===== src/Ipc/Deliver.antt =====
-- `sys_ipc_recv` and `sys_ipc_can_send` of lib/svc.c: how a message gets to its receiver, and
-- when it does not.
use jos_buaa_a20_porting.Prelude.{
  ℕ, ◌+◌, ◌*◌, ◌%◌, ◌∙◌, ◌≤◌, ◌<◌, ◌≡◌, ◌≢◌, false, Option, none, some, List, ◌∷◌, arith, done, ap,
  refl, bit_or,
}
use mathlib.Core.Path.{ap₂}
use jos_buaa_a20_porting.Mmu.{utop, ulim, pte_v, pte_r, pg_addr_offset}
use jos_buaa_a20_porting.Mmu.Fields.{pg_addr_offset_lem, bit_or_page}
use jos_buaa_a20_porting.Mmu.Translate.{max_pages, page2kva_lem}
use jos_buaa_a20_porting.Queue.{update}
use jos_buaa_a20_porting.Queue.Chain.{erase}
use jos_buaa_a20_porting.Mm.{Mm, good, bad, ipc_not_recv}
use jos_buaa_a20_porting.Paging.{page_lookup}
use jos_buaa_a20_porting.Paging.Lookup.{Maps, page_lookup-Maps}
use jos_buaa_a20_porting.Kernel.{Kernel, Env, env_runnable, env_not_runnable, set_env}
use jos_buaa_a20_porting.Envs.Ids.{Found, envid2env-Found}
use jos_buaa_a20_porting.Svc.{my_set_env_status}
use jos_buaa_a20_porting.Svc.Status.{
  IsSched, woken, wake-eq, wake-IsSched, put_to_sleep, sleep-eq, sleep-IsSched,
}
use jos_buaa_a20_porting.Sched.{sched_yield}
use jos_buaa_a20_porting.SvcMem.Share.{dir}
use jos_buaa_a20_porting.Ipc.{
  receiving, delivered, write_user, deliver, wake_receiver, sys_ipc_recv, sys_ipc_can_send,
}

-- where a pointer of the receiver leads: nowhere, if it is NULL, or to a page that it maps
abbrev pub IsTarget : Mm → ℕ → ℕ → Option ℕ → Type 0
IsTarget s pgdir p none = p ≡ 0
IsTarget s pgdir p (some pp) =
    (p ≢ 0) × (s.npage ≤ max_pages) × (pp < s.npage) × ((t : ℕ) × Maps s pgdir p t pp)

-- the memory after `v` is written through it
abbrev pub written : Mm → Option ℕ → ℕ → ℕ → Mm
written s none p v = s
written s (some pp) p v = record s { mem = update s.mem (ulim + pp * 4096 + p % 4096) v }

target_word :
    (pp p : ℕ) → bit_or (ulim + pp * 4096) (pg_addr_offset p) ≡ ulim + pp * 4096 + p % 4096
target_word pp p =
    let left : ulim + pp * 4096 ≡ (0x80000 + pp) * 4096 = omega arith in
    ap₂ bit_or left (pg_addr_offset_lem p)
    ∙ bit_or_page (0x80000 + pp) (p % 4096) (omega arith)
    ∙ omega arith

pub write_user-eq :
    (s : Mm) (pgdir p v : ℕ) (target : Option ℕ)
    → IsTarget s pgdir p target
    → write_user pgdir p v s ≡ done tt (written s target p v)
unfolding write_user
write_user-eq s pgdir p v none z = ground arith
write_user-eq s pgdir p v (some pp) (nz, fits, inside, m) = ground (
  arith,
  page_lookup-Maps s pgdir p m.0 pp m.1,
  page2kva_lem s.npage fits pp inside,
  target_word pp p,
)

-- A message to an environment that does not receive is refused, and nothing changes.
pub send_not_recv :
    (fuel : ℕ) (k : Kernel) (envid value srcva perm e : ℕ)
    → srcva < utop
    → Found k envid e false
    → (k.envs e).env_ipc_recving ≡ 0
    → sys_ipc_can_send fuel envid value srcva perm k ≡ done (bad ipc_not_recv) k
unfolding sys_ipc_can_send
send_not_recv fuel k envid value srcva perm e lo f idle =
    ground (arith, (envid2env-Found k envid e false).1 f)

-- A message with a page that the sender has not mapped is not delivered, and nothing changes, but
-- the call returns 0, as it does for a message that is.
pub send_unmapped :
    (fuel : ℕ) (k : Kernel) (envid value srcva perm e c : ℕ)
    → srcva < utop
    → srcva ≢ 0
    → Found k envid e false
    → (k.envs e).env_ipc_recving ≢ 0
    → k.curenv ≡ some c
    → page_lookup (dir k c) srcva k.mm ≡ done none k.mm
    → sys_ipc_can_send fuel envid value srcva perm k ≡ done (good 0) k
unfolding sys_ipc_can_send
send_unmapped fuel k envid value srcva perm e c lo nz f ready cur unmapped =
    ground (arith, (envid2env-Found k envid e false).1 f)

-- the state when `deliver` has written to the receiver `e` and through its pointers, which makes
-- the memory `s`, and has yet to wake it
abbrev pub handed : (e c value perm : ℕ) → Mm → Kernel → Kernel
handed e c value perm s k = record (set_env e (delivered value (k.envs c).env_id perm) k) { mm = s }

pub handed-IsSched :
    (k : Kernel) (e c value perm : ℕ) (s : Mm) (xs : List ℕ)
    → IsSched k xs
    → IsSched (handed e c value perm s k) xs
handed-IsSched k e c value perm s xs v = record {
  queue = v.queue;
  members = λ q. ground (arith, v.members q);
}

wake_receiver-eq :
    (fuel : ℕ) (k k' : Kernel) (e : ℕ) (r : Env) (s1 s2 : Mm)
    → write_user r.env_pgdir r.env_ipc_arg_whom r.env_ipc_from k.mm ≡ done tt s1
    → write_user r.env_pgdir r.env_ipc_arg_perm r.env_ipc_perm s1 ≡ done tt s2
    → my_set_env_status fuel e env_runnable (record k { mm = s2 }) ≡ done tt k'
    → wake_receiver fuel e r k ≡ done (good 0) k'
unfolding wake_receiver
wake_receiver-eq fuel k k' e r s1 s2 w1 w2 m = ground arith

pub deliver-eq :
    (fuel : ℕ) (k : Kernel) (e c value perm : ℕ) (xs : List ℕ) (s1 s2 : Mm)
    → IsSched k xs
    → (k.envs e).env_status ≢ env_runnable
    → write_user (dir k e) (k.envs e).env_ipc_arg_whom (k.envs c).env_id k.mm ≡ done tt s1
    → write_user (dir k e) (k.envs e).env_ipc_arg_perm (bit_or (bit_or perm pte_v) pte_r) s1
      ≡ done tt s2
    → deliver fuel e c value perm k ≡ done (good 0) (woken (handed e c value perm s2 k) e)
unfolding deliver
deliver-eq fuel k e c value perm xs s1 s2 v asleep w1 w2 =
    let k1 : Kernel = set_env e (delivered value (k.envs c).env_id perm) k in
    let r : Env = delivered value (k.envs c).env_id perm (k.envs e) in
    let there : k1.envs e ≡ r = ground arith in
    ap (λ (q : Env). wake_receiver fuel e q k1) there
    ∙ wake_receiver-eq fuel k1 (woken (handed e c value perm s2 k) e) e r s1 s2 w1 w2 (
        wake-eq fuel (handed e c value perm s2 k) e xs (handed-IsSched k e c value perm s2 xs v)
          (ground arith))

-- what the receiver finds after a message, and what becomes of the other environments
pub record Delivered (k k' : Kernel) (e c value perm : ℕ) : Type 0 where
  pub value_there : (k'.envs e).env_ipc_value ≡ value
  pub result : (k'.envs e).env_tf.regs 0 ≡ value
  pub from : (k'.envs e).env_ipc_from ≡ (k.envs c).env_id
  pub perm_there : (k'.envs e).env_ipc_perm ≡ bit_or (bit_or perm pte_v) pte_r
  pub no_more : (k'.envs e).env_ipc_recving ≡ 0
  pub awake : (k'.envs e).env_status ≡ env_runnable
  pub others : (q : ℕ) → q ≢ e → k'.envs q ≡ k.envs q

pub handed-Delivered :
    (k : Kernel) (e c value perm : ℕ) (s : Mm)
    → Delivered k (woken (handed e c value perm s k) e) e c value perm
handed-Delivered k e c value perm s = record {
  value_there = ground arith;
  result = ground arith;
  from = ground arith;
  perm_there = ground arith;
  no_more = ground arith;
  awake = ground arith;
  others = λ q ne. ground arith;
}

send_no_page-eq :
    (fuel : ℕ) (k : Kernel) (envid value perm e c : ℕ)
    → Found k envid e false
    → k.curenv ≡ some c
    → (k.envs e).env_ipc_recving ≢ 0
    → sys_ipc_can_send fuel envid value 0 perm k ≡ deliver fuel e c value perm k
unfolding sys_ipc_can_send
send_no_page-eq fuel k envid value perm e c f cur ready =
    ground (arith, (envid2env-Found k envid e false).1 f)

module _ (fuel : ℕ) (k : Kernel) (envid value perm e c : ℕ) (xs : List ℕ) (whom perm_at : Option ℕ)
    (f : Found k envid e false) (cur : k.curenv ≡ some c) (v : IsSched k xs)
    (asleep : (k.envs e).env_status ≡ env_not_runnable) (ready : (k.envs e).env_ipc_recving ≢ 0)
    (to_whom : IsTarget k.mm (dir k e) (k.envs e).env_ipc_arg_whom whom)
    (to_perm : IsTarget
      (written k.mm whom (k.envs e).env_ipc_arg_whom (k.envs c).env_id)
      (dir k e)
      (k.envs e).env_ipc_arg_perm
      perm_at) where
  -- A message without a page to a receiver that waits: the call returns 0, the receiver has the
  -- value (in its register 0 too), the sender and the permissions, receives no more and is
  -- runnable, at the front of the list of the scheduler, and the two words that its pointers
  -- lead to are written.
  pub sys_ipc_can_send-Delivered :
      (k' : Kernel) × (sys_ipc_can_send fuel envid value 0 perm k ≡ done (good 0) k')
      × Delivered k k' e c value perm
      × IsSched k' (e ∷ xs)
      × (k'.mm
          ≡ written
              (written k.mm whom (k.envs e).env_ipc_arg_whom (k.envs c).env_id)
              perm_at
              (k.envs e).env_ipc_arg_perm
              (bit_or (bit_or perm pte_v) pte_r))
  sys_ipc_can_send-Delivered =
      let s1 : Mm = written k.mm whom (k.envs e).env_ipc_arg_whom (k.envs c).env_id in
      let s2 : Mm =
        written s1 perm_at (k.envs e).env_ipc_arg_perm (bit_or (bit_or perm pte_v) pte_r) in
      let h : Kernel = handed e c value perm s2 k in
      let run : deliver fuel e c value perm k ≡ done (good 0) (woken h e) =
        deliver-eq fuel k e c value perm xs s1 s2 v (ground arith)
          (write_user-eq k.mm (dir k e) (k.envs e).env_ipc_arg_whom (k.envs c).env_id whom to_whom)
          (write_user-eq s1 (dir k e) (k.envs e).env_ipc_arg_perm (bit_or (bit_or perm pte_v) pte_r)
            perm_at to_perm) in
      (
        woken h e,
        send_no_page-eq fuel k envid value perm e c f cur ready ∙ run,
        handed-Delivered k e c value perm s2,
        wake-IsSched fuel h e xs (handed-IsSched k e c value perm s2 xs v) (ground arith),
        refl,
      )

-- `sys_ipc_recv` with a good address puts the current environment to sleep as a receiver, off the
-- list of the scheduler, and yields: what follows is the scheduler's run from that state.
pub sys_ipc_recv_blocks :
    (fuel : ℕ) (k : Kernel) (dstva whom perm c : ℕ) (xs : List ℕ)
    → dstva < utop
    → k.curenv ≡ some c
    → IsSched k xs
    → (k.envs c).env_status ≡ env_runnable
    → (k' : Kernel) × (sys_ipc_recv fuel dstva whom perm k ≡ sched_yield fuel k')
      × IsSched k' (erase c xs)
      × ((k'.envs c).env_ipc_recving ≡ 1)
      × ((k'.envs c).env_ipc_dstva ≡ dstva)
      × ((k'.envs c).env_status ≡ env_not_runnable)
      × (k'.mm ≡ k.mm)
unfolding sys_ipc_recv
sys_ipc_recv_blocks fuel k dstva whom perm c xs lo cur v up =
    let w : Kernel = set_env c (receiving dstva whom perm) k in
    let vw : IsSched w xs = record {
      queue = v.queue;
      members = λ q. ground (arith, v.members q);
    } in
    let still : (w.envs c).env_status ≡ env_runnable = ground arith in
    (
      put_to_sleep w c,
      ground (arith, sleep-eq fuel w c xs vw still),
      sleep-IsSched fuel w c xs vw still,
      ground arith,
      ground arith,
      ground arith,
      refl,
    )
