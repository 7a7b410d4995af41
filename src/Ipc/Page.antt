-- ===== src/Ipc/Page.antt =====
-- `sys_ipc_can_send` of lib/svc.c with a page.
use jos_buaa_a20_porting.Prelude.{
  ℕ, ◌≤◌, ◌<◌, ◌≡◌, ◌≢◌, ◌∙◌, false, Option, none, some, List, ◌∷◌, arith, done, bit_or,
}
use jos_buaa_a20_porting.Mmu.{utop, pte_v, pte_r}
use jos_buaa_a20_porting.Mmu.Translate.{max_pages}
use jos_buaa_a20_porting.Mm.{Mm, good}
use jos_buaa_a20_porting.Paging.{pde_at, pte_at, page_insert}
use jos_buaa_a20_porting.Paging.Walk.{HasTable}
use jos_buaa_a20_porting.Paging.Lookup.{Maps, page_lookup-Maps}
use jos_buaa_a20_porting.Paging.Insert.{MapsBefore, Inserted, page_insert-Inserted}
use jos_buaa_a20_porting.Kernel.{Kernel, env_not_runnable, running}
use jos_buaa_a20_porting.Envs.Ids.{Found, envid2env-Found}
use jos_buaa_a20_porting.Svc.Status.{IsSched, woken, wake-IsSched}
use jos_buaa_a20_porting.SvcMem.Share.{dir}
use jos_buaa_a20_porting.Ipc.{send_page, deliver, sys_ipc_can_send}
use jos_buaa_a20_porting.Ipc.Deliver.{
  Delivered, handed, handed-Delivered, handed-IsSched, deliver-eq, write_user-eq,
}

-- the address that the receiver `e` has named for a page
abbrev pub target : Kernel → ℕ → ℕ
target k e = (k.envs e).env_ipc_dstva

send_page-eq :
    (k : Kernel) (e c srcva perm t pp : ℕ) (s' : Mm)
    → srcva ≢ 0
    → Maps k.mm (dir k c) srcva t pp
    → page_insert (running k) (dir k e) pp (target k e) perm k.mm ≡ done (good tt) s'
    → send_page e c srcva perm k ≡ done none (record k { mm = s' })
unfolding send_page
send_page-eq k e c srcva perm t pp s' nz m run =
    ground (arith, page_lookup-Maps k.mm (dir k c) srcva t pp m, run)

send_with_page-eq :
    (fuel : ℕ) (k k1 : Kernel) (envid value srcva perm e c : ℕ)
    → srcva < utop
    → Found k envid e false
    → (k.envs e).env_ipc_recving ≢ 0
    → k.curenv ≡ some c
    → send_page e c srcva perm k ≡ done none k1
    → sys_ipc_can_send fuel envid value srcva perm k ≡ deliver fuel e c value perm k1
unfolding sys_ipc_can_send
send_with_page-eq fuel k k1 envid value srcva perm e c lo f ready cur sent =
    ground (arith, (envid2env-Found k envid e false).1 f)

-- A message with a page that the sender has mapped, to a receiver that waits and has a page table
-- for the address that it named: the call returns 0, the page is mapped there as `page_insert`
-- does it, whatever the address held before, and the message is delivered as one without a page
-- is. Here the receiver has given no pointers.
pub sys_ipc_can_send_page :
    (fuel : ℕ) (k : Kernel) (envid value srcva perm e c t td pp : ℕ) (before : Option ℕ)
    (xs : List ℕ)
    → srcva < utop
    → srcva ≢ 0
    → perm < 4096
    → Found k envid e false
    → k.curenv ≡ some c
    → IsSched k xs
    → (k.envs e).env_status ≡ env_not_runnable
    → (k.envs e).env_ipc_recving ≢ 0
    → (k.envs e).env_ipc_arg_whom ≡ 0
    → (k.envs e).env_ipc_arg_perm ≡ 0
    → Maps k.mm (dir k c) srcva t pp
    → HasTable k.mm (dir k e) (target k e) td
    → MapsBefore k.mm (dir k e) (target k e) td before
    → pte_at td (target k e) ≢ pde_at (dir k e) (target k e)
    → k.mm.npage ≤ max_pages
    → pp < k.mm.npage
    → (k' : Kernel) × (sys_ipc_can_send fuel envid value srcva perm k ≡ done (good 0) k')
      × Delivered k k' e c value perm
      × IsSched k' (e ∷ xs)
      × Inserted k.mm k'.mm (dir k e) (target k e) td pp perm before
sys_ipc_can_send_page fuel k envid value srcva perm e c t td pp before xs lo nz small f cur v asleep
      ready no_whom no_perm m h b apart fits inside =
    let (s', run, i) =
      page_insert-Inserted (running k) k.mm (dir k e) (target k e) td pp perm h apart fits inside
        small before b in
    let k1 : Kernel = record k { mm = s' } in
    let v1 : IsSched k1 xs = record { queue = v.queue; members = v.members } in
    let final : Kernel = handed e c value perm s' k1 in
    let told = handed-Delivered k1 e c value perm s' in
    let run1 : deliver fuel e c value perm k1 ≡ done (good 0) (woken final e) =
      deliver-eq fuel k1 e c value perm xs s' s' v1 (ground arith)
        (write_user-eq s' (dir k e) (k.envs e).env_ipc_arg_whom (k.envs c).env_id none no_whom)
        (write_user-eq s' (dir k e) (k.envs e).env_ipc_arg_perm (bit_or (bit_or perm pte_v) pte_r)
          none no_perm) in
    (
      woken final e,
      send_with_page-eq fuel k k1 envid value srcva perm e c lo f ready cur
            (send_page-eq k e c srcva perm t pp s' nz m run)
          ∙ run1,
      record {
        value_there = told.value_there;
        result = told.result;
        from = told.from;
        perm_there = told.perm_there;
        no_more = told.no_more;
        awake = told.awake;
        others = told.others;
      },
      wake-IsSched fuel final e xs (handed-IsSched k1 e c value perm s' xs v1) (ground arith),
      i,
    )
