-- ===== src/Envs/Alloc.antt =====
-- `env_alloc` and `env_setup_vm` of lib/env.c: the new environment and its address space.
use jos_buaa_a20_porting.Prelude.{
  ℕ, ◌+◌, ◌-◌, ◌*◌, ◌%◌, ◌≤◌, ◌<◌, ◌≡◌, ◌≢◌, ap, ◌⊎◌, some, List, [], ◌∷◌, arith, done, halt, panic,
}
use jos_buaa_a20_porting.Mmu.{word, ulim, ustacktop, pdx, paddr}
use jos_buaa_a20_porting.Mmu.Translate.{max_pages, page2kva_lem}
use jos_buaa_a20_porting.Queue.{update}
use jos_buaa_a20_porting.Queue.Chain.{IsQueue}
use jos_buaa_a20_porting.Queue.Remove.{removed, remove-eq-removed, removed-IsQueue}
use jos_buaa_a20_porting.Mm.{Mm, good, bad, no_free_env, inc16, clear_words}
use jos_buaa_a20_porting.Mm.Alloc.{
  IsFreeList, allocated, page_alloc-eq, page_alloc-nil, allocated-IsFreeList,
}
use jos_buaa_a20_porting.Kernel.{Kernel, Env, env_not_runnable, set_env}
use jos_buaa_a20_porting.Envs.{mkenvid, copy_bytes, env_setup_vm, fresh_env, env_alloc}
use jos_buaa_a20_porting.Envs.Copy.{AreWords, copy_words, copy_bytes-copy_words}
use jos_buaa_a20_porting.Envs.Ids.{next_id}

-- the directory in page `p`
abbrev pub dir_of : ℕ → ℕ
dir_of p = ulim + p * 4096

-- the index of the first directory entry above the user's part, `PDX(UTOP)`
abbrev pub user_entries : ℕ
user_entries = 0x7FD

-- the memory after `env_setup_vm` has made a directory out of page `p`
abbrev pub directory_made : Mm → ℕ → ℕ → Mm
directory_made s boot p = record (allocated s p) {
  pp_ref = update s.pp_ref p (inc16 (s.pp_ref p));
  mem =
      copy_words (clear_words (allocated s p).mem (dir_of p) (4 * user_entries))
        (boot + 4 * user_entries) (dir_of p + 4 * user_entries) (4 * (4096 - user_entries));
}

pub directory_made-IsFreeList :
    (s : Mm) (boot p : ℕ) (xs : List ℕ)
    → IsFreeList s (p ∷ xs)
    → IsFreeList (directory_made s boot p) xs
directory_made-IsFreeList s boot p xs v =
    let w = allocated-IsFreeList s p xs v in
    record {
      fits = w.fits;
      queue = w.queue;
      within = w.within;
      unused = λ q h. ground (arith, w.unused q h, v.queue.2);
    }

abbrev pub with_directory : ℕ → ℕ → Env → Env
with_directory pgdir ttb r = record r { env_pgdir = pgdir; env_ttb = ttb }

paddr_of_page : (p : ℕ) → p < max_pages → paddr (dir_of p) ≡ some (0x40000000 + p * 4096)
unfolding paddr
paddr_of_page p h = ground arith

-- `boot_pgdir` is a range of whole words apart from the new directory, in a memory of words
pub record IsBootDir (k : Kernel) (p : ℕ) : Type 0 where
  pub aligned : k.boot_pgdir % 4 ≡ 0
  pub apart : (k.boot_pgdir + 16384 ≤ dir_of p) ⊎ (dir_of p + 16384 ≤ k.boot_pgdir)
  pub words : AreWords k.mm.mem

-- the memory with the user's part of the new directory cleared
abbrev cleared : Mm → ℕ → ℕ → ℕ
cleared s p = clear_words (allocated s p).mem (dir_of p) (4 * user_entries)

kernel_part :
    (k : Kernel) (p : ℕ)
    → IsBootDir k p
    → copy_bytes
        (cleared k.mm p)
        (k.boot_pgdir + 4 * user_entries)
        (dir_of p + 4 * user_entries)
        (4 * (4096 - user_entries))
      ≡ copy_words
          (cleared k.mm p)
          (k.boot_pgdir + 4 * user_entries)
          (dir_of p + 4 * user_entries)
          (4 * (4096 - user_entries))
kernel_part k p b =
    copy_bytes-copy_words (4096 - user_entries) (cleared k.mm p) (k.boot_pgdir + 4 * user_entries)
      (dir_of p + 4 * user_entries) (omega (arith, b.aligned)) (omega arith)
      (ground (arith, b.apart)) (λ a. ground (arith, b.words a))

pub env_setup_vm-eq :
    (k : Kernel) (e p : ℕ) (xs : List ℕ)
    → IsFreeList k.mm (p ∷ xs)
    → IsBootDir k p
    → env_setup_vm e k
      ≡ done tt (
          set_env e
            (with_directory (dir_of p) (0x40000000 + p * 4096))
            (record k { mm = directory_made k.mm k.boot_pgdir p }))
unfolding env_setup_vm pdx
env_setup_vm-eq k e p xs v b =
    let inside : p < k.mm.npage = v.within p (ground arith) in
    ground (
      arith,
      kernel_part k p b,
      page_alloc-eq k.mm p xs v,
      page2kva_lem k.mm.npage v.fits p inside,
      paddr_of_page p (omega (arith, v.fits)),
    )

-- the state after `env_alloc` takes the environment `e` and the page `p`
abbrev pub env_made : Kernel → (cpsr parent_id e p : ℕ) → Kernel
env_made k cpsr parent_id e p =
    let k1 : Kernel =
      set_env e (with_directory (dir_of p) (0x40000000 + p * 4096))
        (record k { mm = directory_made k.mm k.boot_pgdir p }) in
    record (set_env e (fresh_env (next_id k e) parent_id cpsr) k1) {
      next_env_id = (k.next_env_id + 1) % word;
      env_free_list = removed k.env_free_list e;
    }

env_alloc-eq :
    (k : Kernel) (cpsr parent_id e p : ℕ) (es xs : List ℕ)
    → IsQueue k.env_free_list (e ∷ es)
    → IsFreeList k.mm (p ∷ xs)
    → IsBootDir k p
    → env_alloc cpsr parent_id k ≡ done (good e) (env_made k cpsr parent_id e p)
unfolding env_alloc mkenvid
env_alloc-eq k cpsr parent_id e p es xs q v b = ground (
  arith,
  env_setup_vm-eq k e p xs v b,
  remove-eq-removed k.env_free_list (e ∷ es) e q (ground arith),
)

-- the directory that `env_alloc` gives: empty below UTOP, and above it as `boot_pgdir` was
pub record IsFresh (k k' : Kernel) (parent_id e p : ℕ) : Type 0 where
  pub id : (k'.envs e).env_id ≡ next_id k e
  pub parent : (k'.envs e).env_parent_id ≡ parent_id
  pub status : (k'.envs e).env_status ≡ env_not_runnable
  pub stack : (k'.envs e).env_tf.usr_sp ≡ ustacktop
  pub directory : (k'.envs e).env_pgdir ≡ dir_of p
  pub counted : k'.mm.pp_ref p ≡ 1
  pub user : (i : ℕ) → i < user_entries → k'.mm.mem (dir_of p + 4 * i) ≡ 0
  pub shared :
      (i : ℕ)
      → user_entries ≤ i
      → i < 4096
      → k'.mm.mem (dir_of p + 4 * i) ≡ k.mm.mem (k.boot_pgdir + 4 * i)
  pub others : (q : ℕ) → q ≢ e → k'.envs q ≡ k.envs q

-- `env_alloc` with a free environment and a free page: it returns the first free environment, no
-- longer on the free list, with the identifier that `mkenvid` makes of its index and the counter,
-- which may be one that was given before; the page is its directory, which has no user mapping and
-- the kernel's entries of `boot_pgdir`. The directory of the boot must be aligned to words and lie
-- outside the 16 KB that are written.
pub env_alloc-IsFresh :
    (k : Kernel) (cpsr parent_id e p : ℕ) (es xs : List ℕ)
    → IsQueue k.env_free_list (e ∷ es)
    → IsFreeList k.mm (p ∷ xs)
    → IsBootDir k p
    → (k' : Kernel) × (env_alloc cpsr parent_id k ≡ done (good e) k')
      × IsQueue k'.env_free_list es
      × IsFreeList k'.mm xs
      × IsFresh k k' parent_id e p
env_alloc-IsFresh k cpsr parent_id e p es xs q v b =
    let w = directory_made-IsFreeList k.mm k.boot_pgdir p xs v in
    (
      env_made k cpsr parent_id e p,
      env_alloc-eq k cpsr parent_id e p es xs q v b,
      ground (arith, removed-IsQueue k.env_free_list (e ∷ es) e q),
      record { fits = w.fits; queue = w.queue; within = w.within; unused = w.unused },
      record {
        id = ground arith;
        parent = ground arith;
        status = ground arith;
        stack = ground arith;
        directory = ground arith;
        counted = ground (arith, v.unused p);
        user = λ i h. ground arith;
        shared = λ i lo hi. ground (arith, ap k.mm.mem (source i lo hi), b.apart);
        others = λ j ne. ground arith;
      },
    )
  where
    source :
        (i : ℕ)
        → user_entries ≤ i
        → i < 4096
        → k.boot_pgdir + 4 * user_entries + (dir_of p + 4 * i - (dir_of p + 4 * user_entries))
          ≡ k.boot_pgdir + 4 * i
    source i lo hi = omega arith

-- With no free environment `env_alloc` returns `-E_NO_FREE_ENV` and changes nothing.
pub env_alloc_no_env :
    (k : Kernel) (cpsr parent_id : ℕ)
    → IsQueue k.env_free_list []
    → env_alloc cpsr parent_id k ≡ done (bad no_free_env) k
unfolding env_alloc
env_alloc_no_env k cpsr parent_id q = ground (arith, q)

-- With a free environment and no free page `env_alloc` panics: it returns no error.
pub env_alloc_no_page :
    (k : Kernel) (cpsr parent_id e : ℕ) (es : List ℕ)
    → IsQueue k.env_free_list (e ∷ es)
    → IsFreeList k.mm []
    → env_alloc cpsr parent_id k ≡ halt panic
unfolding env_alloc env_setup_vm
env_alloc_no_page k cpsr parent_id e es q v = ground (arith, q.0, page_alloc-nil k.mm v)
