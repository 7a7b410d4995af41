-- ===== src/Lib.antt =====
-- Verification library of the system: a port of the MOS teaching kernel to ARMv7, with its memory
-- management, environments, scheduler, system calls, loader and formatted output, its file server,
-- and the library of its user processes.
--
-- The parts, and the files that model them:
--   Prelude   what the modules share: lists, tests, bit fields, and runs of code over a state.
--   Queue     the doubly linked lists of include/queue.h; Queue/Chain says what list they hold.
--   Mmu       the address macros of include/mmu.h, include/memlayout.h and include/types.h and the
--             translations of include/pmap.h.
--   Mm        the page allocator of mm/pmap.c (`alloc`, `page_init`, `page_alloc`, `page_free`,
--             `page_decref`) over the state `Mm`: `npage`, `freemem`, the counts `pp_ref`, the free
--             list, the memory, and the TLB invalidations issued.
--   Paging    the page tables of mm/pmap.c (`pgdir_walk`, `page_lookup`, `page_insert`,
--             `page_remove`, `tlb_invalidate`) and `va2pa` of include/pmap.h.
--   Boot      `init_boot_pgdir`, `armv7_vm_init` and `pageout` of mm/pmap.c.
--   Kernel    the state that the parts above it share: `struct Env` of include/env.h, `struct
--             Trapframe` of include/trap.h, the globals of lib/env.c and the statics of lib/sched.c.
--   Envs      identifiers, allocation and switch of environments (`mkenvid`, `envid2env`, `env_init`,
--             `env_setup_vm`, `env_alloc`, `env_run` of lib/env.c); Envs/Copy has `bcopy` of init/init.c
--             on whole words.
--   Loader    the loading of binaries: `load_elf` of lib/kernel_elfloader.c with
--             `load_icode_mapper`, `load_icode` and `env_create_priority` of lib/env.c.
--   Sched     `sched_yield` of lib/sched.c; Sched/Turn says whose turn is next on its list.
--   Teardown  `env_free` (here `env_free_of`) and `env_destroy` of lib/env.c.
--   Svc       the system calls of lib/svc.c on environments; SvcMem those on address spaces; Ipc
--             the messages, `sys_ipc_recv` and `sys_ipc_can_send`.
--   Print     `PrintNum`, `PrintChar` and `PrintString` of lib/print.c, and Format its `lp_Print`.
--   Blocks    the cache of disk blocks and the bitmap of fs/fs.c, with fs/ide.c, and in
--             Blocks/Start its `fs_init`; Files the blocks and the size of a file, and Paths its
--             directories and paths.
--   Server    the requests of fs/serv.c over the state `Serv`: that of the file system, `opentab`,
--             the pages of `struct Filefd` with their references, and the answers sent.
--   UserMem   the memory of a user process as its library sees it, and user/string.c.
--   Fds       the table of descriptors of user/fd.c; FileCalls the requests of user/fsipc.c and the
--             calls of user/file.c; FdCalls the calls of user/fd.c over the devices, with
--             user/console.c and two functions of user/pipe.c; Pipes its `pipe`.
--   Tests     runs on small concrete states, with the theorems applied to them.
--
-- Each function is a command over the state of its layer: it is done with a result, or it has
-- left (`env_run` does not come back from user mode, `cons_read` waits without a character, `OUTPUT` of
-- lib/print.c spins behind its fatal message), or it has halted, in a panic, at an access through
-- NULL, or at a byte of a process that its permissions do not allow. `in_mm` runs code of mm/pmap.c on the memory
-- of the kernel, `in_fs` code of fs/fs.c on the file system of the server. An `int` result is a
-- value or an error of include/error.h. Pointers to pages and environments are their indices, and
-- pointers to memory their addresses. Words are natural numbers with the wrap-around of the code
-- written out; the memory of the kernel is a function from the address of a word to the word, and a
-- page that is not zeroed or copied keeps its words; `bcopy` takes the words apart into bytes. The memory of a user process has bytes, at the
-- frame of their page, so that two addresses may share them; the record of a descriptor stands apart
-- from the bytes of its page, and the theorems on copies are for buffers in other pages. `printf` calls are left out, but on
-- the console.
--
-- Parameters: for a user process the file server is a function `server` that answers a request
-- (FileCalls/Served puts the model of fs/serv.c behind it), and `piperead` and `pipewrite`, whose
-- bodies are not finished in the source, are two more; a named hypothesis, `pipe_settles`, says of
-- `piperead` that it ends with an error or at most the count. What was in a local variable before
-- it is set is the parameter `junk` of `load_icode`, and the field `unset` of `Serv` for the variable
-- `o` of `serve_open`; the sizes of `struct Page` and `struct Env`
-- are parameters of `armv7_vm_init`, and `cpsr`, which a register holds, one of `env_alloc`.
-- `open_file` is `open` of user/file.c and `open_pipe` is `pipe` of user/pipe.c.
--
-- Fuel: `sched_yield` has a unit for each round of its loop; Sched/Yield says that one is enough,
-- or one more than the ticks left, and Sched/Spin when no amount is. The digits of a word need
-- 32 rounds at most, which is what `print_num` has. `lp_print` has a unit for each character of
-- the format and one more, and `readn` one for each byte asked for and one more. The routines of
-- user/string.c look at the bytes up to a bound. All other loops are structural; those that step
-- by a page up to a size run for the pages of the size, as the code does for sizes below 2^32 -
-- 4096. The fields of an ELF header are read as aligned words.
--
-- Not modelled: the processor's instructions (`lcontext`, the exception entries), the drivers, the
-- order of the start of the kernel, the system calls on devices and the console, the loops of
-- user/ipc.c and the rest of the user library, the unfinished functions of user/pipe.c; the self
-- tests, test programs and host tools. The kernel under the file server is the number of pages
-- that it is still given; that under a user process is the set of pages that it can map and the
-- frames left.
pub mod Blocks
pub mod Boot
pub mod Envs
pub mod FdCalls
pub mod Fds
pub mod FileCalls
pub mod Files
pub mod Format
pub mod Ipc
pub mod Kernel
pub mod Loader
pub mod Mm
pub mod Mmu
pub mod Paging
pub mod Paths
pub mod Pipes
pub mod Prelude
pub mod Print
pub mod Queue
pub mod Sched
pub mod Server
pub mod Svc
pub mod SvcMem
pub mod Teardown
pub mod Tests
pub mod UserMem
