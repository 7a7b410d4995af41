-- ===== src/Fds.antt =====
-- user/fd.c: the table of file descriptors, and the devices behind them. A `struct Fd *` is the
-- address of its page; an `int` is the word that holds it.
pub mod Table
use jos_buaa_a20_porting.Prelude.{
  ℕ, zero, suc, ◌+◌, ◌-◌, ◌*◌, ◌/◌, ◌%◌, ◌^◌, Bool, true, false, not, ◌&&◌, leb, ◌==◌,
  if◌then◌else◌, Cmd, pure, gets, modify, ◌>>=◌, ◌>>◌, bit_and,
}
use jos_buaa_a20_porting.Mmu.{word, by2pg, pdmap, pte_v}
use jos_buaa_a20_porting.Mm.{Error, Ret, good, bad, inval, max_open}
use jos_buaa_a20_porting.UserMem.{User, va_perm, is_minus, mem_unmap}

abbrev pub maxfd : ℕ
maxfd = 32

abbrev pub filebase : ℕ
filebase = 0x60000000

abbrev pub fdtable : ℕ
fdtable = filebase - pdmap

abbrev pub index2fd : ℕ → ℕ
index2fd i = (fdtable + i * by2pg) % word

abbrev pub index2data : ℕ → ℕ
index2data i = (filebase + i * pdmap) % word

-- the entries of `devtab`
pub data Device : Type 0 where
  file cons pipe : Device

abbrev pub dev_id : Device → ℕ
dev_id file = 102
dev_id cons = 99
dev_id pipe = 112

-- `dev_lookup`
unfoldable pub dev_lookup : ℕ → Ret Device
dev_lookup id =
    if id == dev_id file
    then good file
    else if id == dev_id cons
    then good cons
    else if id == dev_id pipe
    then good pipe
    else bad inval

-- the loop of `fd_alloc` over `n` descriptors from `fdno` on
unfoldable pub alloc_fd : (n fdno : ℕ) → User → Ret ℕ
alloc_fd zero fdno s = bad max_open
alloc_fd (suc n) fdno s =
    let rest = alloc_fd n (fdno + 1) s in
    if va_perm s (index2fd fdno) == 0 then good (index2fd fdno) else rest

-- `fd_alloc`: the address that it stores in `*fd`
unfoldable pub fd_alloc : User → Ret ℕ
unfolding alloc_fd
fd_alloc s = alloc_fd (maxfd - 1) 0 s

-- `fd_close`
unfoldable pub fd_close : ℕ → Cmd User (Unit {0})
unfolding mem_unmap
fd_close fd = do r ← mem_unmap fd; pure tt

-- `fd_lookup`: the address that it stores in `*fd`
unfoldable pub fd_lookup : ℕ → User → Ret ℕ
fd_lookup fdnum s =
    if not (is_minus fdnum) && leb maxfd fdnum
    then bad inval
    else if bit_and (va_perm s (index2fd fdnum)) pte_v == 0
    then bad inval
    else good (index2fd fdnum)

-- `fd2num`, `fd2data` and `num2fd`
unfoldable pub fd2num : ℕ → ℕ
fd2num fd = (fd + word - fdtable) % word / by2pg

unfoldable pub fd2data : ℕ → ℕ
unfolding fd2num
fd2data fd = index2data (fd2num fd)

unfoldable pub num2fd : ℕ → ℕ
num2fd fd = (fd * by2pg + fdtable) % word
