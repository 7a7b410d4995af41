-- ===== src/Mmu/Fields.antt =====
-- The fields of an address and of a page table entry, as arithmetic.
use jos_buaa_a20_porting.Prelude.{
  ℕ, ◌+◌, ◌-◌, ◌*◌, ◌/◌, ◌%◌, ◌^◌, ◌≤◌, ◌<◌, ◌≡◌, ap, ◌∙◌, bit_and, bit_or, arith, bit_and_low,
  bit_and_parts, bit_and-lt, bit_or_parts, bit_and-zero, bit_or-zero, zero-bit_or,
}
use mathlib.Core.Path.{ap₂}
use native.Mathlib.Nat.{one-le-pow, div-add-mod', mod-lt}
use jos_buaa_a20_porting.Mmu.{
  word, pdx, ptx, pte_addr, pg_addr_base, pg_addr_offset, rounddown, round, by2pg,
}

pub pdx_lem : (va : ℕ) → va < word → pdx va ≡ va / 0x100000
unfolding pdx
pdx_lem va h = omega (arith, bit_and_low 12 (va / 0x100000))

pub ptx_lem : (va : ℕ) → ptx va ≡ va / 0x1000 % 0x100
unfolding ptx
ptx_lem va = bit_and_low 8 (va / 0x1000)

-- A mask that keeps the `j` digits above the low `k`.
pub bit_and_high : (k j x : ℕ) → bit_and x ((2 ^ j - 1) * 2 ^ k + 0) ≡ x / 2 ^ k % 2 ^ j * 2 ^ k
bit_and_high k j x = omega (
  arith,
  ap (λ (t : ℕ). bit_and t ((2 ^ j - 1) * 2 ^ k + 0)) (div-add-mod' x (2 ^ k)),
  bit_and_parts k (x / 2 ^ k) (x % 2 ^ k) (2 ^ j - 1) 0 (mod-lt x pos) pos,
  bit_and-lt 0 (x % 2 ^ k) 0 (omega arith),
  ap (λ (t : ℕ). t * 2 ^ k) (bit_and_low j (x / 2 ^ k)),
)
  where
    pos : 1 ≤ 2 ^ k
    pos = one-le-pow k 2 (omega arith)

pub pg_addr_base_lem : (x : ℕ) → x < word → pg_addr_base x ≡ x / 4096 * 4096
unfolding pg_addr_base
pg_addr_base_lem x h = omega (arith, bit_and_high 12 20 x)

pub pg_addr_offset_lem : (x : ℕ) → pg_addr_offset x ≡ x % 4096
unfolding pg_addr_offset
pg_addr_offset_lem x = bit_and_low 12 x

pub pte_addr_lem : (x : ℕ) → x < word → pte_addr x ≡ x / 1024 * 1024
unfolding pte_addr
pte_addr_lem x h = omega (arith, bit_and_high 10 22 x)

pub rounddown_page : (a : ℕ) → a < word → rounddown a by2pg ≡ a / 4096 * 4096
unfolding rounddown
rounddown_page a h = omega (arith, bit_and_high 12 20 a)

pub round_page : (a : ℕ) → a + 4095 < word → round a by2pg ≡ (a + 4095) / 4096 * 4096
unfolding round
round_page a h =
    let e : (a + 4096 - 1) % word ≡ a + 4095 = omega arith in
    ap (λ (t : ℕ). bit_and t 0xFFFFF000) e ∙ omega (arith, bit_and_high 12 20 (a + 4095))

-- A virtual address is made of its directory index, its table index and its offset.
pub va_fields : (va : ℕ) → va < word → pdx va * 0x100000 + ptx va * 4096 + pg_addr_offset va ≡ va
va_fields va h = omega (arith, pdx_lem va h, ptx_lem va, pg_addr_offset_lem va)

-- `|` of a page's address and permission bits is their sum.
pub bit_or_page : (a perm : ℕ) → perm < 4096 → bit_or (a * 4096) perm ≡ a * 4096 + perm
bit_or_page a perm h =
    ap₂ bit_or left right
    ∙ omega (arith, bit_or_parts 12 a 0 0 perm (omega arith) h, bit_or-zero a, zero-bit_or perm)
  where
    left : a * 4096 ≡ a * 2 ^ 12 + 0
    left = omega arith

    right : perm ≡ 0 * 2 ^ 12 + perm
    right = omega arith

-- A mask of permission bits reads the low field of an entry.
pub bit_and_page : (a b m : ℕ) → b < 4096 → m < 4096 → bit_and (a * 4096 + b) m ≡ bit_and b m
bit_and_page a b m hb hm =
    ap (bit_and (a * 4096 + b)) right
    ∙ omega (arith, bit_and_parts 12 a b 0 m hb hm, ap (λ (t : ℕ). t * 4096) (bit_and-zero a))
  where
    right : m ≡ 0 * 2 ^ 12 + m
    right = omega arith
