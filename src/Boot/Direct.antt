-- ===== src/Boot/Direct.antt =====
-- The directory of `init_boot_pgdir` of mm/pmap.c translates the addresses of the kernel.
use jos_buaa_a20_porting.Prelude.{
  ℕ, zero, suc, ◌+◌, ◌-◌, ◌*◌, ◌/◌, ◌%◌, ◌^◌, ◌≤◌, ◌<◌, ◌≡◌, ◌≢◌, refl, ap, ◌∙◌, arith, ◌==◌,
  Bool-cases, inl, inr, done, bit_and, bit_or, bit_and_parts, bit_or_parts, bit_and_low,
  bit_and-zero, bit_or-zero, zero-bit_or,
}
use jos_buaa_a20_porting.Mmu.{pdmap, drambase, dramsize, ulim, iovabase, iopabase}
use jos_buaa_a20_porting.Mmu.Fields.{pdx_lem, bit_and_high}
use jos_buaa_a20_porting.Mm.{Mm}
use jos_buaa_a20_porting.Paging.{pde_at, va2pa, load}
use jos_buaa_a20_porting.Boot.{
  pde_super_section_c, super_section_base_mask, pde_section_dev, put, clear_user, map_dram,
  map_devices, init_boot_pgdir,
}

-- the entry for the `m`th megabyte of memory
abbrev dram_entry : ℕ → ℕ
dram_entry m = bit_or (bit_and (m * pdmap + drambase) super_section_base_mask) pde_super_section_c

dram_slot : (pgdir j : ℕ) → j < 1024 → pde_at pgdir (j * pdmap + ulim) ≡ pgdir + 4 * (0x800 + j)
dram_slot pgdir j h = omega (arith, pdx_lem (j * pdmap + ulim) (omega arith))

map_dram-before :
    (pgdir n j a : ℕ) (s : Mm)
    → j + n ≤ 1024
    → a < pgdir + 4 * (0x800 + j)
    → (map_dram pgdir n (j * pdmap) s).mem a ≡ s.mem a
unfolding map_dram
map_dram-before pgdir zero j a s le lt = refl
map_dram-before pgdir (suc n) j a s le lt =
    let slot = dram_slot pgdir j (omega arith) in
    let next : j * pdmap + pdmap ≡ (j + 1) * pdmap = omega arith in
    let away : a ≢ pde_at pgdir (j * pdmap + ulim) = λ e. absurd (omega (arith, e, slot, lt)) in
    let s1 : Mm = put (pde_at pgdir (j * pdmap + ulim)) (dram_entry j) s in
    let kept : s1.mem a ≡ s.mem a = ground (arith, away) in
    ap (λ (i : ℕ). (map_dram pgdir n i s1).mem a) next
    ∙ map_dram-before pgdir n (j + 1) a s1 (omega arith) (omega arith)
    ∙ kept

map_dram-entry :
    (pgdir n j m : ℕ) (s : Mm)
    → j + n ≤ 1024
    → j ≤ m
    → m < j + n
    → (map_dram pgdir n (j * pdmap) s).mem (pgdir + 4 * (0x800 + m)) ≡ dram_entry m
unfolding map_dram
map_dram-entry pgdir zero j m s le lo hi = absurd (omega arith)
map_dram-entry pgdir (suc n) j m s le lo hi =
    let slot = dram_slot pgdir j (omega arith) in
    let next : j * pdmap + pdmap ≡ (j + 1) * pdmap = omega arith in
    let s1 : Mm = put (pde_at pgdir (j * pdmap + ulim)) (dram_entry j) s in
    elim (Bool-cases (j == m)) [
      | inl here ↦
          let at : j ≡ m = ground (arith, here) in
          let set : s1.mem (pgdir + 4 * (0x800 + m)) ≡ dram_entry j = ground (arith, slot, at) in
          ap (λ (i : ℕ). (map_dram pgdir n i s1).mem (pgdir + 4 * (0x800 + m))) next
          ∙ map_dram-before pgdir n (j + 1) (pgdir + 4 * (0x800 + m)) s1 (omega arith)
              (omega (arith, at))
          ∙ set
          ∙ ap dram_entry at
      | inr later ↦
          ap (λ (i : ℕ). (map_dram pgdir n i s1).mem (pgdir + 4 * (0x800 + m))) next
          ∙ map_dram-entry pgdir n (j + 1) m s1 (omega arith) (ground (arith, later)) (omega arith)
    ]

map_devices-before :
    (pgdir n j a : ℕ) (s : Mm)
    → j + n ≤ 16
    → a < pgdir + 4 * (0xC00 + j)
    → (map_devices pgdir n (iopabase + j * pdmap) s).mem a ≡ s.mem a
unfolding map_devices
map_devices-before pgdir zero j a s le lt = refl
map_devices-before pgdir (suc n) j a s le lt =
    let next : iopabase + j * pdmap + pdmap ≡ iopabase + (j + 1) * pdmap = omega arith in
    let slot : pde_at pgdir (iopabase + j * pdmap - iopabase + iovabase) ≡ pgdir + 4 * (0xC00 + j) =
      omega (arith, pdx_lem (iopabase + j * pdmap - iopabase + iovabase) (omega arith)) in
    let away : a ≢ pde_at pgdir (iopabase + j * pdmap - iopabase + iovabase) =
      λ e. absurd (omega (arith, e, slot, lt)) in
    let s1 : Mm =
      put (pde_at pgdir (iopabase + j * pdmap - iopabase + iovabase))
        (bit_or (iopabase + j * pdmap) pde_section_dev) s in
    let kept : s1.mem a ≡ s.mem a = ground (arith, away) in
    ap (λ (i : ℕ). (map_devices pgdir n i s1).mem a) next
    ∙ map_devices-before pgdir n (j + 1) a s1 (omega arith) (omega arith)
    ∙ kept

dram_entry_lem : (m : ℕ) → m < 1024 → dram_entry m ≡ (m / 16 + 64) * 2 ^ 24 + 0x5040A
dram_entry_lem m h =
    let base : bit_and (m * pdmap + drambase) super_section_base_mask ≡ (m / 16 + 64) * 2 ^ 24 + 0 =
      omega (arith, bit_and_high 24 8 (m * pdmap + drambase)) in
    let zero_part : pde_super_section_c ≡ 0 * 2 ^ 24 + 0x5040A = omega arith in
    ap (λ (b : ℕ). bit_or b pde_super_section_c) base
    ∙ ap (λ (c : ℕ). bit_or ((m / 16 + 64) * 2 ^ 24 + 0) c) zero_part
    ∙ bit_or_parts 24 (m / 16 + 64) 0 0 0x5040A (omega arith) (omega arith)
    ∙ omega (arith, bit_or-zero (m / 16 + 64), zero-bit_or 0x5040A)

-- `va2pa` of an address in a section of 16 MB
va2pa_section :
    (s : Mm) (pgdir va q : ℕ)
    → s.mem (pde_at pgdir va) ≡ q * 2 ^ 24 + 0x5040A
    → q < 256
    → va2pa pgdir va s ≡ done (q * 2 ^ 24 + va % 2 ^ 24) s
unfolding va2pa load
va2pa_section s pgdir va q entry small =
    let masked : bit_and (q * 2 ^ 24 + 0x5040A) 0x50402 ≡ 0x50402 =
      bit_and_parts 24 q 0x5040A 0 0x50402 (omega arith) (omega arith)
      ∙ omega (arith, bit_and-zero q) in
    let base : bit_and (q * 2 ^ 24 + 0x5040A) 0xFF000000 ≡ q * 2 ^ 24 + 0 =
      omega (arith, bit_and_high 24 8 (q * 2 ^ 24 + 0x5040A)) in
    let rest : bit_and va 0xFFFFFF ≡ 0 * 2 ^ 24 + va % 2 ^ 24 = omega (arith, bit_and_low 24 va) in
    let sum : bit_or (q * 2 ^ 24 + 0) (0 * 2 ^ 24 + va % 2 ^ 24) ≡ q * 2 ^ 24 + va % 2 ^ 24 =
      bit_or_parts 24 q 0 0 (va % 2 ^ 24) (omega arith) (omega arith)
      ∙ omega (arith, bit_or-zero q, zero-bit_or (va % 2 ^ 24)) in
    rw entry (rw masked (rw base (rw rest (rw sum refl))))

-- With the directory of `init_boot_pgdir` the kernel's address `ULIM + x` is translated to the
-- physical address `DRAMBASE + x`, for all of the memory: as `PADDR` has it.
pub init_boot_pgdir-va2pa :
    (s : Mm) (pgdir x : ℕ)
    → x < dramsize
    → (t : Mm) × (init_boot_pgdir pgdir s ≡ done tt t)
      × (va2pa pgdir (ulim + x) t ≡ done (drambase + x) t)
unfolding init_boot_pgdir
init_boot_pgdir-va2pa s pgdir x h =
    let m : ℕ = x / 2 ^ 20 in
    let u : Mm = clear_user pgdir (ulim / pdmap) 0 s in
    let v : Mm = map_dram pgdir 1024 (0 * pdmap) u in
    let t : Mm = map_devices pgdir 1 (iopabase + 0 * pdmap) v in
    let slot : pde_at pgdir (ulim + x) ≡ pgdir + 4 * (0x800 + m) =
      omega (arith, pdx_lem (ulim + x) (omega arith)) in
    let entry : t.mem (pde_at pgdir (ulim + x)) ≡ (m / 16 + 64) * 2 ^ 24 + 0x5040A =
      ap t.mem slot
      ∙ map_devices-before pgdir 1 0 (pgdir + 4 * (0x800 + m)) v (omega arith) (omega arith)
      ∙ map_dram-entry pgdir 1024 0 m u (omega arith) (omega arith) (omega arith)
      ∙ dram_entry_lem m (omega arith) in
    let value : (m / 16 + 64) * 2 ^ 24 + (ulim + x) % 2 ^ 24 ≡ drambase + x = omega arith in
    (
      t,
      refl,
      va2pa_section t pgdir (ulim + x) (m / 16 + 64) entry (omega arith)
          ∙ ap (λ (a : ℕ). done a t) value,
    )
