-- ===== src/Envs/Ids.antt =====
-- Identifiers of environments: `mkenvid`, `ENVX` and `envid2env` of lib/env.c and include/env.h.
use mathlib.Core.Path.{ap₂, subst}
use jos_buaa_a20_porting.Prelude.{
  ℕ, ◌+◌, ◌*◌, ◌/◌, ◌%◌, ◌^◌, ◌<◌, ◌≡◌, ◌≢◌, ◌∙◌, refl, Bool, true, false, some, arith, ◌==◌,
  Bool-cases, Option-cases, bit_or, bit_and, bit_or_parts, bit_or-zero, zero-bit_or, bit_and_low,
  done, inl, inr, ◌⊎◌, ◌↔◌,
}
use jos_buaa_a20_porting.Mmu.{word}
use jos_buaa_a20_porting.Mm.{good}
use jos_buaa_a20_porting.Kernel.{Kernel, env_free, envx}
use jos_buaa_a20_porting.Envs.{mkenvid, check_env, envid2env}

-- the identifier that the next `mkenvid` gives to the environment at index `e`
abbrev pub next_id : Kernel → ℕ → ℕ
next_id k e = bit_or (e * 2 ^ 8) (bit_and ((k.next_env_id + 1) % word) 0xFF)

pub next_id_lem : (k : Kernel) (e : ℕ) → next_id k e ≡ e * 256 + (k.next_env_id + 1) % 256
next_id_lem k e =
    ap₂ bit_or left right
    ∙ omega (
      arith,
      bit_or_parts 8 e 0 0 ((k.next_env_id + 1) % 256) (omega arith) (omega arith),
      bit_or-zero e,
      zero-bit_or ((k.next_env_id + 1) % 256),
    )
  where
    left : e * 2 ^ 8 ≡ e * 2 ^ 8 + 0
    left = omega arith

    right : bit_and ((k.next_env_id + 1) % word) 0xFF ≡ 0 * 2 ^ 8 + (k.next_env_id + 1) % 256
    right = omega (arith, bit_and_low 8 ((k.next_env_id + 1) % word))

pub envx_lem : (id : ℕ) → envx id ≡ id / 256 % 1024
unfolding envx
envx_lem id = bit_and_low 10 (id / 2 ^ 8)

-- `mkenvid` of the environment at index e gives an identifier that `ENVX` maps back to e, whose
-- low byte is the count of identifiers given so far, and counts it.
pub mkenvid-envx :
    (k : Kernel) (e : ℕ)
    → e < 1024
    → (k' : Kernel) × (mkenvid e k ≡ done (next_id k e) k')
      × (envx (next_id k e) ≡ e)
      × (next_id k e % 256 ≡ (k.next_env_id + 1) % 256)
      × (k'.next_env_id ≡ (k.next_env_id + 1) % word)
unfolding mkenvid
mkenvid-envx k e h = (
  record k { next_env_id = (k.next_env_id + 1) % word },
  refl,
  omega (arith, next_id_lem k e, envx_lem (next_id k e)),
  omega (arith, next_id_lem k e),
  refl,
)

-- Every 256th identifier given to the environment at index 0 is 0, which means the current
-- environment to every call that takes one.
pub next_id-zero : (k : Kernel) → k.next_env_id % 256 ≡ 255 → next_id k 0 ≡ 0
next_id-zero k h = omega (arith, next_id_lem k 0)

-- what `envid2env` guarantees of the environment that it finds
pub record Found (k : Kernel) (envid e : ℕ) (checkperm : Bool) : Type 0 where
  pub used : (k.envs e).env_status ≢ env_free
  pub current : envid ≡ 0 → k.curenv ≡ some e
  pub named : envid ≢ 0 → ((k.envs e).env_id ≡ envid) × (e ≡ envx envid)
  pub allowed :
      checkperm ≡ true
      → (c : ℕ) × (k.curenv ≡ some c) × ((e ≡ c) ⊎ ((k.envs e).env_parent_id ≡ (k.envs c).env_id))

-- what `check_env` has tested when it accepts the environment `i`
check_env-good :
    (k : Kernel) (envid i e : ℕ) (checkperm : Bool) (k' : Kernel)
    → check_env envid i checkperm k ≡ done (good e) k'
    → (e ≡ i)
      × (k' ≡ k)
      × ((k.envs i).env_status ≢ env_free)
      × ((envid ≡ 0) ⊎ ((k.envs i).env_id ≡ envid))
unfolding check_env
check_env-good k envid i e checkperm k' h = (ground arith, ground arith, ground arith, ground arith)

check_env-allowed :
    (k : Kernel) (envid i e : ℕ) (k' : Kernel)
    → check_env envid i true k ≡ done (good e) k'
    → (c : ℕ) × (k.curenv ≡ some c) × ((i ≡ c) ⊎ ((k.envs i).env_parent_id ≡ (k.envs c).env_id))
unfolding check_env
check_env-allowed k envid i e k' h = elim (Option-cases k.curenv) [
  | inl n ↦ ground arith
  | inr (c, q) ↦ (c, q, ground arith)
]

check-Found :
    (k : Kernel) (envid i e : ℕ) (checkperm : Bool) (k' : Kernel)
    → check_env envid i checkperm k ≡ done (good e) k'
    → (envid ≡ 0 → k.curenv ≡ some i)
    → (envid ≢ 0 → i ≡ envx envid)
    → Found k envid e checkperm
check-Found k envid i e checkperm k' h cur at =
    let (same, _, used, named) = check_env-good k envid i e checkperm k' h in
    record {
      used = rw same used;
      current = λ z. rw same (cur z);
      named = λ nz. (ground arith, rw same (at nz));
      allowed = λ p. rw same (
          check_env-allowed k envid i e k'
            (subst (λ b. check_env envid i b k ≡ done (good e) k') p h));
    }

envid2env_sound :
    (k : Kernel) (envid e : ℕ) (checkperm : Bool)
    → envid2env envid checkperm k ≡ done (good e) k
    → Found k envid e checkperm
unfolding envid2env
envid2env_sound k envid e checkperm h = elim (Bool-cases (envid == 0)) [
  | inl z ↦ elim (Option-cases k.curenv) [
    | inl n ↦ absurd (ground arith)
    | inr (c, q) ↦
        check-Found k envid c e checkperm k (ground arith) (λ _. q) (λ nz. absurd (ground arith))
  ]
  | inr nz ↦
      check-Found k envid (envx envid) e checkperm k (ground arith) (λ z. absurd (ground arith))
        (λ _. refl)
]

check_complete :
    (k : Kernel) (envid e : ℕ) (checkperm : Bool)
    → Found k envid e checkperm
    → check_env envid e checkperm k ≡ done (good e) k
unfolding check_env
check_complete k envid e false f = elim (Bool-cases (envid == 0)) [
  | inl z ↦ ground (arith, f.used)
  | inr nz ↦ ground (arith, f.used, f.named (ground arith))
]
check_complete k envid e true f =
    let (c, q, rel) = f.allowed refl in
    elim (Bool-cases (envid == 0)) [
      | inl z ↦ ground (arith, f.used, q, rel)
      | inr nz ↦ ground (arith, f.used, f.named (ground arith), q, rel)
    ]

envid2env_complete :
    (k : Kernel) (envid e : ℕ) (checkperm : Bool)
    → Found k envid e checkperm
    → envid2env envid checkperm k ≡ done (good e) k
unfolding envid2env
envid2env_complete k envid e checkperm f = elim (Bool-cases (envid == 0)) [
  | inl z ↦ ground (arith, f.current (ground arith), check_complete k envid e checkperm f)
  | inr nz ↦ ground (arith, f.named (ground arith), check_complete k envid e checkperm f)
]

-- `envid2env` finds the environment e exactly when e is not free; it is the current one if the
-- identifier is 0, and otherwise stands at the index of the identifier and bears it; and, where
-- permission is checked, e is the current environment or a child of it.
pub envid2env-Found :
    (k : Kernel) (envid e : ℕ) (checkperm : Bool)
    → (envid2env envid checkperm k ≡ done (good e) k) ↔ Found k envid e checkperm
envid2env-Found k envid e checkperm =
    (envid2env_sound k envid e checkperm, envid2env_complete k envid e checkperm)
