-- ===== src/Envs/Copy.antt =====
-- `bcopy` of init/init.c byte by byte on the kernel's memory of words, and what it does on whole
-- words.
use jos_buaa_a20_porting.Prelude.{
  ℕ, zero, suc, ◌+◌, ◌-◌, ◌*◌, ◌/◌, ◌%◌, ◌^◌, ◌≤◌, ◌<◌, ◌≡◌, ◌≢◌, refl, ap, ◌∙◌, true, false, ◌&&◌,
  ◌⊎◌, arith, ◌==◌, leb, ltb, if◌then◌else◌, Bool-cases, inl, inr,
}
use mathlib.Core.Path.{fun_ext}
use jos_buaa_a20_porting.Mmu.{word}
use jos_buaa_a20_porting.Queue.{update}
use jos_buaa_a20_porting.Envs.{byte_at, put_byte, copy_bytes}

-- the words of a memory between two ranges of whole words
abbrev pub copy_words : (ℕ → ℕ) → ℕ → ℕ → ℕ → ℕ → ℕ
copy_words mem src dst n a =
    if a % 4 == 0 && (leb dst a && ltb a (dst + n)) then mem (src + (a - dst)) else mem a

abbrev pub AreWords : (ℕ → ℕ) → Type 0
AreWords mem = (a : ℕ) → mem a < word

byte_at-offset :
    (mem : ℕ → ℕ) (a k : ℕ) → a % 4 ≡ 0 → k < 4 → byte_at mem (a + k) ≡ mem a / 2 ^ (8 * k) % 256
unfolding byte_at
byte_at-offset mem a k h lt =
    let m : (a + k) % 4 ≡ k = omega (arith, h, lt) in
    let b : a + k - k ≡ a = omega arith in rw m (rw b refl)

put_byte-offset :
    (mem : ℕ → ℕ) (a k v : ℕ)
    → a % 4 ≡ 0
    → k < 4
    → put_byte mem (a + k) v
      ≡ update mem a (mem a - mem a / 2 ^ (8 * k) % 256 * 2 ^ (8 * k) + v * 2 ^ (8 * k))
unfolding put_byte byte_at
put_byte-offset mem a k v h lt =
    let m : (a + k) % 4 ≡ k = omega (arith, h, lt) in
    let b : a + k - k ≡ a = omega arith in rw m (rw b refl)

-- a word with the byte at `k` taken from another word
abbrev with_byte : (k o w : ℕ) → ℕ
with_byte k o w = o - o / 2 ^ (8 * k) % 256 * 2 ^ (8 * k) + w / 2 ^ (8 * k) % 256 * 2 ^ (8 * k)

four_bytes :
    (o w : ℕ)
    → o < word
    → w < word
    → with_byte 3 (with_byte 2 (with_byte 1 (with_byte 0 o w) w) w) w ≡ w
four_bytes o w ho hw =
    let o1 : ℕ = with_byte 0 o w in
    let h1 : (o1 < word) × (o1 % 256 ≡ w % 256) = first o w ho in
    let o2 : ℕ = with_byte 1 o1 w in
    let h2 : (o2 < word) × (o2 % 65536 ≡ w % 65536) = second o1 w h1.0 h1.1 in
    let o3 : ℕ = with_byte 2 o2 w in
    let h3 : (o3 < word) × (o3 % 16777216 ≡ w % 16777216) = third o2 w h2.0 h2.1 in
    fourth o3 w h3.0 hw h3.1
  where
    first : (o w : ℕ) → o < word → (with_byte 0 o w < word) × (with_byte 0 o w % 256 ≡ w % 256)
    first o w h = (omega arith, omega arith)

    second :
        (o w : ℕ)
        → o < word
        → o % 256 ≡ w % 256
        → (with_byte 1 o w < word) × (with_byte 1 o w % 65536 ≡ w % 65536)
    second o w h low = (omega arith, omega arith)

    third :
        (o w : ℕ)
        → o < word
        → o % 65536 ≡ w % 65536
        → (with_byte 2 o w < word) × (with_byte 2 o w % 16777216 ≡ w % 16777216)
    third o w h low = (omega arith, omega arith)

    fourth : (o w : ℕ) → o < word → w < word → o % 16777216 ≡ w % 16777216 → with_byte 3 o w ≡ w
    fourth o w h hw low = omega arith

-- one byte of a word
step_byte :
    (mem : ℕ → ℕ) (src dst k o : ℕ)
    → src % 4 ≡ 0
    → dst % 4 ≡ 0
    → src ≢ dst
    → k < 4
    → put_byte (update mem dst o) (dst + k) (byte_at (update mem dst o) (src + k))
      ≡ update mem dst (with_byte k o (mem src))
step_byte mem src dst k o hs hd ne lt =
    let m : ℕ → ℕ = update mem dst o in
    let read : m src ≡ mem src = ground arith in
    let own : m dst ≡ o = ground arith in
    let byte : byte_at m (src + k) ≡ mem src / 2 ^ (8 * k) % 256 =
      byte_at-offset m src k hs lt ∙ ap (λ (w : ℕ). w / 2 ^ (8 * k) % 256) read in
    put_byte-offset m dst k (byte_at m (src + k)) hd lt
    ∙ ap
        (λ (v : ℕ).
          update m dst (m dst - m dst / 2 ^ (8 * k) % 256 * 2 ^ (8 * k) + v * 2 ^ (8 * k)))
        byte
    ∙ ap
        (λ (x : ℕ).
          update m dst
            (x - x / 2 ^ (8 * k) % 256 * 2 ^ (8 * k) + mem src / 2 ^ (8 * k) % 256 * 2 ^ (8 * k)))
        own
    ∙ fun_ext (λ a. ground arith)

-- a round of the copy at byte `k` of a word
copy_step :
    (mem : ℕ → ℕ) (src dst k o n : ℕ)
    → src % 4 ≡ 0
    → dst % 4 ≡ 0
    → src ≢ dst
    → k < 4
    → copy_bytes (update mem dst o) (src + k) (dst + k) (suc n)
      ≡ copy_bytes (update mem dst (with_byte k o (mem src))) (src + (k + 1)) (dst + (k + 1)) n
unfolding copy_bytes
copy_step mem src dst k o n hs hd ne lt =
    let from : src + k + 1 ≡ src + (k + 1) = omega arith in
    let to : dst + k + 1 ≡ dst + (k + 1) = omega arith in
    ap (λ (m : ℕ → ℕ). copy_bytes m (src + k + 1) (dst + k + 1) n)
      (step_byte mem src dst k o hs hd ne lt)
    ∙ ap (λ (x : ℕ). copy_bytes (update mem dst (with_byte k o (mem src))) x (dst + k + 1) n) from
    ∙ ap (λ (y : ℕ). copy_bytes (update mem dst (with_byte k o (mem src))) (src + (k + 1)) y n) to

-- four rounds copy a word
copy_word :
    (mem : ℕ → ℕ) (src dst n : ℕ)
    → src % 4 ≡ 0
    → dst % 4 ≡ 0
    → src ≢ dst
    → AreWords mem
    → copy_bytes mem src dst (suc (suc (suc (suc n))))
      ≡ copy_bytes (update mem dst (mem src)) (src + 4) (dst + 4) n
copy_word mem src dst n hs hd ne words =
    let w : ℕ = mem src in
    let o : ℕ = mem dst in
    let o1 : ℕ = with_byte 0 o w in
    let o2 : ℕ = with_byte 1 o1 w in
    let o3 : ℕ = with_byte 2 o2 w in
    let start : mem ≡ update mem dst o = fun_ext (λ a. ground arith) in
    let from : src ≡ src + 0 = omega arith in
    let to : dst ≡ dst + 0 = omega arith in
    ap (λ (m : ℕ → ℕ). copy_bytes m src dst (suc (suc (suc (suc n))))) start
    ∙ ap (λ (x : ℕ). copy_bytes (update mem dst o) x dst (suc (suc (suc (suc n))))) from
    ∙ ap (λ (y : ℕ). copy_bytes (update mem dst o) (src + 0) y (suc (suc (suc (suc n))))) to
    ∙ copy_step mem src dst 0 o (suc (suc (suc n))) hs hd ne (omega arith)
    ∙ copy_step mem src dst 1 o1 (suc (suc n)) hs hd ne (omega arith)
    ∙ copy_step mem src dst 2 o2 (suc n) hs hd ne (omega arith)
    ∙ copy_step mem src dst 3 o3 n hs hd ne (omega arith)
    ∙ ap (λ (x : ℕ). copy_bytes (update mem dst x) (src + 4) (dst + 4) n)
        (four_bytes o w (words dst) (words src))

-- the first word of a copy, and the others
words_step :
    (mem : ℕ → ℕ) (src dst m a : ℕ)
    → dst % 4 ≡ 0
    → (src + 4 * suc m ≤ dst) ⊎ (dst + 4 * suc m ≤ src)
    → copy_words (update mem dst (mem src)) (src + 4) (dst + 4) (4 * m) a
      ≡ copy_words mem src dst (4 * suc m) a
words_step mem src dst m a hd apart = elim (Bool-cases (a % 4 == 0)) [
  | inr off ↦ rw off (ground (arith, off))
  | inl on ↦ elim (Bool-cases (leb (dst + 4) a && ltb a (dst + 4 + 4 * m))) [
    | inl later ↦
        let within : (leb dst a && ltb a (dst + 4 * suc m)) ≡ true = ground (arith, later) in
        let at : src + 4 + (a - (dst + 4)) ≡ src + (a - dst) = ground (arith, later) in
        rw on (rw later (rw within (rw at (ground (arith, later, apart)))))
    | inr not_later ↦ elim (Bool-cases (a == dst)) [
      | inl first ↦
          let within : (leb dst a && ltb a (dst + 4 * suc m)) ≡ true = ground (arith, first) in
          let at : src + (a - dst) ≡ src = ground (arith, first) in
          rw on (rw not_later (rw within (rw at (rw first refl))))
      | inr other ↦
          let out : (leb dst a && ltb a (dst + 4 * suc m)) ≡ false =
            ground (arith, other, not_later, on, hd) in
          rw on (rw not_later (rw out (rw other refl)))
    ]
  ]
]

-- Between ranges of whole words that do not overlap, `memcpy` copies the words.
pub copy_bytes-copy_words :
    (m : ℕ) (mem : ℕ → ℕ) (src dst : ℕ)
    → src % 4 ≡ 0
    → dst % 4 ≡ 0
    → (src + 4 * m ≤ dst) ⊎ (dst + 4 * m ≤ src)
    → AreWords mem
    → copy_bytes mem src dst (4 * m) ≡ copy_words mem src dst (4 * m)
unfolding copy_bytes
copy_bytes-copy_words zero mem src dst hs hd apart words = fun_ext (λ a. ground arith)
copy_bytes-copy_words (suc m) mem src dst hs hd apart words =
    let count : 4 * suc m ≡ suc (suc (suc (suc (4 * m)))) = omega arith in
    let rest : (src + 4 + 4 * m ≤ dst + 4) ⊎ (dst + 4 + 4 * m ≤ src + 4) = ground (arith, apart) in
    let ne : src ≢ dst = ground (arith, apart) in
    ap (copy_bytes mem src dst) count
    ∙ copy_word mem src dst (4 * m) hs hd ne words
    ∙ copy_bytes-copy_words m (update mem dst (mem src)) (src + 4) (dst + 4) (omega (arith, hs))
        (omega (arith, hd)) rest (λ a. ground (arith, words a, words src))
    ∙ fun_ext (λ a. words_step mem src dst m a hd apart)
