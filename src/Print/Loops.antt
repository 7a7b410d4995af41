-- ===== src/Print/Loops.antt =====
-- The loops of lib/print.c that fill, copy and reverse a buffer, position by position.
use jos_buaa_a20_porting.Prelude.{
  ℕ, zero, suc, ◌+◌, ◌-◌, ◌*◌, ◌≤◌, ◌≡◌, ◌&&◌, List, [], ◌∷◌, arith, leb, ltb, ◌==◌, if◌then◌else◌,
  length, get_or, Bool-cases, inl, inr, ap, ltb→lt,
}
use jos_buaa_a20_porting.Queue.{update}
use jos_buaa_a20_porting.Print.{Buffer, fill, copy_string, reverse_loop}

pub fill_lem :
    (buf : Buffer) (a n c j : ℕ)
    → fill buf a n c j ≡ (if leb a j && ltb j (a + n) then c else buf j)
unfolding fill
fill_lem buf a zero c j = ground arith
fill_lem buf a (suc n) c j = ground (arith, fill_lem (update buf a c) (a + 1) n c j)

pub copy_string_lem :
    (buf : Buffer) (a : ℕ) (s : List ℕ) (j : ℕ)
    → copy_string buf a s j
      ≡ (if leb a j && ltb j (a + length s) then get_or s (j - a) 0 else buf j)
unfolding copy_string
copy_string_lem buf a [] j = ground arith
copy_string_lem buf a (c ∷ s) j = elim (Bool-cases (ltb a j)) [
  | inl after ↦
      let e : j - a ≡ suc (j - (a + 1)) = omega (arith, ltb→lt a j after) in
      ground
        (arith, copy_string_lem (update buf a c) (a + 1) s j, ap (λ (t : ℕ). get_or (c ∷ s) t 0) e)
  | inr not_after ↦ elim (Bool-cases (j == a)) [
    | inl here ↦
        let e : j - a ≡ 0 = ground arith in
        ground (
          arith,
          copy_string_lem (update buf a c) (a + 1) s j,
          ap (λ (t : ℕ). get_or (c ∷ s) t 0) e,
        )
    | inr other ↦ ground (arith, copy_string_lem (update buf a c) (a + 1) s j)
  ]
]

-- The loop that reverses moves the character at `begin + end - j` to `j`, for every `j` between
-- them, and no other.
pub reverse_loop_lem :
    (fuel begin end : ℕ) (buf : Buffer) (j : ℕ)
    → end ≤ begin + 2 * fuel
    → reverse_loop fuel begin end buf j
      ≡ (if leb begin j && leb j end then buf (begin + end - j) else buf j)
unfolding reverse_loop
reverse_loop_lem zero begin end buf j h = elim (Bool-cases (leb begin j && leb j end)) [
  | inl inside ↦ let e : begin + end - j ≡ j = ground arith in ground (arith, ap buf e)
  | inr outside ↦ ground arith
]
reverse_loop_lem (suc fuel) begin end buf j h =
    let swapped : Buffer = update (update buf begin (buf end)) end (buf begin) in
    let ih = reverse_loop_lem fuel (begin + 1) (end - 1) swapped j in
    elim (Bool-cases (ltb begin end)) [
      | inl more ↦
          let e : begin + 1 + (end - 1) - j ≡ begin + end - j =
            omega (arith, ltb→lt begin end more) in
          elim (Bool-cases (leb begin j && leb j end)) [
            | inl inside ↦ elim (Bool-cases (j == begin)) [
              | inl first ↦
                  let f : begin + end - j ≡ end = ground arith in ground (arith, ih, ap buf f)
              | inr not_first ↦ elim (Bool-cases (j == end)) [
                | inl last ↦
                    let f : begin + end - j ≡ begin = ground arith in ground (arith, ih, ap buf f)
                | inr inner ↦ ground (arith, ih, ap swapped e)
              ]
            ]
            | inr outside ↦ ground (arith, ih)
          ]
      | inr over ↦ elim (Bool-cases (leb begin j && leb j end)) [
        | inl inside ↦ let e : begin + end - j ≡ j = ground arith in ground (arith, ap buf e)
        | inr outside ↦ ground arith
      ]
    ]
