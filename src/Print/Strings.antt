-- ===== src/Print/Strings.antt =====
-- `PrintString` and `PrintChar` of lib/print.c, position by position.
use jos_buaa_a20_porting.Prelude.{
  ℕ, ◌-◌, ◌≤◌, ◌<◌, ◌≡◌, refl, Bool, true, false, List, [], ◌∷◌, arith, ltb, if◌then◌else◌, length,
  get_or,
}
use jos_buaa_a20_porting.Queue.{update}
use jos_buaa_a20_porting.Print.{Buffer, space, fill, copy_string, print_string, print_char}
use jos_buaa_a20_porting.Print.Loops.{fill_lem, copy_string_lem}

-- the characters of `s` in a field of `len`, on the left or on the right
abbrev pub in_field : (s : List ℕ) (len : ℕ) (ladjust : Bool) (j : ℕ) → ℕ
in_field s len true j = if ltb j (length s) then get_or s j 0 else space
in_field s len false j = if ltb j (len - length s) then space else get_or s (j - (len - length s)) 0

-- `PrintString` returns the larger of the width and the string's length, leaves in the buffer the
-- string with spaces on the side that the format asks for, and writes nothing behind them.
pub print_string_lem :
    (buf : Buffer) (s : List ℕ) (width : ℕ) (ladjust : Bool)
    → (buf' : Buffer) × (len : ℕ) × (print_string buf s width ladjust ≡ (buf', len))
      × (len ≡ (if ltb width (length s) then length s else width))
      × ((j : ℕ) → j < len → buf' j ≡ in_field s len ladjust j)
      × ((j : ℕ) → len ≤ j → buf' j ≡ buf j)
unfolding print_string
print_string_lem buf s width true =
    let n : ℕ = length s in
    let len : ℕ = if ltb width n then n else width in
    let done_buf : Buffer = copy_string buf 0 s in
    (
      fill done_buf n (len - n) space,
      len,
      refl,
      refl,
      λ j lt. ground (arith, fill_lem done_buf n (len - n) space j, copy_string_lem buf 0 s j),
      λ j le. ground (arith, fill_lem done_buf n (len - n) space j, copy_string_lem buf 0 s j),
    )
print_string_lem buf s width false =
    let n : ℕ = length s in
    let len : ℕ = if ltb width n then n else width in
    let padded : Buffer = fill buf 0 (len - n) space in
    (
      copy_string padded (len - n) s,
      len,
      refl,
      refl,
      λ j lt.
          ground (arith, fill_lem buf 0 (len - n) space j, copy_string_lem padded (len - n) s j),
      λ j le.
          ground (arith, fill_lem buf 0 (len - n) space j, copy_string_lem padded (len - n) s j),
    )

-- `PrintChar` is `PrintString` of the one character.
pub print_char-print_string :
    (buf : Buffer) (c width j : ℕ) (ladjust : Bool)
    → ((print_char buf c width ladjust).1 ≡ (print_string buf (c ∷ []) width ladjust).1)
      × ((print_char buf c width ladjust).0 j ≡ (print_string buf (c ∷ []) width ladjust).0 j)
unfolding print_char print_string
print_char-print_string buf c width j true =
    (ground arith, ground (arith, fill_lem (update buf 0 c) 1 (width - 1) space j))
print_char-print_string buf c width j false =
    (ground arith, ground (arith, fill_lem buf 0 (width - 1) space j))
