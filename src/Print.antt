-- ===== src/Print.antt =====
-- lib/print.c: the formatted output of the kernel. A character is its code, a buffer a function
-- from positions to characters, and a string the list of its characters without the NUL.
-- An `int` width is a natural number: the code takes no care of one that overflows.
pub mod Loops
pub mod Digits
pub mod Number
pub mod Strings
use jos_buaa_a20_porting.Prelude.{
  ℕ, zero, suc, ◌+◌, ◌-◌, ◌*◌, ◌/◌, ◌%◌, ◌^◌, Bool, true, false, not, ◌&&◌, ◌||◌, Option, none,
  some, List, [], ◌∷◌, ◌++◌, leb, ltb, ◌==◌, if◌then◌else◌, length, get_or, Run, Stop, done, halt,
  panic, out_of_fuel, Cmd, pure, stop, modify, ◌>>=◌, ◌>>◌,
}
use jos_buaa_a20_porting.Mmu.{word}
use jos_buaa_a20_porting.Queue.{update}

abbrev pub Buffer : Type 0
Buffer = ℕ → ℕ

abbrev pub space : ℕ
space = 32

abbrev pub percent : ℕ
percent = 37

abbrev pub minus : ℕ
minus = 45

abbrev pub digit_zero : ℕ
digit_zero = 48

-- `LP_MAX_BUF`
abbrev pub lp_max_buf : ℕ
lp_max_buf = 80

-- `for (i = a; i < a + n; i++) buf[i] = c`
unfoldable pub fill : Buffer → (a n c : ℕ) → Buffer
fill buf a zero c = buf
fill buf a (suc n) c = fill (update buf a c) (a + 1) n c

-- the same loop with `buf[i] = s[i - a]`
unfoldable pub copy_string : Buffer → (a : ℕ) → List ℕ → Buffer
copy_string buf a [] = buf
copy_string buf a (c ∷ s) = copy_string (update buf a c) (a + 1) s

-- the loop that reverses `buf` between `begin` and `end`
unfoldable pub reverse_loop : (fuel begin end : ℕ) → Buffer → Buffer
reverse_loop zero begin end buf = buf
reverse_loop (suc fuel) begin end buf =
    let swapped = update (update buf begin (buf end)) end (buf begin) in
    let rest = reverse_loop fuel (begin + 1) (end - 1) swapped in
    if ltb begin end then rest else buf

-- the character of a digit
abbrev pub digit_char : (upcase : Bool) → ℕ → ℕ
digit_char upcase tmp =
    if leb tmp 9 then digit_zero + tmp else if upcase then 65 + tmp - 10 else 97 + tmp - 10

-- the `do` loop of `PrintNum`, from position `p` on: the buffer and where the digits end
unfoldable pub put_digits :
    (fuel base : ℕ) → (upcase : Bool) → Buffer → (p u : ℕ) → Option (Buffer × ℕ)
put_digits zero base upcase buf p u = none
put_digits (suc fuel) base upcase buf p u =
    let buf' = update buf p (digit_char upcase (u % base)) in
    let rest = put_digits fuel base upcase buf' (p + 1) (u / base) in
    if u / base == 0 then some (buf', p + 1) else rest

-- the sign and the padding behind the digits in the buffer, which end at `p`, up to `len`
unfoldable pub pad_number :
    Buffer → (p : ℕ) → (neg : Bool) → (len : ℕ) → (ladjust : Bool) → (pad : ℕ) → Buffer
unfolding fill
pad_number buf p neg len ladjust pad =
    let signed = if neg then update buf p minus else buf in
    let actual = if neg then p + 1 else p in
    if neg && (not ladjust && pad == digit_zero)
    then update (fill signed (actual - 1) (len - actual) pad) (len - 1) minus
    else fill signed actual (len - actual) pad

-- `PrintNum` behind its first loop: sign, padding and reversal
unfoldable pub lay_out :
    Buffer → (p : ℕ) → (neg : Bool) → (width : ℕ) → (ladjust : Bool) → (padc : ℕ) → Buffer × ℕ
unfolding pad_number reverse_loop
lay_out buf p neg width ladjust padc =
    let actual = if neg then p + 1 else p in
    let len = if ltb width actual then actual else width in
    let pad = if ladjust then space else padc in
    let padded = pad_number buf p neg len ladjust pad in
    let end = if ladjust then actual - 1 else len - 1 in (reverse_loop len 0 end padded, len)

-- `PrintNum`: the buffer and the length that it returns. 32 rounds are enough for a word.
unfoldable pub print_num :
    Buffer
    → (u base : ℕ) → (neg : Bool) → (width : ℕ) → (ladjust : Bool) → (padc : ℕ) → (upcase : Bool)
    → Option (Buffer × ℕ)
print_num buf u base neg width ladjust padc upcase = elim (put_digits 32 base upcase buf 0 u) [
  | none ↦ none
  | some (digits, p) ↦ some (lay_out digits p neg width ladjust padc)
]

-- `PrintChar`
unfoldable pub print_char : Buffer → (c width : ℕ) → (ladjust : Bool) → Buffer × ℕ
unfolding fill
print_char buf c width ladjust =
    let len = if ltb width 1 then 1 else width in
    if ladjust
    then (fill (update buf 0 c) 1 (len - 1) space, len)
    else (update (fill buf 0 (len - 1) space) (len - 1) c, len)

-- `PrintString`
unfoldable pub print_string : Buffer → (s : List ℕ) → (width : ℕ) → (ladjust : Bool) → Buffer × ℕ
unfolding fill copy_string
print_string buf s width ladjust =
    let n = length s in
    let len = if ltb width n then n else width in
    if ladjust
    then (fill (copy_string buf 0 s) n (len - n) space, len)
    else (copy_string (fill buf 0 (len - n) space) (len - n) s, len)
