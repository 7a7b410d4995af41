-- ===== src/Format.antt =====
-- `lp_Print` of lib/print.c: the format string is read and its directives are carried out. A
-- `va_list` is the list of the arguments that are left. The calls of `output` are recorded, one
-- list of characters for each. Behind the message of a fatal error the code spins for ever: the run
-- is `left` there, in the state with the message, and does not come back.
pub mod Text
pub mod Number
pub mod Scan
pub mod Fuel
use jos_buaa_a20_porting.Prelude.{
  ℕ, zero, suc, ◌+◌, ◌-◌, ◌*◌, ◌%◌, ◌^◌, Bool, true, false, ◌&&◌, ◌||◌, Option, none, some, List,
  [], ◌∷◌, ◌++◌, leb, ltb, ◌==◌, if◌then◌else◌, length, Run, Cmd, pure, stop, gets, modify, leave,
  bad_pointer, out_of_fuel, ◌>>=◌, ◌>>◌,
}
use jos_buaa_a20_porting.Mmu.{word}
use jos_buaa_a20_porting.Print.{
  Buffer, space, percent, minus, digit_zero, lp_max_buf, print_num, print_char, print_string,
}

-- an argument: the bit pattern of an `int` or `long`, or a string
pub data Arg : Type 0 where
  int : ℕ → Arg
  str : List ℕ → Arg

-- the calls of `output` so far, and `buf`, whose contents stay from one directive to the next
pub record Printer : Type 0 where
  pub calls : List (List ℕ)
  pub buf : Buffer

-- what stands between `%` and the letter; the code reads `prec` and uses it nowhere
pub record Directive : Type 0 where
  pub width : ℕ
  pub prec : Option ℕ
  pub ladjust : Bool
  pub padc : ℕ

-- `theFatalMsg`: "fatal error in lp_Print!"
abbrev pub fatal_msg : List ℕ
fatal_msg =
    102 ∷ 97 ∷ 116 ∷ 97 ∷ 108 ∷ 32 ∷ 101 ∷ 114 ∷ 114 ∷ 111 ∷ 114 ∷ 32 ∷ 105 ∷ 110 ∷ 32 ∷ 108 ∷ 112
    ∷ 95 ∷ 80 ∷ 114 ∷ 105 ∷ 110 ∷ 116 ∷ 33 ∷ []

-- a call of `output`
abbrev pub put : List ℕ → Printer → Printer
put s p = record p { calls = p.calls ++ (s ∷ []) }

-- the macro `OUTPUT`; its endless loop behind the message is left and never comes back
unfoldable pub output : List ℕ → Cmd Printer (Unit {0})
output s = if ltb lp_max_buf (length s) then (do modify (put fatal_msg); leave) else modify (put s)

-- the first `n` characters of a buffer, from `i` on
abbrev pub read : Buffer → (i n : ℕ) → List ℕ
read buf i zero = []
read buf i (suc n) = buf i ∷ read buf (i + 1) n

-- `buf` after one of the `Print` functions, and the `OUTPUT` of the length that it returned
unfoldable pub output_buf : Buffer → ℕ → Cmd Printer (Unit {0})
unfolding output
output_buf buf len = do modify (λ p. record p { buf = buf }); output (read buf 0 len)

-- the text before the next `%`, and the rest
abbrev pub scan_text : List ℕ → List ℕ × List ℕ
scan_text [] = ([], [])
scan_text (c ∷ s) =
    let (text, rest) = scan_text s in if c == percent then ([], c ∷ s) else (c ∷ text, rest)

-- `IsDigit`
abbrev pub is_digit : ℕ → Bool
is_digit c = leb 48 c && leb c 57

-- the loop that reads a number
abbrev pub scan_number : ℕ → List ℕ → ℕ × List ℕ
scan_number n [] = (n, [])
scan_number n (c ∷ s) =
    let rest = scan_number (10 * n + (c - 48)) s in if is_digit c then rest else (n, c ∷ s)

-- a character that may stand there, and the rest
abbrev pub scan_flag : ℕ → List ℕ → Bool × List ℕ
scan_flag f [] = (false, [])
scan_flag f (c ∷ s) = if c == f then (true, s) else (false, c ∷ s)

-- the precision behind a `.`; without a digit it is not set
abbrev pub scan_prec : List ℕ → Option ℕ × List ℕ
scan_prec [] = (none, [])
scan_prec (c ∷ s) =
    let (n, rest) = scan_number 0 (c ∷ s) in if is_digit c then (some n, rest) else (none, c ∷ s)

-- the prefixes `l`, `-`, `0`, the width and the precision; an `int` and a `long` are both words,
-- so that `l` changes nothing
unfoldable pub scan_directive : List ℕ → Directive × List ℕ
scan_directive s =
    let (long, s1) = scan_flag 108 s in
    let (ladjust, s2) = scan_flag 45 s1 in
    let (zeros, s3) = scan_flag 48 s2 in
    let (width, s4) = scan_number 0 s3 in
    let (point, s5) = scan_flag 46 s4 in
    let (prec, s6) : Option ℕ × List ℕ = if point then scan_prec s5 else (none, s5) in
    (
      record { width = width; prec = prec; ladjust = ladjust; padc = if zeros then 48 else space },
      s6,
    )

-- the `OUTPUT` behind `PrintNum`
unfoldable pub printed : Option (Buffer × ℕ) → List Arg → Cmd Printer (List Arg)
unfolding output_buf
printed none args = stop out_of_fuel
printed (some (buf, len)) args = do output_buf buf len; pure args

-- the next argument; one that is not there, or of another kind, is an access through a bad pointer
unfoldable pub print_int :
    Directive → (base : ℕ) → (signed upcase : Bool) → List Arg → Cmd Printer (List Arg)
unfolding printed
print_int d base signed upcase (int u ∷ args) = do
  let neg = signed && leb (2 ^ 31) u
  let v : ℕ = if neg then (word - u) % word else u
  buf ← gets (λ p. p.buf)
  printed (print_num buf v base neg d.width d.ladjust d.padc upcase) args
print_int d base signed upcase (str s ∷ args) = stop bad_pointer
print_int d base signed upcase [] = stop bad_pointer

unfoldable pub print_one : Directive → List Arg → Cmd Printer (List Arg)
unfolding output_buf print_char
print_one d (int u ∷ args) = do
  buf ← gets (λ p. p.buf)
  let (buf', len) = print_char buf (u % 256) d.width d.ladjust
  output_buf buf' len
  pure args
print_one d (str s ∷ args) = stop bad_pointer
print_one d [] = stop bad_pointer

unfoldable pub print_str : Directive → List Arg → Cmd Printer (List Arg)
unfolding output_buf print_string
print_str d (str s ∷ args) = do
  buf ← gets (λ p. p.buf)
  let (buf', len) = print_string buf s d.width d.ladjust
  output_buf buf' len
  pure args
print_str d (int u ∷ args) = stop bad_pointer
print_str d [] = stop bad_pointer

-- the `switch` on the letter of a directive
unfoldable pub convert : Directive → ℕ → List Arg → Cmd Printer (List Arg)
unfolding print_int print_one print_str output
convert d c args =
    if c == 98
    then print_int d 2 false false args
    else if c == 100 || c == 68
    then print_int d 10 true false args
    else if c == 111 || c == 79
    then print_int d 8 false false args
    else if c == 117 || c == 85
    then print_int d 10 false false args
    else if c == 120
    then print_int d 16 false false args
    else if c == 88
    then print_int d 16 false true args
    else if c == 99
    then print_one d args
    else if c == 115
    then print_str d args
    else (do output (c ∷ []); pure args)

-- the letter of a directive, or the end of the format behind a `%`
abbrev pub letter :
    (next : List ℕ → List Arg → Cmd Printer (Unit {0}))
    → Directive
    → List ℕ
    → List Arg
    → Cmd Printer (Unit {0})
letter next d [] args = next [] args
letter next d (c ∷ s) args = do args' ← convert d c args; next s args'

-- what `lp_Print` does behind the text, at the end of the format or at a `%`; `next` is the next
-- round of its loop
unfoldable pub after_text :
    (next : List ℕ → List Arg → Cmd Printer (Unit {0})) → List ℕ → List Arg → Cmd Printer (Unit {0})
unfolding output convert scan_directive
after_text next [] args = output (0 ∷ [])
after_text next (_ ∷ s) args = letter next (scan_directive s).0 (scan_directive s).1 args

-- `lp_Print`; one unit of fuel for each directive and one for the text behind the last
unfoldable pub lp_print : (fuel : ℕ) → List ℕ → List Arg → Cmd Printer (Unit {0})
unfolding output after_text
lp_print zero fmt args = stop out_of_fuel
lp_print (suc fuel) fmt args = do
  output (scan_text fmt).0
  after_text (lp_print fuel) (scan_text fmt).1 args
