-- ===== src/Format/Fuel.antt =====
-- `lp_Print` of lib/print.c on texts, strings and widths that fit its buffer: its loop ends, a unit
-- of fuel for each character is enough, and the endless loop of `OUTPUT` is never entered.
use jos_buaa_a20_porting.Prelude.{
  ℕ, zero, suc, ◌%◌, ◌≤◌, ◌<◌, ◌≡◌, refl, sym, Bool, true, false, ◌||◌, List, [], ◌∷◌, arith, ltb,
  ◌==◌, if◌then◌else◌, length, Run, Cmd, pure, ◌>>◌, done, left, halt, bad_pointer, and_then,
}
use mathlib.Core.Path.{subst}
use jos_buaa_a20_porting.Mmu.{word}
use jos_buaa_a20_porting.Print.{Buffer, print_char, print_string, lp_max_buf}
use jos_buaa_a20_porting.Print.Digits.{Radix, radix, bin, oct, dec, hex}
use jos_buaa_a20_porting.Print.Number.{print_num-Shown}
use jos_buaa_a20_porting.Format.{
  Printer, Arg, int, str, Directive, output, output_buf, printed, read, letter, after_text, convert,
  print_int, print_one, print_str, scan_text, scan_directive, lp_print,
}
use jos_buaa_a20_porting.Format.Scan.{
  IsNarrow, scan_text-IsNarrow, scan_text-short, scan_text-length, scan_directive-IsNarrow,
  scan_directive-length,
}
use jos_buaa_a20_porting.Format.Number.{length-read, magnitude, is_negative}

-- the integers among the arguments are words, and the strings fit the buffer
abbrev pub AreSmall : List Arg → Type 0
AreSmall [] = Unit {0}
AreSmall (int u ∷ args) = (u < word) × AreSmall args
AreSmall (str s ∷ args) = (length s ≤ lp_max_buf) × AreSmall args

-- a run that returns a result that satisfies `P`, or stops at an argument that is not there or is
-- of another kind; it neither wants for fuel nor spins
abbrev pub Ends : {S A : Type 0} → (A → Type 0) → Run S A → Type 0
Ends P (done a s) = P a
Ends P (left s) = ⊥
Ends P (halt e) = e ≡ bad_pointer

Ends-bind :
    {S A B : Type 0} (P : A → Type 0) (Q : B → Type 0) (m : Run S A) (k : A → Cmd S B)
    → Ends P m
    → ((a : A) (s : S) → P a → Ends Q (k a s))
    → Ends Q (and_then m k)
Ends-bind P Q (done a s) k h next = next a s h
Ends-bind P Q (left s) k h next = absurd h
Ends-bind P Q (halt e) k h next = h

Ends-if :
    {S A : Type 0} (P : A → Type 0) (b : Bool) (f g : Cmd S A) (s : S)
    → Ends P (f s)
    → Ends P (g s)
    → Ends P ((if b then f else g) s)
Ends-if P true f g s hf hg = hf
Ends-if P false f g s hf hg = hg

output-Ends : (s : List ℕ) (p : Printer) → length s ≤ lp_max_buf → Ends (λ _. Unit {0}) (output s p)
unfolding output
output-Ends s p le = let fits : ltb lp_max_buf (length s) ≡ false = ground (arith, le) in rw fits tt

output_buf-Ends :
    (buf : Buffer) (len : ℕ) (args : List Arg) (p : Printer)
    → len ≤ lp_max_buf
    → AreSmall args
    → Ends AreSmall ((output_buf buf len >> pure args) p)
unfolding output_buf
output_buf-Ends buf len args p le w =
    Ends-bind (λ _. Unit {0}) AreSmall (output_buf buf len p) (λ _. pure args)
      (output-Ends (read buf 0 len) (record p { buf = buf }) (omega (arith, length-read buf 0 len)))
      (λ _ s _. w)

print_int-Ends :
    (d : Directive) (r : Radix) (signed up : Bool) (args : List Arg) (p : Printer)
    → d.width ≤ lp_max_buf
    → AreSmall args
    → Ends AreSmall (print_int d (radix r) signed up args p)
unfolding print_int
print_int-Ends d r signed up [] p le w = refl
print_int-Ends d r signed up (str s ∷ args) p le w = refl
print_int-Ends d r signed up (int u ∷ args) p le (small, w) =
    let (buf, len, n, run, few, shown) =
      print_num-Shown r p.buf (magnitude signed u) (is_negative signed u) d.width d.ladjust d.padc
        up (ground arith) in
    let fits : len ≤ lp_max_buf = ground (arith, shown.long_enough, few, le) in
    subst (λ o. Ends AreSmall (printed o args p)) (sym run) (output_buf-Ends buf len args p fits w)

print_one-Ends :
    (d : Directive) (args : List Arg) (p : Printer)
    → d.width ≤ lp_max_buf
    → AreSmall args
    → Ends AreSmall (print_one d args p)
unfolding print_one print_char
print_one-Ends d [] p le w = refl
print_one-Ends d (str s ∷ args) p le w = refl
print_one-Ends d (int u ∷ args) p le (small, w) =
    let shown : Buffer × ℕ = print_char p.buf (u % 256) d.width d.ladjust in
    output_buf-Ends shown.0 shown.1 args p (ground (arith, le)) w

print_str-Ends :
    (d : Directive) (args : List Arg) (p : Printer)
    → d.width ≤ lp_max_buf
    → AreSmall args
    → Ends AreSmall (print_str d args p)
unfolding print_str print_string
print_str-Ends d [] p le w = refl
print_str-Ends d (int u ∷ args) p le w = refl
print_str-Ends d (str s ∷ args) p le (short, w) =
    let shown : Buffer × ℕ = print_string p.buf s d.width d.ladjust in
    output_buf-Ends shown.0 shown.1 args p (ground (arith, le, short)) w

convert-Ends :
    (d : Directive) (c : ℕ) (args : List Arg) (p : Printer)
    → d.width ≤ lp_max_buf
    → AreSmall args
    → Ends AreSmall (convert d c args p)
unfolding convert
convert-Ends d c args p le w =
    let g9 : Cmd Printer (List Arg) = output (c ∷ []) >> pure args in
    let e9 : Ends AreSmall (g9 p) =
      Ends-bind (λ _. Unit {0}) AreSmall (output (c ∷ []) p) (λ _. pure args)
        (output-Ends (c ∷ []) p (omega arith)) (λ _ s _. w) in
    let g8 : Cmd Printer (List Arg) = if c == 115 then print_str d args else g9 in
    let e8 : Ends AreSmall (g8 p) =
      Ends-if AreSmall (c == 115) (print_str d args) g9 p (print_str-Ends d args p le w) e9 in
    let g7 : Cmd Printer (List Arg) = if c == 99 then print_one d args else g8 in
    let e7 : Ends AreSmall (g7 p) =
      Ends-if AreSmall (c == 99) (print_one d args) g8 p (print_one-Ends d args p le w) e8 in
    let g6 : Cmd Printer (List Arg) = if c == 88 then print_int d 16 false true args else g7 in
    let e6 : Ends AreSmall (g6 p) =
      Ends-if AreSmall (c == 88) (print_int d 16 false true args) g7 p
        (print_int-Ends d hex false true args p le w) e7 in
    let g5 : Cmd Printer (List Arg) = if c == 120 then print_int d 16 false false args else g6 in
    let e5 : Ends AreSmall (g5 p) =
      Ends-if AreSmall (c == 120) (print_int d 16 false false args) g6 p
        (print_int-Ends d hex false false args p le w) e6 in
    let g4 : Cmd Printer (List Arg) =
      if c == 117 || c == 85 then print_int d 10 false false args else g5 in
    let e4 : Ends AreSmall (g4 p) =
      Ends-if AreSmall (c == 117 || c == 85) (print_int d 10 false false args) g5 p
        (print_int-Ends d dec false false args p le w) e5 in
    let g3 : Cmd Printer (List Arg) =
      if c == 111 || c == 79 then print_int d 8 false false args else g4 in
    let e3 : Ends AreSmall (g3 p) =
      Ends-if AreSmall (c == 111 || c == 79) (print_int d 8 false false args) g4 p
        (print_int-Ends d oct false false args p le w) e4 in
    let g2 : Cmd Printer (List Arg) =
      if c == 100 || c == 68 then print_int d 10 true false args else g3 in
    let e2 : Ends AreSmall (g2 p) =
      Ends-if AreSmall (c == 100 || c == 68) (print_int d 10 true false args) g3 p
        (print_int-Ends d dec true false args p le w) e3 in
    Ends-if AreSmall (c == 98) (print_int d 2 false false args) g2 p
      (print_int-Ends d bin false false args p le w) e2

-- the next rounds of the loop end on every narrow format of fewer than `fuel` characters that fits
-- the buffer
abbrev pub NextEnds : ℕ → (List ℕ → List Arg → Cmd Printer (Unit {0})) → Type 0
NextEnds fuel next =
    (fmt : List ℕ) (args : List Arg) (p : Printer)
    → length fmt < fuel
    → length fmt ≤ lp_max_buf
    → IsNarrow fmt
    → AreSmall args
    → Ends (λ _. Unit {0}) (next fmt args p)

letter-Ends :
    (fuel : ℕ) (next : List ℕ → List Arg → Cmd Printer (Unit {0})) (d : Directive) (s : List ℕ)
    (args : List Arg) (p : Printer)
    → NextEnds fuel next
    → length s < fuel
    → length s ≤ lp_max_buf
    → d.width ≤ lp_max_buf
    → IsNarrow s
    → AreSmall args
    → Ends (λ _. Unit {0}) (letter next d s args p)
letter-Ends fuel next d [] args p ih h short le narrow w = ih [] args p h short narrow w
letter-Ends fuel next d (c ∷ s) args p ih h short le (_, narrow) w =
    Ends-bind AreSmall (λ _. Unit {0}) (convert d c args p) (λ args'. next s args')
      (convert-Ends d c args p le w)
      (λ args' p' w'. ih s args' p' (omega (arith, h)) (omega (arith, short)) narrow w')

after_text-Ends :
    (fuel : ℕ) (next : List ℕ → List Arg → Cmd Printer (Unit {0})) (s : List ℕ) (args : List Arg)
    (p : Printer)
    → NextEnds fuel next
    → length s ≤ fuel
    → length s ≤ lp_max_buf
    → IsNarrow s
    → AreSmall args
    → Ends (λ _. Unit {0}) (after_text next s args p)
unfolding after_text
after_text-Ends fuel next [] args p ih h short narrow w = output-Ends (0 ∷ []) p (omega arith)
after_text-Ends fuel next (c ∷ s) args p ih h short (_, narrow) w =
    let (le, rest) = scan_directive-IsNarrow s narrow in
    letter-Ends fuel next (scan_directive s).0 (scan_directive s).1 args p ih
      (omega (arith, h, scan_directive-length s)) (omega (arith, short, scan_directive-length s)) le
      rest w

-- `lp_Print` of a format of at most 80 characters, in which no run of digits is a number above 80,
-- with words and strings of at most 80 characters among its arguments, returns, or stops at an
-- argument that is not there or is of another kind; it never enters the endless loop behind the
-- fatal message, and needs no more rounds of its own loop than the format has characters, and one.
pub lp_print-Ends :
    (fuel : ℕ) (fmt : List ℕ) (args : List Arg) (p : Printer)
    → length fmt < fuel
    → length fmt ≤ lp_max_buf
    → IsNarrow fmt
    → AreSmall args
    → Ends (λ _. Unit {0}) (lp_print fuel fmt args p)
unfolding lp_print
lp_print-Ends zero fmt args p h short narrow w = absurd (ground arith)
lp_print-Ends (suc fuel) fmt args p h short narrow w =
    Ends-bind (λ _. Unit {0}) (λ _. Unit {0}) (output (scan_text fmt).0 p)
      (λ _. after_text (lp_print fuel) (scan_text fmt).1 args)
      (output-Ends (scan_text fmt).0 p (omega (arith, short, scan_text-short fmt)))
      (λ _ p' _.
        after_text-Ends fuel (lp_print fuel) (scan_text fmt).1 args p' (lp_print-Ends fuel)
          (omega (arith, h, scan_text-length fmt)) (omega (arith, short, scan_text-length fmt))
          (scan_text-IsNarrow fmt narrow) w)
