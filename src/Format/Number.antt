-- ===== src/Format/Number.antt =====
-- `lp_Print` of lib/print.c on the directives for numbers.
use jos_buaa_a20_porting.Prelude.{
  ℕ, suc, zero, ◌+◌, ◌-◌, ◌%◌, ◌^◌, ◌≤◌, ◌<◌, ◌≡◌, Bool, ◌&&◌, List, [], ◌∷◌, ◌++◌, arith, false,
  leb, ltb, if◌then◌else◌, length, done, refl, ap,
}
use jos_buaa_a20_porting.Mmu.{word}
use jos_buaa_a20_porting.Print.{Buffer, lp_max_buf}
use jos_buaa_a20_porting.Print.Digits.{Radix, radix}
use jos_buaa_a20_porting.Print.Number.{Shown, print_num-Shown}
use jos_buaa_a20_porting.Format.{Printer, Arg, int, Directive, read, print_int}

pub length-read : (buf : Buffer) (i n : ℕ) → length (read buf i n) ≡ n
length-read buf i zero = refl
length-read buf i (suc n) = ap suc (length-read buf (i + 1) n)

-- whether a signed directive finds a negative number in a word, and its absolute value then
abbrev pub is_negative : (signed : Bool) → ℕ → Bool
is_negative signed u = signed && leb (2 ^ 31) u

abbrev pub magnitude : (signed : Bool) → ℕ → ℕ
magnitude signed u = if is_negative signed u then (word - u) % word else u

-- A number directive with a width of at most `LP_MAX_BUF` takes the next argument and makes one
-- call of `output`, with the digits of the number, and a sign where the directive is signed and
-- the word negative, laid out as the directive asks for.
pub print_int-Shown :
    (d : Directive) (r : Radix) (signed upcase : Bool) (u : ℕ) (args : List Arg) (p : Printer)
    → u < word
    → d.width ≤ lp_max_buf
    → (buf : Buffer) × (len : ℕ) × (n : ℕ) × (print_int d (radix r) signed upcase (int u ∷ args) p
        ≡ done args (record { calls = p.calls ++ (read buf 0 len ∷ []); buf = buf }))
      × Shown
          (radix r)
          buf
          len
          (magnitude signed u)
          (is_negative signed u)
          d.width
          d.ladjust
          d.padc
          n
unfolding print_int
print_int-Shown d r signed up u args p small narrow =
    let (buf, len, n, run, few, shown) =
      print_num-Shown r p.buf (magnitude signed u) (is_negative signed u) d.width d.ladjust d.padc
        up (ground arith) in
    let short : len ≤ 80 = ground (arith, shown.long_enough) in
    let fits : ltb lp_max_buf (length (read buf 0 len)) ≡ false =
      ground (arith, length-read buf 0 len) in
    (buf, len, n, rw run (rw fits refl), shown)
