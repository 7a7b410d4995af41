-- ===== src/Tests/Output.antt =====
-- Formatted output on concrete numbers and strings.
use jos_buaa_a20_porting.Prelude.{ℕ, ◌≤◌, ◌≡◌, true, false, some, List, [], ◌∷◌, arith}
use jos_buaa_a20_porting.Print.{Buffer, print_num}
use jos_buaa_a20_porting.Print.Digits.{radix, hex}
use jos_buaa_a20_porting.Print.Number.{Shown, print_num-Shown}
use jos_buaa_a20_porting.Format.{Printer, int, lp_print}
use jos_buaa_a20_porting.Format.Fuel.{Ends, lp_print-Ends}

abbrev blank : Buffer
blank = λ _. 0

abbrev printer : Printer
printer = record { calls = []; buf = blank }

abbrev hi : List ℕ
hi = 104 ∷ 105 ∷ []

-- "a%d"
abbrev a_percent_d : List ℕ
a_percent_d = 97 ∷ 37 ∷ 100 ∷ []

print_num-Shown_example :
    (buf' : Buffer) × (len : ℕ) × (n : ℕ) × (print_num blank 0x1A2B
        (radix hex)
        false
        8
        false
        48
        true
      ≡ some (buf', len))
    × (n ≤ 32)
    × Shown (radix hex) buf' len 0x1A2B false 8 false 48 n
print_num-Shown_example = print_num-Shown hex blank 0x1A2B false 8 false 48 true (omega arith)

lp_print-Ends_example : Ends (λ _. Unit {0}) (lp_print 4 a_percent_d (int 42 ∷ []) printer)
lp_print-Ends_example =
    lp_print-Ends 4 a_percent_d (int 42 ∷ []) printer (omega arith) (omega arith)
      (omega arith, (omega arith, (omega arith, tt))) (omega arith, tt)
