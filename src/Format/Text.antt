-- ===== src/Format/Text.antt =====
-- `lp_Print` of lib/print.c on text, and the fuel that its loop needs.
use jos_buaa_a20_porting.Prelude.{
  ℕ, suc, ◌≡◌, refl, Bool, true, false, List, [], ◌∷◌, ◌++◌, arith, leb, ◌==◌, if◌then◌else◌,
  length, done, left,
}
use jos_buaa_a20_porting.Print.{percent, lp_max_buf}
use jos_buaa_a20_porting.Format.{put, fatal_msg, Printer, Arg, scan_text, lp_print}

-- no `%` in the text
abbrev pub is_plain : List ℕ → Bool
is_plain [] = true
is_plain (c ∷ s) = if c == percent then false else is_plain s

scan_text-plain : (s : List ℕ) → is_plain s ≡ true → scan_text s ≡ (s, [])
scan_text-plain [] h = refl
scan_text-plain (c ∷ s) h = ground (arith, scan_text-plain s)

-- `lp_Print` of a string without directives makes one call of `output` with all of it and the
-- call that ends the output, if it has at most `LP_MAX_BUF` characters; on a longer one it never comes back
-- from the endless loop behind the fatal message.
pub lp_print-plain :
    (fuel : ℕ) (fmt : List ℕ) (args : List Arg) (p : Printer)
    → is_plain fmt ≡ true
    → lp_print (suc fuel) fmt args p ≡ (
        if leb (length fmt) lp_max_buf
        then done tt (record p { calls = (p.calls ++ (fmt ∷ [])) ++ ((0 ∷ []) ∷ []) })
        else left (put fatal_msg p))
unfolding lp_print
lp_print-plain fuel fmt args p h = ground (arith, scan_text-plain fmt h)
