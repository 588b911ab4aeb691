-- ===== src/Printf/Tests.antt =====
-- Runs of kernel/lib/printf.c.
use quin_kernel_template.Base.{ℕ, ◌≡◌, refl, true, none, some, List, [], ◌∷◌, ◌++◌, inr, arith}
use quin_kernel_template.Memory.{Memory}
use quin_kernel_template.Printf.{
  Arg, word, emit_unsigned, letter_of, read_directive, kvprintf, ksnprintf,
}
use quin_kernel_template.Printf.Bounds.{Fits, Printed, ksnprintf-Printed}
use quin_kernel_template.Printf.Fuel.{takes, Accepts, done, plain, conversion, kvprintf_returns}
use quin_kernel_template.Printf.Digits.{read_digit, emit_unsigned-reads_back}

abbrev write : List ℕ → ℕ → List ℕ
write text c = text ++ (c ∷ [])

-- "%03d|%x" of -7 and 255.
abbrev fmt : List ℕ
fmt = 37 ∷ 48 ∷ 51 ∷ 100 ∷ 124 ∷ 37 ∷ 120 ∷ []

abbrev args : List Arg
args = word 18446744073709551609 ∷ word 255 ∷ []

-- It prints "-07|ff".
printed : kvprintf write fmt args [] ≡ some (45 ∷ 48 ∷ 55 ∷ 124 ∷ 102 ∷ 102 ∷ [])
unfolding kvprintf
printed = refl

fmt-Fits : Fits fmt args
unfolding kvprintf
fmt-Fits = refl

-- With spaces for padding, "%3d" prints the sign first, "- 7".
spaces_after_sign : kvprintf write (37 ∷ 51 ∷ 100 ∷ []) args [] ≡ some (45 ∷ 32 ∷ 55 ∷ [])
unfolding kvprintf
spaces_after_sign = refl

-- A format that ends inside a directive, as "%0" does, is read past its NUL.
open_directive : kvprintf write (37 ∷ 48 ∷ []) args [] ≡ none
unfolding kvprintf
open_directive = refl

abbrev zeros : Memory
zeros a = 1

ksnprintf-Printed_example : Printed zeros 100 4 (ksnprintf zeros 100 4 fmt args)
ksnprintf-Printed_example = ksnprintf-Printed zeros 100 4 fmt args fmt-Fits

emit_unsigned-reads_back_example :
    emit_unsigned (read_digit 16) 0xdeadbeef 16 true 12 true 0 ≡ 0xdeadbeef
emit_unsigned-reads_back_example =
    emit_unsigned-reads_back 0xdeadbeef 16 true 12 (inr refl) (omega arith)

fmt-Accepts : Accepts fmt args
unfolding read_directive takes letter_of
fmt-Accepts =
    conversion 100 (124 ∷ 37 ∷ 120 ∷ []) _ refl refl
      (plain refl (conversion 120 [] [] refl refl done))

kvprintf_returns_example : (text : List ℕ) × (kvprintf write fmt args [] ≡ some text)
kvprintf_returns_example = kvprintf_returns write fmt args [] fmt-Accepts
