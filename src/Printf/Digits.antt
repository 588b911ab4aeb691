-- ===== src/Printf/Digits.antt =====
-- The numerals that printf.c's `emit_unsigned` writes, and a reader of numerals.
use quin_kernel_template.Base.{
  ℕ, zero, suc, ◌+◌, ◌-◌, ◌*◌, ◌/◌, ◌%◌, ◌^◌, ◌<◌, ◌≤◌, ◌≡◌, refl, ◌∙◌, Bool, true, false, arith,
  List, [], ◌∷◌, length, get_or, leb, ◌==◌, if◌then◌else◌, ◌⊎◌, inl, inr,
}
use quin_kernel_template.Base.Table.{holds_to, holds_to_at}
use quin_kernel_template.Printf.{
  lower, upper_digits, digits, emit_all, emit_times, emit_padded, emit_unsigned,
}
use mathlib.Core.List.{reverse, reverse_aux}
use native.Mathlib.Nat.{pow-zero, pow-suc, mod-lt, div-add-mod', div-lt_iff_lt-mul}

-- The value of a digit's character, in either case.
unfoldable pub digit_value : ℕ → ℕ
digit_value c = if leb c 57 then c - 48 else if leb c 70 then c - 55 else c - 87

-- A reader of numerals: the number so far, and a character more.
unfoldable pub read_digit : (base acc c : ℕ) → ℕ
unfolding digit_value
read_digit base acc c = acc * base + digit_value c

abbrev table_of : Bool → List ℕ
table_of upper = if upper then upper_digits else lower

digit_of_table : (upper : Bool) (x : ℕ) → x < 16 → digit_value (get_or (table_of upper) x 0) ≡ x
unfolding holds_to digit_value
digit_of_table true x h =
    ground (arith, holds_to_at 16 (λ (y : ℕ). digit_value (get_or upper_digits y 0) == y) x refl h)
digit_of_table false x h =
    ground (arith, holds_to_at 16 (λ (y : ℕ). digit_value (get_or lower y 0) == y) x refl h)

-- The value of digits, the last one first.
of_digits : (base : ℕ) → List ℕ → ℕ
of_digits base [] = 0
of_digits base (c ∷ cs) = of_digits base cs * base + digit_value c

div_below : (v base p : ℕ) → 0 < base → v < p * base → v / base < p
div_below v base p pos fits = (div-lt_iff_lt-mul pos).1 fits

of_digits-digits :
    (upper : Bool) (base left v : ℕ)
    → 0 < base
    → base ≤ 16
    → v < base ^ left
    → of_digits base (digits left (table_of upper) v base) ≡ v
unfolding of_digits digits
of_digits-digits upper base zero v pos small fits = omega (arith, pow-zero base)
of_digits-digits upper base (suc left) v pos small fits = ground (
  arith,
  digit_of_table upper (v % base) (omega (arith, mod-lt v pos)),
  of_digits-digits upper base left (v / base) pos small below,
  div-add-mod' v base,
)
  where
    below : v / base < base ^ left
    below = div_below v base (base ^ left) pos (omega (arith, pow-suc base left))

read-reverse :
    (base : ℕ) (cs r : List ℕ)
    → emit_all (read_digit base) (reverse_aux cs r) 0
      ≡ emit_all (read_digit base) r (of_digits base cs)
unfolding emit_all of_digits read_digit
read-reverse base [] r = refl
read-reverse base (c ∷ cs) r = read-reverse base cs (c ∷ r)

zero_first : (base : ℕ) → read_digit base 0 48 ≡ 0
unfolding read_digit digit_value
zero_first base = omega arith

read-zeros : (base n : ℕ) → emit_times (read_digit base) n 48 0 ≡ 0
unfolding emit_times
read-zeros base zero = refl
read-zeros base (suc n) = rw (zero_first base) (read-zeros base n)

padded_reads :
    (base : ℕ) (ds : List ℕ) (width : ℕ)
    → emit_padded (read_digit base) (reverse ds) width true 0 ≡ of_digits base ds
unfolding emit_padded emit_all
padded_reads base ds width =
    rw (read-zeros base (width - length (reverse ds))) (read-reverse base ds [])

enough_digits : (base v : ℕ) → (base ≡ 10) ⊎ (base ≡ 16) → v < 2 ^ 64 → v < base ^ 32
enough_digits base v (inl ten) fits = rw ten (omega arith)
enough_digits base v (inr sixteen) fits = rw sixteen (omega arith)

-- A reader of numerals in the base, fed the characters that `emit_unsigned` emits with zeros for
-- padding, in any width and either case, has read the number: decimal and hexadecimal numerals of all
-- 64-bit words are complete, so the 32 digits that there is room for are enough.
pub emit_unsigned-reads_back :
    (value base : ℕ) (upper : Bool) (width : ℕ)
    → (base ≡ 10) ⊎ (base ≡ 16)
    → value < 2 ^ 64
    → emit_unsigned (read_digit base) value base upper width true 0 ≡ value
unfolding emit_unsigned
emit_unsigned-reads_back value base upper width which fits =
    padded_reads base (digits 32 (table_of upper) value base) width
    ∙ of_digits-digits upper base 32 value (ground arith) (ground arith)
        (enough_digits base value which fits)
