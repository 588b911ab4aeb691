-- ===== src/Keyboard/Decode.antt =====
-- The interrupt handler of keyboard.c against a description of scan codes by their ranges, and the
-- whole driver against a queue and a shift flag.
use native.Mathlib.Decide.{dec_lt}
use quin_kernel_template.Base.{
  ℕ, ◌+◌, ◌*◌, ◌/◌, ◌%◌, ◌<◌, ◌≡◌, refl, Bool, true, false, not, ◌&&◌, ◌||◌, arith, bit_and, get_or,
  ltb, ◌==◌, if◌then◌else◌,
}
use quin_kernel_template.Base.Bits.{bit_and_low, bit_and_field}
use quin_kernel_template.Keyboard.{
  Keyboard, unshifted_table, shifted_table, table_size, buffer_push, keyboard_isr,
}
use quin_kernel_template.Keyboard.Queue
use quin_kernel_template.Keyboard.Queue.{Queue}
use quin_kernel_template.Keyboard.Refine.{IsValid, contents, push_refines}

-- The driver seen from outside: the unread characters and whether shift is held.
pub record Typist : Type 0 where
  pub queue : Queue
  pub shift : Bool

-- The character of a make code, 0 for a key that is not decoded.
unfoldable pub char_of : Bool → ℕ → ℕ
char_of true code = get_or shifted_table code 0
char_of false code = get_or unshifted_table code 0

-- A scan code: shift pressed, shift released, a key pressed, or something that is ignored.
unfoldable pub scan : Typist → ℕ → Typist
scan t sc =
    if sc == 0x2a || sc == 0x36
    then record t { shift = true }
    else if sc == 0xaa || sc == 0xb6
    then record t { shift = false }
    else if ltb sc table_size && not (char_of t.shift sc == 0)
    then record t { queue = Queue.push t.queue (char_of t.shift sc) }
    else t

abbrev pub view : Keyboard → Typist
view k = record { queue = contents k; shift = k.shift_held }

shift-push : (k : Keyboard) (c : ℕ) → (buffer_push k c).shift_held ≡ k.shift_held
unfolding buffer_push
shift-push k c = ground arith

release_bit : (sc : ℕ) → sc < 256 → bit_and sc 0x80 ≡ sc / 128 * 128
release_bit sc h = omega (arith, bit_and_field 1 7 sc)

key_code : (sc : ℕ) → bit_and sc 0x7f ≡ sc % 128
key_code sc = bit_and_low 7 sc

pub char_of_lem :
    (shift : Bool) (code : ℕ)
    → (if shift then get_or shifted_table code 0 else get_or unshifted_table code 0)
      ≡ char_of shift code
unfolding char_of
char_of_lem true code = refl
char_of_lem false code = refl

isr_by_ranges :
    (k : Keyboard) (sc : ℕ)
    → sc < 256
    → keyboard_isr k sc ≡ (
        if sc == 0x2a || sc == 0x36
        then record k { shift_held = true }
        else if sc == 0xaa || sc == 0xb6
        then record k { shift_held = false }
        else if ltb sc table_size && not (char_of k.shift_held sc == 0)
        then buffer_push k (char_of k.shift_held sc)
        else k)
unfolding keyboard_isr
isr_by_ranges k sc h =
    rw (release_bit sc h, key_code sc, char_of_lem)
      (elim (dec_lt sc 128) [
        | yes low ↦
            let code : sc % 128 ≡ sc = omega arith in
            let made : sc / 128 * 128 ≡ 0 = omega arith in rw (code, made) (ground arith)
        | no high ↦
            let code : sc ≡ sc % 128 + 128 = omega arith in
            let broken : sc / 128 * 128 ≡ 128 = omega arith in rw broken (ground arith)
      ])

-- The handler on a valid driver does what the description of the scan code says, and keeps the
-- driver valid.
pub isr_refines :
    (k : Keyboard) (sc : ℕ)
    → IsValid k
    → sc < 256
    → (view (keyboard_isr k sc) ≡ scan (view k) sc) × IsValid (keyboard_isr k sc)
unfolding scan
isr_refines k sc v h = rw (isr_by_ranges k sc h) (
    ground
      (arith, push_refines k (char_of k.shift_held sc) v, shift-push k (char_of k.shift_held sc)))
