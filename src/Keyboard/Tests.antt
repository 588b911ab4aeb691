-- ===== src/Keyboard/Tests.antt =====
-- Runs of kernel/drivers/keyboard/keyboard.c, and its theorems at such drivers.
use quin_kernel_template.Base.{List, ◌≡◌, refl, false, [], ◌∷◌, arith, replicate}
use quin_kernel_template.Keyboard.{Keyboard, buffer_push, keyboard_isr, keyboard_read_char}
use quin_kernel_template.Keyboard.Refine.{IsValid}
use quin_kernel_template.Keyboard.Decode.{view}
use quin_kernel_template.Keyboard.Run.{Event, scanned, asked, run, ideal_run, run_refines}

abbrev fresh : Keyboard
fresh = record { buffer = replicate 256 0; buffer_head = 0; buffer_tail = 0; shift_held = false }

-- Shift down, "q", shift up, "1".
abbrev typed : List Event
typed = scanned 0x2a ∷ scanned 0x10 ∷ scanned 0xaa ∷ scanned 2 ∷ asked ∷ asked ∷ asked ∷ []

typed_is_read : run fresh typed ≡ b'Q' ∷ b'1' ∷ 0 ∷ []
unfolding run keyboard_isr keyboard_read_char buffer_push
typed_is_read = refl

-- The prefix of an extended code is dropped, and its second byte decoded like any other.
keypad_enter_is_newline : run fresh (scanned 0xe0 ∷ scanned 0x1c ∷ asked ∷ []) ≡ 10 ∷ []
unfolding run keyboard_isr keyboard_read_char buffer_push
keypad_enter_is_newline = refl

-- As documented it is dropped with its prefix.
keypad_enter_is_dropped :
    ideal_run false (view fresh) (scanned 0xe0 ∷ scanned 0x1c ∷ asked ∷ []) ≡ 0 ∷ []
unfolding ideal_run quin_kernel_template.Keyboard.Queue.pop
    quin_kernel_template.Keyboard.Refine.unread
keypad_enter_is_dropped = refl

fresh-IsValid : IsValid fresh
fresh-IsValid = record { storage = refl; head_in = omega arith; tail_in = omega arith }

run_refines_example : run fresh typed ≡ ideal_run false (view fresh) typed
run_refines_example = run_refines typed fresh fresh-IsValid (omega arith)
