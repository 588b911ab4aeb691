-- ===== src/Keyboard/Run.antt =====
-- The whole driver of keyboard.c over any sequence of scan codes and reads.
use quin_kernel_template.Base.{
  ℕ, ◌<◌, ◌≡◌, ◌≢◌, if◌then◌else◌, refl, Bool, true, false, List, [], ◌∷◌, arith, ◌==◌,
}
use quin_kernel_template.Keyboard.{Keyboard, keyboard_isr, keyboard_read_char}
use quin_kernel_template.Keyboard.Queue
use quin_kernel_template.Keyboard.Queue.{Queue}
use quin_kernel_template.Keyboard.Refine.{IsValid, read_refines}
use quin_kernel_template.Keyboard.Decode.{Typist, scan, view, isr_refines}

-- What happens to the driver, in order: a scan code arrives, or a character is read.
pub data Event : Type 0 where
  scanned : ℕ → Event
  asked : Event

-- The characters that the reads return.
unfoldable pub run : Keyboard → List Event → List ℕ
run k [] = []
run k (scanned sc ∷ es) = run (keyboard_isr k sc) es
run k (asked ∷ es) = (keyboard_read_char k).0 ∷ run (keyboard_read_char k).1 es

-- The same of a typist, as keyboard.c and keyboard.h say it: the key behind a prefix 0xE0, one of the
-- cursor cluster, the numpad or the right-hand modifiers, is dropped. `prefixed` says that the last
-- scan code was the prefix.
unfoldable pub ideal_run : (prefixed : Bool) → Typist → List Event → List ℕ
ideal_run prefixed t [] = []
ideal_run prefixed t (scanned sc ∷ es) =
    let dropped = ideal_run false t es in
    let held = ideal_run true t es in
    let typed = ideal_run false (scan t sc) es in
    if sc == 0xe0 then held else if prefixed then dropped else typed
ideal_run prefixed t (asked ∷ es) =
    (Queue.pop t.queue).0 ∷ ideal_run prefixed (record t { queue = (Queue.pop t.queue).1 }) es

-- Bytes with no prefix among them.
abbrev pub AllPlain : List Event → Type 0
AllPlain [] = Unit
AllPlain (scanned sc ∷ es) = (sc < 256) × (sc ≢ 0xe0) × AllPlain es
AllPlain (asked ∷ es) = AllPlain es

shift-read : (k : Keyboard) → (keyboard_read_char k).1.shift_held ≡ k.shift_held
unfolding keyboard_read_char
shift-read k = ground arith

-- As long as the keyboard sends no prefix 0xE0, no sequence of scan codes and reads tells a valid
-- driver from a queue of 255 characters and a shift flag that decode the keys as documented.
pub run_refines :
    (es : List Event) (k : Keyboard)
    → IsValid k
    → AllPlain es
    → run k es ≡ ideal_run false (view k) es
unfolding run ideal_run
run_refines [] k v b = refl
run_refines (scanned sc ∷ es) k v b =
    let (step, v') = isr_refines k sc v b.0 in
    let plain : (sc == 0xe0) ≡ false = ground (arith, b.1) in
    rw (run_refines es (keyboard_isr k sc) v' b.2, step, plain) refl
run_refines (asked ∷ es) k v b = ground (
  arith,
  read_refines k v,
  shift-read k,
  run_refines es (keyboard_read_char k).1 (read_refines k v).2 b,
)
