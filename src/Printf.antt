-- ===== src/Printf.antt =====
-- kernel/lib/printf.c. A format is the list of its characters before the NUL; `none` is a run that
-- C leaves undefined: an argument missing or of the wrong kind, or a read past the format's NUL.
-- The callback and its context are a parameter: `emit` takes the context to the next one.
pub mod Digits
pub mod Bounds
pub mod Fuel
pub mod Pieces
mod Tests
use quin_kernel_template.Base.{
  ℕ, zero, suc, ◌+◌, ◌-◌, ◌*◌, ◌/◌, ◌%◌, ◌^◌, Bool, true, false, ◌&&◌, ◌||◌, not, Option, none,
  some, List, [], ◌∷◌, length, get_or, u32, u64, not64, sub64, ltb, leb, ◌==◌, if◌then◌else◌,
}
use quin_kernel_template.Memory.{Memory, store}
use mathlib.Core.List.{reverse}

-- What `va_arg` finds: a word, or a pointer to a string, which may be null.
pub data Arg : Type 0 where
  word : ℕ → Arg
  str : Option (List ℕ) → Arg

abbrev pub lower : List ℕ
lower = 48 ∷ 49 ∷ 50 ∷ 51 ∷ 52 ∷ 53 ∷ 54 ∷ 55 ∷ 56 ∷ 57 ∷ 97 ∷ 98 ∷ 99 ∷ 100 ∷ 101 ∷ 102 ∷ []

abbrev pub upper_digits : List ℕ
upper_digits = 48 ∷ 49 ∷ 50 ∷ 51 ∷ 52 ∷ 53 ∷ 54 ∷ 55 ∷ 56 ∷ 57 ∷ 65 ∷ 66 ∷ 67 ∷ 68 ∷ 69 ∷ 70 ∷ []

-- The do-while loop of `emit_unsigned`: at most `left` digits, the last one first.
unfoldable pub digits : (left : ℕ) → (table : List ℕ) → (value base : ℕ) → List ℕ
digits zero table value base = []
digits (suc left) table value base =
    let rest = digits left table (value / base) base in
    get_or table (value % base) 0 ∷ (if value / base == 0 then [] else rest)

-- `long` is a 64-bit word, and `int` is its low half with the sign spread.
unfoldable pub int_of : ℕ → ℕ
int_of w = let v = u32 w in if leb (2 ^ 31) v then v + (2 ^ 64 - 2 ^ 32) else v

unfoldable pub is_digit : ℕ → Bool
is_digit c = leb 48 c && leb c 57

-- The two loops that read a width and the letters `l`, and where they stop.
unfoldable pub read_width : List ℕ → (width : ℕ) → List ℕ × ℕ
unfolding is_digit
read_width [] width = ([], width)
read_width (c ∷ cs) width =
    let rest = read_width cs (width * 10 + (c - 48)) in if is_digit c then rest else (c ∷ cs, width)

unfoldable pub read_length : List ℕ → (len : ℕ) → List ℕ × ℕ
read_length [] len = ([], len)
read_length (c ∷ cs) len =
    let rest = read_length cs (len + 1) in if c == 108 then rest else (c ∷ cs, len)

unfoldable pub read_zero : List ℕ → List ℕ × Bool
read_zero [] = ([], false)
read_zero (c ∷ cs) = if c == 48 then (cs, true) else (c ∷ cs, false)

-- What a directive says before its letter.
pub record Directive : Type 0 where
  pub zero_pad : Bool
  pub width : ℕ
  pub len : ℕ

-- The zero flag, the width and the letters `l`, and what is left.
unfoldable pub read_directive : List ℕ → Directive × List ℕ
unfolding read_zero read_width read_length
read_directive p =
    let z = read_zero p in
    let w = read_width z.0 0 in
    let l = read_length w.0 0 in (record { zero_pad = z.1; width = w.1; len = l.1 }, l.0)

abbrev pub null_text : List ℕ
null_text = 40 ∷ 110 ∷ 117 ∷ 108 ∷ 108 ∷ 41 ∷ []

abbrev pub str_or_null : Option (List ℕ) → List ℕ
str_or_null none = null_text
str_or_null (some text) = text

-- The cases of the switch.
pub data Letter : Type 0 where
  decimal unsigned pointer string character percent : Letter
  hex : (upper : Bool) → Letter
  other : ℕ → Letter

unfoldable pub letter_of : ℕ → Letter
letter_of c =
    if c == 100 || c == 105
    then decimal
    else if c == 117
    then unsigned
    else if c == 120 || c == 88
    then hex (c == 88)
    else if c == 112
    then pointer
    else if c == 115
    then string
    else if c == 99
    then character
    else if c == 37
    then percent
    else other c

module _ {C : Type 0} (emit : C → ℕ → C) where
  unfoldable pub emit_all : List ℕ → C → C
  emit_all [] ctx = ctx
  emit_all (c ∷ cs) ctx = emit_all cs (emit ctx c)

  unfoldable pub emit_times : (pad c : ℕ) → C → C
  emit_times zero c ctx = ctx
  emit_times (suc pad) c ctx = emit_times pad c (emit ctx c)

  unfoldable pub emit_padded : List ℕ → (width : ℕ) (zero_pad : Bool) → C → C
  unfolding emit_all emit_times
  emit_padded text width zero_pad ctx =
      emit_all text (emit_times (width - length text) (if zero_pad then 48 else 32) ctx)

  unfoldable pub emit_unsigned :
      (value base : ℕ) (upper : Bool) (width : ℕ) (zero_pad : Bool) → C → C
  unfolding digits emit_padded
  emit_unsigned value base upper width zero_pad ctx =
      let table = if upper then upper_digits else lower in
      emit_padded (reverse (digits 32 table value base)) width zero_pad ctx

  -- `(uint64_t)(-(value + 1)) + 1` of a negative word: `-(value + 1)` is its complement.
  unfoldable pub emit_signed : (value width : ℕ) (zero_pad : Bool) → C → C
  unfolding emit_unsigned
  emit_signed value width zero_pad ctx =
      if leb (2 ^ 63) value
      then emit_unsigned (u64 (not64 value + 1)) 10 false (width - 1) zero_pad (emit ctx 45)
      else emit_unsigned value 10 false width zero_pad ctx

  -- The switch on the letter: the arguments left, and the context.
  unfoldable pub directive : Letter → Directive → List Arg → C → Option (List Arg × C)
  unfolding emit_padded emit_signed emit_unsigned int_of
  directive decimal d (word w ∷ rest) ctx =
      some (rest, emit_signed (if ltb 0 d.len then w else int_of w) d.width d.zero_pad ctx)
  directive unsigned d (word w ∷ rest) ctx =
      some (rest, emit_unsigned (if ltb 0 d.len then w else u32 w) 10 false d.width d.zero_pad ctx)
  directive (hex upper) d (word w ∷ rest) ctx =
      some (rest, emit_unsigned (if ltb 0 d.len then w else u32 w) 16 upper d.width d.zero_pad ctx)
  directive pointer d (word w ∷ rest) ctx =
      some (rest, emit_unsigned w 16 false 16 true (emit (emit ctx 48) 120))
  directive string d (str s ∷ rest) ctx = some (rest, emit_padded (str_or_null s) d.width false ctx)
  directive character d (word w ∷ rest) ctx = some (rest, emit ctx (w % 256))
  directive percent d args ctx = some (args, emit ctx 37)
  directive (other c) d args ctx = some (args, emit (emit ctx 37) c)
  directive _ _ _ _ = none

  -- The letter, read at the front of what is left; `again` is the rest of the loop.
  unfoldable pub on_letter :
      (again : List ℕ → List Arg → C → Option C)
      → Directive
      → (p : List ℕ) → List Arg
      → C
      → Option C
  unfolding directive letter_of
  on_letter again d [] args ctx = none
  on_letter again d (letter ∷ rest) args ctx = elim (directive (letter_of letter) d args ctx) [
    | none ↦ none
    | some r ↦ again rest r.0 r.1
  ]

  -- After a `%`.
  unfoldable pub on_percent :
      (again : List ℕ → List Arg → C → Option C) → (p : List ℕ) → List Arg → C → Option C
  unfolding read_directive on_letter
  on_percent again [] args ctx = some ctx
  on_percent again (c ∷ cs) args ctx =
      let d = read_directive (c ∷ cs) in on_letter again d.0 d.1 args ctx

  -- The loop over the format, on fuel: each round drops a character at least.
  unfoldable pub format : (fuel : ℕ) (p : List ℕ) → List Arg → C → Option C
  unfolding on_percent
  format fuel [] args ctx = some ctx
  format zero (c ∷ cs) args ctx = none
  format (suc fuel) (c ∷ cs) args ctx = elim (c == 37) [
    | false ↦ format fuel cs args (emit ctx c)
    | true ↦ on_percent (λ p rest k. format fuel p rest k) cs args ctx
  ]

  unfoldable pub kvprintf : List ℕ → List Arg → C → Option C
  unfolding format
  kvprintf fmt args ctx = format (length fmt) fmt args ctx

pub record SnprintfCtx : Type 0 where
  pub mem : Memory
  pub buf : ℕ
  pub size : ℕ
  pub written : ℕ

unfoldable pub snprintf_emit : SnprintfCtx → ℕ → SnprintfCtx
snprintf_emit ctx c =
    let stored =
      if ltb (ctx.written + 1) ctx.size then store ctx.mem (ctx.buf + ctx.written) c else ctx.mem in
    record ctx { mem = stored; written = ctx.written + 1 }

-- The memory after, and the number that is returned.
unfoldable pub ksnprintf : Memory → (buf size : ℕ) → List ℕ → List Arg → Option (Memory × ℕ)
unfolding kvprintf snprintf_emit
ksnprintf m buf size fmt args =
    elim (kvprintf snprintf_emit fmt args
      (record { mem = m; buf = buf; size = size; written = 0 })) [
        | none ↦ none
        | some ctx ↦
            let term = if ltb ctx.written (size - 1) then ctx.written else size - 1 in
            some (if ltb 0 size then store ctx.mem (buf + term) 0 else ctx.mem, u32 ctx.written)
      ]
