-- ===== src/Printf/Bounds.antt =====
-- printf.c's loop under two callbacks at once, and the callback of `ksnprintf`.
use quin_kernel_template.Base.{
  ℕ, zero, suc, ◌+◌, ◌-◌, ◌<◌, ◌%◌, ◌^◌, ◌≡◌, refl, u32, u64, not64, leb, ltb, Bool-cases, inl, inr,
  ◌==◌, Bool, true, false, Option, none, some, List, [], ◌∷◌, length, if◌then◌else◌, arith,
}
use quin_kernel_template.Memory.{Memory, load, store, within, load-store}
use quin_kernel_template.Printf.{
  Arg, word, str, Directive, emit_all, emit_times, emit_padded, emit_unsigned, emit_signed,
  str_or_null, Letter, decimal, unsigned, pointer, string, character, percent, hex, other,
  letter_of, directive, int_of, read_directive, on_letter, on_percent, format, kvprintf,
  SnprintfCtx, snprintf_emit, ksnprintf, digits, upper_digits, lower,
}
use mathlib.Core.List.{reverse}

abbrev pub Both : {A B : Type 0} → (A → B → Type 0) → Option A → Option B → Type 0
Both R none none = Unit
Both R (some a) (some b) = R a b
Both R _ _ = ⊥

module _ {C D : Type 0} (e : C → ℕ → C) (f : D → ℕ → D) (R : C → D → Type 0)
    (step : (x : C) (y : D) (c : ℕ) → R x y → R (e x c) (f y c)) where
  all : (cs : List ℕ) (x : C) (y : D) → R x y → R (emit_all e cs x) (emit_all f cs y)
  unfolding emit_all
  all [] x y r = r
  all (c ∷ cs) x y r = all cs (e x c) (f y c) (step x y c r)

  times : (n c : ℕ) (x : C) (y : D) → R x y → R (emit_times e n c x) (emit_times f n c y)
  unfolding emit_times
  times zero c x y r = r
  times (suc n) c x y r = times n c (e x c) (f y c) (step x y c r)

  padded :
      (text : List ℕ) (width : ℕ) (z : Bool) (x : C) (y : D)
      → R x y
      → R (emit_padded e text width z x) (emit_padded f text width z y)
  unfolding emit_padded
  padded text width z x y r =
      let pad = if z then 48 else 32 in
      all text (emit_times e (width - length text) pad x) (emit_times f (width - length text) pad y)
        (times (width - length text) pad x y r)

  unsigned_lem :
      (v base : ℕ) (u : Bool) (width : ℕ) (z : Bool) (x : C) (y : D)
      → R x y
      → R (emit_unsigned e v base u width z x) (emit_unsigned f v base u width z y)
  unfolding emit_unsigned
  unsigned_lem v base u width z x y r =
      padded (reverse (digits 32 (if u then upper_digits else lower) v base)) width z x y r

  signed_lem :
      (v width : ℕ) (z : Bool) (x : C) (y : D)
      → R x y
      → R (emit_signed e v width z x) (emit_signed f v width z y)
  unfolding emit_signed
  signed_lem v width z x y r = elim (Bool-cases (leb (2 ^ 63) v)) [
    | inl neg ↦
        rw neg (
          unsigned_lem (u64 (not64 v + 1)) 10 false (width - 1) z (e x 45) (f y 45) (step x y 45 r))
    | inr pos ↦ rw pos (unsigned_lem v 10 false width z x y r)
  ]

  -- The same arguments are left, and the contexts are related.
  abbrev Left : List Arg × C → List Arg × D → Type 0
  Left a b = (a.0 ≡ b.0) × R a.1 b.1

  on_directive :
      (k : Letter) (d : Directive) (args : List Arg) (x : C) (y : D)
      → R x y
      → Both Left (directive e k d args x) (directive f k d args y)
  unfolding directive
  on_directive decimal d (word w ∷ rest) x y r =
      (refl, signed_lem (if ltb 0 d.len then w else int_of w) d.width d.zero_pad x y r)
  on_directive unsigned d (word w ∷ rest) x y r =
      (refl, unsigned_lem (if ltb 0 d.len then w else u32 w) 10 false d.width d.zero_pad x y r)
  on_directive (hex u) d (word w ∷ rest) x y r =
      (refl, unsigned_lem (if ltb 0 d.len then w else u32 w) 16 u d.width d.zero_pad x y r)
  on_directive pointer d (word w ∷ rest) x y r = (
    refl,
    unsigned_lem w 16 false 16 true (e (e x 48) 120) (f (f y 48) 120)
        (step (e x 48) (f y 48) 120 (step x y 48 r)),
  )
  on_directive string d (str s ∷ rest) x y r = (refl, padded (str_or_null s) d.width false x y r)
  on_directive character d (word w ∷ rest) x y r = (refl, step x y (w % 256) r)
  on_directive percent d args x y r = (refl, step x y 37 r)
  on_directive (other c) d args x y r = (refl, step (e x 37) (f y 37) c (step x y 37 r))
  on_directive decimal d [] x y r = tt
  on_directive unsigned d [] x y r = tt
  on_directive (hex u) d [] x y r = tt
  on_directive pointer d [] x y r = tt
  on_directive string d [] x y r = tt
  on_directive character d [] x y r = tt
  on_directive decimal d (str s ∷ rest) x y r = tt
  on_directive unsigned d (str s ∷ rest) x y r = tt
  on_directive (hex u) d (str s ∷ rest) x y r = tt
  on_directive pointer d (str s ∷ rest) x y r = tt
  on_directive string d (word s ∷ rest) x y r = tt
  on_directive character d (str s ∷ rest) x y r = tt

  -- The rest of the loop, for both.
  abbrev Again : (List ℕ → List Arg → C → Option C) → (List ℕ → List Arg → D → Option D) → Type 0
  Again a b =
      (p : List ℕ) (args : List Arg) (x : C) (y : D) → R x y → Both R (a p args x) (b p args y)

  after_letter :
      (a : List ℕ → List Arg → C → Option C) (b : List ℕ → List Arg → D → Option D)
      → Again a b
      → (d : Directive) (p : List ℕ) (args : List Arg) (x : C) (y : D) → R x y
      → Both R (on_letter e a d p args x) (on_letter f b d p args y)
  unfolding on_letter
  after_letter a b again d [] args x y r = tt
  after_letter a b again d (c ∷ rest) args x y r =
      go (directive e (letter_of c) d args x) (directive f (letter_of c) d args y)
        (on_directive (letter_of c) d args x y r)
    where
      go :
          (u : Option (List Arg × C)) (v : Option (List Arg × D))
          → Both Left u v
          → Both R
              (elim u [ none ↦ none | some q ↦ a rest q.0 q.1 ])
              (elim v [ none ↦ none | some q ↦ b rest q.0 q.1 ])
      go none none both = tt
      go (some q) (some q') both = rw both.0 (again rest q'.0 q.1 q'.1 both.1)
      go none (some q) both = absurd both
      go (some q) none both = absurd both

  after_percent :
      (a : List ℕ → List Arg → C → Option C) (b : List ℕ → List Arg → D → Option D)
      → Again a b
      → (p : List ℕ) (args : List Arg) (x : C) (y : D) → R x y
      → Both R (on_percent e a p args x) (on_percent f b p args y)
  unfolding on_percent
  after_percent a b again [] args x y r = r
  after_percent a b again (c ∷ cs) args x y r =
      after_letter a b again (read_directive (c ∷ cs)).0 (read_directive (c ∷ cs)).1 args x y r

  format_lem :
      (fuel : ℕ) (p : List ℕ) (args : List Arg) (x : C) (y : D)
      → R x y
      → Both R (format e fuel p args x) (format f fuel p args y)
  unfolding format
  format_lem fuel [] args x y r = r
  format_lem zero (c ∷ cs) args x y r = tt
  format_lem (suc fuel) (c ∷ cs) args x y r = elim (Bool-cases (c == 37)) [
    | inl found ↦
        rw (found, Both, format)
          ((after_percent (λ p rest k. format e fuel p rest k) (λ p rest k. format f fuel p rest k)
            (format_lem fuel) cs args x y r))
    | inr apart ↦
        rw (apart, Both, format) ((format_lem fuel cs args (e x c) (f y c) (step x y c r)))
  ]

  -- Two callbacks whose steps keep a relation between their contexts are run on the same format and
  -- arguments: either both runs are undefined, or both are defined and end in related contexts.
  pub kvprintf_related :
      (fmt : List ℕ) (args : List Arg) (x : C) (y : D)
      → R x y
      → Both R (kvprintf e fmt args x) (kvprintf f fmt args y)
  unfolding kvprintf
  kvprintf_related fmt args x y r = format_lem (length fmt) fmt args x y r

-- The format and the arguments fit each other: a run that emits nothing is defined.
abbrev pub Fits : List ℕ → List Arg → Type 0
Fits fmt args = kvprintf (λ (u : Bool) (c : ℕ). u) fmt args true ≡ some true

-- What `snprintf_emit` keeps: the buffer, and all memory but its first `size - 1` bytes.
record Within (m : Memory) (buf size : ℕ) (ctx : SnprintfCtx) (u : Bool) : Type 0 where
  same_buf : ctx.buf ≡ buf
  same_size : ctx.size ≡ size
  kept : (a : ℕ) → within buf (size - 1) a ≡ false → load ctx.mem a ≡ load m a

emit-Within :
    (m : Memory) (buf size : ℕ) (ctx : SnprintfCtx) (u : Bool) (c : ℕ)
    → Within m buf size ctx u
    → Within m buf size (snprintf_emit ctx c) u
unfolding snprintf_emit
emit-Within m buf size ctx u c w = record {
  same_buf = w.same_buf;
  same_size = w.same_size;
  kept = λ a out. ground (
    arith,
    w.kept a out,
    w.same_buf,
    w.same_size,
    load-store ctx.mem (ctx.buf + ctx.written) c a,
  );
}

-- What a call of `ksnprintf` has done.
pub record Printed (m : Memory) (buf size : ℕ) (result : Option (Memory × ℕ)) : Type 0 where
  pub after : Memory
  pub returned : ℕ
  pub defined : result ≡ some (after, returned)
  pub in_buffer : (a : ℕ) → within buf size a ≡ false → load after a ≡ load m a
  pub terminated : 0 < size → (t : ℕ) × (t < size) × (load after (buf + t) ≡ 0)

-- `ksnprintf` with arguments that fit the format returns, has written to no byte outside the `size`
-- bytes of the buffer, and has left a NUL in it, unless it has no bytes.
pub ksnprintf-Printed :
    (m : Memory) (buf size : ℕ) (fmt : List ℕ) (args : List Arg)
    → Fits fmt args
    → Printed m buf size (ksnprintf m buf size fmt args)
unfolding ksnprintf
ksnprintf-Printed m buf size fmt args fits =
    finish (kvprintf snprintf_emit fmt args start)
      (kvprintf (λ (u : Bool) (c : ℕ). u) fmt args true) fits
      (kvprintf_related snprintf_emit (λ u c. u) (Within m buf size)
        (λ x y c w. emit-Within m buf size x y c w) fmt args start true
        (record { same_buf = refl; same_size = refl; kept = λ a out. refl }))
  where
    start : SnprintfCtx
    start = record { mem = m; buf = buf; size = size; written = 0 }

    last : SnprintfCtx → ℕ
    last ctx = if ltb ctx.written (size - 1) then ctx.written else size - 1

    finish :
        (run : Option SnprintfCtx) (quiet : Option Bool)
        → quiet ≡ some true
        → Both (Within m buf size) run quiet
        → Printed m buf size (elim run [
          | none ↦ none
          | some ctx ↦
              some
                (if ltb 0 size then store ctx.mem (buf + last ctx) 0 else ctx.mem, u32 ctx.written)
        ])
    finish (some ctx) (some u) e w = record {
      after = if ltb 0 size then store ctx.mem (buf + last ctx) 0 else ctx.mem;
      returned = u32 ctx.written;
      defined = refl;
      in_buffer = λ a out. ground (arith, w.kept a, load-store ctx.mem (buf + last ctx) 0 a);
      terminated = λ pos. (
        last ctx,
        ground arith,
        ground (arith, load-store ctx.mem (buf + last ctx) 0 (buf + last ctx)),
      );
    }
    finish none none e w = absurd (ground arith)
    finish none (some u) e w = absurd w
    finish (some ctx) none e w = absurd w
