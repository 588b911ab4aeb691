-- ===== src/Printf/Fuel.antt =====
-- That printf.c's loop over the format comes to its end.
use quin_kernel_template.Base.{
  ℕ, zero, suc, ◌+◌, ◌*◌, ◌-◌, ◌≤◌, ◌≡◌, refl, Option, none, some, List, [], ◌∷◌, length, arith,
  ◌==◌, false, ap, subst, ◌∙◌,
}
use quin_kernel_template.Printf.{
  Arg, word, str, Letter, decimal, unsigned, pointer, string, character, percent, hex, other,
  Directive, directive, letter_of, read_zero, read_width, read_length, read_directive, on_letter,
  on_percent, format, kvprintf,
}

length-read_width : (p : List ℕ) (w : ℕ) → length (read_width p w).0 ≤ length p
unfolding read_width
length-read_width [] w = omega arith
length-read_width (c ∷ cs) w = ground (arith, length-read_width cs (w * 10 + (c - 48)))

length-read_length : (p : List ℕ) (n : ℕ) → length (read_length p n).0 ≤ length p
unfolding read_length
length-read_length [] n = omega arith
length-read_length (c ∷ cs) n = ground (arith, length-read_length cs (n + 1))

length-read_zero : (p : List ℕ) → length (read_zero p).0 ≤ length p
unfolding read_zero
length-read_zero [] = omega arith
length-read_zero (c ∷ cs) = ground arith

length-read_directive : (p : List ℕ) → length (read_directive p).1 ≤ length p
unfolding read_directive
length-read_directive p =
    let z = read_zero p in
    let w = read_width z.0 0 in
    omega (arith, length-read_zero p, length-read_width z.0 0, length-read_length w.0 0)

read_nothing : (read_directive []).1 ≡ []
unfolding read_directive read_zero read_width read_length
read_nothing = refl

-- Which arguments a conversion takes: the next one, of its kind, or none.
unfoldable pub takes : Letter → List Arg → Option (List Arg)
takes percent args = some args
takes (other c) args = some args
takes string (str s ∷ rest) = some rest
takes decimal (word w ∷ rest) = some rest
takes unsigned (word w ∷ rest) = some rest
takes pointer (word w ∷ rest) = some rest
takes character (word w ∷ rest) = some rest
takes (hex upper) (word w ∷ rest) = some rest
takes _ _ = none

-- A format whose conversions are complete, with arguments that have their kinds in order.
pub data Accepts : List ℕ → List Arg → Type 0 where
  done : {args : List Arg} → Accepts [] args
  plain :
      {c : ℕ} {p : List ℕ} {args : List Arg}
      → (c == 37) ≡ false
      → Accepts p args
      → Accepts (c ∷ p) args
  -- A single `%` ends the format.
  trailing : {args : List Arg} → Accepts (37 ∷ []) args
  conversion :
      {p : List ℕ} {args : List Arg} (letter : ℕ) (rest : List ℕ) (left : List Arg)
      → (read_directive p).1 ≡ letter ∷ rest
      → takes (letter_of letter) args ≡ some left
      → Accepts rest left
      → Accepts (37 ∷ p) args

module _ {C : Type 0} (emit : C → ℕ → C) where
  -- What a conversion takes is what its case of the switch takes.
  abbrev Taken : Option (List Arg) → Option (List Arg × C) → Type 0
  Taken none none = Unit
  Taken (some left) (some r) = r.0 ≡ left
  Taken _ _ = ⊥

  directive-Taken :
      (l : Letter) (d : Directive) (args : List Arg) (ctx : C)
      → Taken (takes l args) (directive emit l d args ctx)
  unfolding takes directive
  directive-Taken percent d args ctx = refl
  directive-Taken (other c) d args ctx = refl
  directive-Taken string d (str s ∷ rest) ctx = refl
  directive-Taken string d (word w ∷ rest) ctx = tt
  directive-Taken string d [] ctx = tt
  directive-Taken decimal d (word w ∷ rest) ctx = refl
  directive-Taken decimal d (str s ∷ rest) ctx = tt
  directive-Taken decimal d [] ctx = tt
  directive-Taken unsigned d (word w ∷ rest) ctx = refl
  directive-Taken unsigned d (str s ∷ rest) ctx = tt
  directive-Taken unsigned d [] ctx = tt
  directive-Taken (hex u) d (word w ∷ rest) ctx = refl
  directive-Taken (hex u) d (str s ∷ rest) ctx = tt
  directive-Taken (hex u) d [] ctx = tt
  directive-Taken pointer d (word w ∷ rest) ctx = refl
  directive-Taken pointer d (str s ∷ rest) ctx = tt
  directive-Taken pointer d [] ctx = tt
  directive-Taken character d (word w ∷ rest) ctx = refl
  directive-Taken character d (str s ∷ rest) ctx = tt
  directive-Taken character d [] ctx = tt

  returns_of :
      (o : Option (List Arg × C)) (left : List Arg)
      → Taken (some left) o
      → (ctx : C) × (o ≡ some (left, ctx))
  returns_of none left h = absurd h
  returns_of (some (left', ctx)) left h = (ctx, ap (λ l. some (l, ctx)) h)

  directive_returns :
      (l : Letter) (d : Directive) (args left : List Arg) (ctx : C)
      → takes l args ≡ some left
      → (ctx' : C) × (directive emit l d args ctx ≡ some (left, ctx'))
  directive_returns l d args left ctx e =
      returns_of (directive emit l d args ctx) left
        (subst (λ o. Taken o (directive emit l d args ctx)) e (directive-Taken l d args ctx))

  pub plain_step :
      (fuel c : ℕ) (p : List ℕ) (args : List Arg) (ctx : C)
      → (c == 37) ≡ false
      → format emit (suc fuel) (c ∷ p) args ctx ≡ format emit fuel p args (emit ctx c)
  unfolding format
  plain_step fuel c p args ctx apart = rw (apart, format) refl

  next_round : (fuel : ℕ) (rest : List ℕ) → Option (List Arg × C) → Option C
  next_round fuel rest o = elim o [ none ↦ none | some r ↦ format emit fuel rest r.0 r.1 ]

  format_returns :
      (fuel : ℕ) (p : List ℕ) (args : List Arg) (ctx : C)
      → length p ≤ fuel
      → Accepts p args
      → (ctx' : C) × (format emit fuel p args ctx ≡ some ctx')
  unfolding format on_percent on_letter next_round
  format_returns fuel [] args ctx le done = (ctx, refl)
  format_returns zero (c ∷ p) args ctx le a = absurd (omega arith)
  format_returns (suc fuel) (c ∷ p) args ctx le (plain apart a) =
      let (ctx', e) = format_returns fuel p args (emit ctx c) (omega arith) a in
      (ctx', plain_step fuel c p args ctx apart ∙ e)
  format_returns (suc fuel) (c ∷ p) args ctx le trailing = (ctx, refl)
  format_returns (suc fuel) (c ∷ []) args ctx le (conversion letter rest left parsed taken a) =
      absurd (ground (arith, parsed, read_nothing))
  format_returns (suc fuel) (c ∷ x ∷ p) args ctx le (conversion letter rest left parsed taken a) =
      let d = read_directive (x ∷ p) in
      let (ctx1, e1) = directive_returns (letter_of letter) d.0 args left ctx taken in
      let shorter : length rest ≤ fuel =
        omega (arith, length-read_directive (x ∷ p), ap length parsed) in
      let (ctx2, e2) = format_returns fuel rest left ctx1 shorter a in
      (
        ctx2,
        ap (λ q. on_letter emit (λ p rest k. format emit fuel p rest k) d.0 q args ctx) parsed
            ∙ ap (λ (o : Option (List Arg × C)). next_round fuel rest o) e1
            ∙ e2,
      )

  -- On a format whose conversions are complete, and on arguments that have their kinds in order,
  -- kvprintf comes to its end, whatever the callback does.
  pub kvprintf_returns :
      (p : List ℕ) (args : List Arg) (ctx : C)
      → Accepts p args
      → (ctx' : C) × (kvprintf emit p args ctx ≡ some ctx')
  unfolding kvprintf
  kvprintf_returns p args ctx a = format_returns (length p) p args ctx (omega arith) a
