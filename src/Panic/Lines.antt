-- ===== src/Panic/Lines.antt =====
-- kernel/arch/x86_64/cpu/panic.c: that the report of an exception reaches the serial line whole.
use quin_kernel_template.Base.{
  ℕ, zero, suc, ◌+◌, ◌<◌, ◌≡◌, ◌⊎◌, inl, inr, refl, sym, ap, subst, ◌∙◌, arith, true, false, ◌||◌,
  Bool, Option, none, some, List, [], ◌∷◌, ◌++◌, append_assoc, append_nil, leb, ◌==◌, if◌then◌else◌,
  Bool-cases,
}
use quin_kernel_template.Base.Text.{codes}
use quin_kernel_template.Framebuffer.{Console, Font}
use quin_kernel_template.Framebuffer.Frame.{inside}
use quin_kernel_template.Log.{Log, fb_black}
use quin_kernel_template.Log.Line.{shown, IsShown, IsLogged, put-IsLogged}
use quin_kernel_template.Log.Write.{text_of, run-IsLogged}
use quin_kernel_template.Memory.{Memory, load, load64}
use quin_kernel_template.Memory.Words.{load64_ext}
use quin_kernel_template.Panic.Report.{
  Frame, PrintCall, print_call, fb_red, exception_lines, register_lines, headline, fault_line,
  trace_line, panic_emit, panic_printf, print_all, print_frames, write_stack_trace, panic_exception,
  panic,
}
use quin_kernel_template.Panic.Trace.{IsStack, innermost, innermost_none}
use quin_kernel_template.Ports.{Ports}
use quin_kernel_template.Printf.{Arg, word, str, kvprintf}
use quin_kernel_template.Printf.Bounds.{Both, kvprintf_related}
use quin_kernel_template.Serial.{Serial, serial_putc}
use quin_kernel_template.Serial.Wire.{Uart, IsReady, crlf}

-- A run that emits nothing is defined.
abbrev Fits : PrintCall → Type 0
Fits c = kvprintf (λ (u : Unit {0}) (n : ℕ). tt) c.fmt c.args tt ≡ some tt

abbrev AllFit : List PrintCall → Type 0
AllFit [] = Unit
AllFit (c ∷ cs) = Fits c × AllFit cs

-- What a call prints.
unfoldable pub line_text : PrintCall → List ℕ
line_text c = elim (text_of c.fmt c.args) [ none ↦ [] | some t ↦ t ]

unfoldable pub lines_text : List PrintCall → List ℕ
unfolding line_text
lines_text [] = []
lines_text (c ∷ cs) = line_text c ++ lines_text cs

Fits-text : (c : PrintCall) → Fits c → text_of c.fmt c.args ≡ some (line_text c)
unfolding line_text
Fits-text c fits =
    finish (text_of c.fmt c.args) (kvprintf (λ (u : Unit {0}) (n : ℕ). tt) c.fmt c.args tt) fits (
      kvprintf_related (λ (l : List ℕ) (n : ℕ). l ++ (n ∷ [])) (λ (u : Unit {0}) (n : ℕ). tt)
        (λ (l : List ℕ) (u : Unit {0}). Unit {0}) (λ x y n r. tt) c.fmt c.args [] tt tt)
  where
    finish :
        (x : Option (List ℕ)) (y : Option (Unit {0}))
        → y ≡ some tt
        → Both (λ (l : List ℕ) (u : Unit {0}). Unit {0}) x y
        → x ≡ some (elim x [ none ↦ [] | some t ↦ t ])
    finish (some t) y e both = refl
    finish none none e both = absurd (ground (arith, e))
    finish none (some u) e both = absurd both

headline-Fits : (f : Frame) → Fits (headline f)
unfolding quin_kernel_template.Printf.kvprintf
headline-Fits f = refl

register_lines-AllFit : (f : Frame) → AllFit (register_lines f)
unfolding quin_kernel_template.Printf.kvprintf
register_lines-AllFit f = (refl, (refl, (refl, (refl, (refl, (refl, tt))))))

fault_line-Fits : (cr2 : ℕ) → Fits (fault_line cr2)
unfolding quin_kernel_template.Printf.kvprintf
fault_line-Fits cr2 = refl

trace_line-Fits : (depth return_addr : ℕ) → Fits (trace_line depth return_addr)
unfolding quin_kernel_template.Printf.kvprintf
trace_line-Fits depth return_addr = refl

exception_lines-AllFit : (f : Frame) (cr2 : ℕ) → AllFit (exception_lines f cr2)
exception_lines-AllFit f cr2 = elim (Bool-cases (f.vector == 14)) [
  | inl e ↦ rw e (headline-Fits f, (fault_line-Fits cr2, register_lines-AllFit f))
  | inr e ↦ rw e (headline-Fits f, register_lines-AllFit f)
]

-- The lines of a stack trace.
unfoldable pub trace_lines : (depth : ℕ) → List ℕ → List PrintCall
trace_lines depth [] = []
trace_lines depth (r ∷ rs) = trace_line depth r ∷ trace_lines (depth + 1) rs

-- No frame of the stack lies in the framebuffer.
abbrev pub OffScreen : Console → Memory → (rbp : ℕ) → List ℕ → Type 0
OffScreen c m rbp [] = Unit
OffScreen c m rbp (r ∷ rs) =
    ((k : ℕ) → k < 16 → inside c (rbp + k) ≡ false) × OffScreen c m (load64 m rbp) rs

module _ {D : Type 0} (io : Ports D) (uart : Uart io) (font : Font) (fuel : ℕ) (s : Log D)
    (enough : uart.patience < fuel) where
  abbrev Logs : Option (Log D) → List ℕ → Type 0
  Logs r text = IsLogged io uart font fuel s r text

  emit_step :
      (t : Log D) (c : ℕ) (p : Serial D)
      → serial_putc io fuel t.serial c ≡ some p
      → panic_emit io font fuel (some t) c
        ≡ some (record t {
          serial = p;
          mem = (shown font t.mem t.console c fb_red fb_black).0;
          console = (shown font t.mem t.console c fb_red fb_black).1;
        })
  unfolding panic_emit
  emit_step t c p e = rw (e, panic_emit) refl

  emit-IsLogged :
      (r : Option (Log D)) (text : List ℕ) (c : ℕ)
      → Logs r text
      → Logs (panic_emit io font fuel r c) (text ++ (c ∷ []))
  emit-IsLogged r text c l =
      put-IsLogged io uart font fuel s r (panic_emit io font fuel r c) text c fb_red enough l λ p e.
        ap (λ (o : Option (Log D)). panic_emit io font fuel o c) l.ends ∙ emit_step l.after c p e

  printf_step :
      (r k : Option (Log D)) (c : PrintCall)
      → kvprintf (panic_emit io font fuel) c.fmt c.args r ≡ some k
      → panic_printf io font fuel r c ≡ k
  unfolding panic_printf
  printf_step r k c e = ap (λ (o : Option (Option (Log D))). elim o [ none ↦ none | some t ↦ t ]) e

  printf-IsLogged :
      (r : Option (Log D)) (head : List ℕ) (c : PrintCall)
      → Fits c
      → Logs r head
      → Logs (panic_printf io font fuel r c) (head ++ line_text c)
  printf-IsLogged r head c fits l =
      let run =
        run-IsLogged io uart font fuel s (panic_emit io font fuel) r head (line_text c) c.fmt c.args
          (λ x y n logged. emit-IsLogged x y n logged) (Fits-text c fits) l in
      subst (λ (k : Option (Log D)). Logs k (head ++ line_text c))
        (sym (printf_step r run.0 c run.1)) run.2

  print_all-IsLogged :
      (cs : List PrintCall) (r : Option (Log D)) (head : List ℕ)
      → AllFit cs
      → Logs r head
      → Logs (print_all io font fuel r cs) (head ++ lines_text cs)
  unfolding print_all lines_text
  print_all-IsLogged [] r head fits l = subst (Logs r) (sym (append_nil head)) l
  print_all-IsLogged (c ∷ cs) r head fits l =
      subst (Logs (print_all io font fuel (panic_printf io font fuel r c) cs))
        (append_assoc head (line_text c) (lines_text cs))
        (print_all-IsLogged cs (panic_printf io font fuel r c) (head ++ line_text c) fits.1
          (printf-IsLogged r head c fits.0 l))

  -- What a frame off the screen holds is as it was.
  module _ (t : Log D) (rbp : ℕ)
      (kept : (a : ℕ) → inside s.console a ≡ false → load t.mem a ≡ load s.mem a)
      (off : (k : ℕ) → k < 16 → inside s.console (rbp + k) ≡ false) where
    saved_kept : load64 t.mem rbp ≡ load64 s.mem rbp
    saved_kept = load64_ext t.mem s.mem rbp λ k lt. kept (rbp + k) (off k (omega arith))

    return_kept : load64 t.mem (rbp + 8) ≡ load64 s.mem (rbp + 8)
    return_kept = load64_ext t.mem s.mem (rbp + 8) λ k lt.
        let place : rbp + 8 + k ≡ rbp + (8 + k) = omega arith in
        rw place (kept (rbp + (8 + k)) (off (8 + k) (omega arith)))

  -- The rounds of the loop, on any memory.
  frames_end :
      (left depth : ℕ) (t : Log D) → print_frames io font fuel left depth 0 (some t) ≡ some t
  unfolding print_frames
  frames_end zero depth t = refl
  frames_end (suc left) depth t = refl

  frames_step :
      (left depth rbp saved r : ℕ) (t : Log D)
      → load64 t.mem rbp ≡ saved
      → load64 t.mem (rbp + 8) ≡ r
      → (rbp == 0 || r == 0) ≡ false
      → print_frames io font fuel (suc left) depth rbp (some t) ≡ (
          if leb saved rbp
          then panic_printf io font fuel (some t) (trace_line depth r)
          else print_frames io font fuel left
              (depth + 1)
              saved
              (panic_printf io font fuel (some t) (trace_line depth r)))
  unfolding print_frames
  frames_step left depth rbp saved r t e f g = rw (e, f, g)

  settled : (r : Option (Log D)) (head : List ℕ) (l : Logs r head) → Logs (some l.after) head
  settled r head l = subst (λ (o : Option (Log D)). Logs o head) l.ends l

  frames-IsLogged :
      (left depth rbp : ℕ) (rs : List ℕ) (r : Option (Log D)) (head : List ℕ)
      → IsStack s.mem rbp rs
      → OffScreen s.console s.mem rbp rs
      → (l : Logs r head)
      → Logs
          (print_frames io font fuel left depth rbp (some l.after))
          (head ++ lines_text (trace_lines depth (innermost left rs)))
  unfolding print_frames lines_text trace_lines
  frames-IsLogged zero depth rbp rs r head st off l =
      subst (Logs (some l.after)) (sym (append_nil head)) (settled r head l)
  frames-IsLogged (suc left) depth rbp [] r head st off l =
      subst (λ (k : Option (Log D)). Logs k (head ++ []))
        (sym (
          ap (λ (b : ℕ). print_frames io font fuel (suc left) depth b (some l.after)) st
          ∙ frames_end (suc left) depth l.after))
        (subst (Logs (some l.after)) (sym (append_nil head)) (settled r head l))
  frames-IsLogged (suc left) depth rbp (a ∷ rs) r head st off l =
      subst
        (λ (k : Option (Log D)). Logs k (
          head
          ++ (line_text (trace_line depth a)
              ++ lines_text (trace_lines (depth + 1) (innermost left rs)))))
        (sym (
          frames_step left depth rbp saved a l.after (saved_kept l.after rbp l.kept off.0)
            (return_kept l.after rbp l.kept off.0 ∙ st.1) (ground (arith, st.0, st.2))))
        (subst (Logs (if leb saved rbp then printed else later))
          (append_assoc head (line_text (trace_line depth a))
            (lines_text (trace_lines (depth + 1) (innermost left rs))))
          (rest st.3 (
            frames-IsLogged left (depth + 1) saved rs printed
              (head ++ line_text (trace_line depth a)) st.4 off.1 l')))
    where
      saved : ℕ
      saved = load64 s.mem rbp

      printed : Option (Log D)
      printed = panic_printf io font fuel (some l.after) (trace_line depth a)

      later : Option (Log D)
      later = print_frames io font fuel left (depth + 1) saved printed

      l' : Logs printed (head ++ line_text (trace_line depth a))
      l' =
          printf-IsLogged (some l.after) head (trace_line depth a) (trace_line-Fits depth a)
            (settled r head l)

      text : List ℕ
      text = head ++ line_text (trace_line depth a)

      above : List ℕ
      above = lines_text (trace_lines (depth + 1) (innermost left rs))

      rest :
          (saved ≡ 0) ⊎ (rbp < saved)
          → Logs (print_frames io font fuel left (depth + 1) saved (some l'.after)) (text ++ above)
          → Logs (if leb saved rbp then printed else later) (text ++ above)
      rest (inl e) ih =
          let low : leb saved rbp ≡ true = ground arith in
          let none_above : above ≡ [] =
            ap (λ (rs : List ℕ). lines_text (trace_lines (depth + 1) rs))
              (innermost_none left s.mem saved rs e st.4) in
          subst (λ (b : Bool). Logs (if b then printed else later) (text ++ above)) (sym low)
            (subst (λ (t : List ℕ). Logs printed (text ++ t)) (sym none_above)
              (subst (Logs printed) (sym (append_nil text)) l'))
      rest (inr up) ih =
          let high : leb saved rbp ≡ false = ground arith in
          subst (λ (b : Bool). Logs (if b then printed else later) (text ++ above)) (sym high)
            (subst
              (λ (o : Option (Log D)).
                Logs (print_frames io font fuel left (depth + 1) saved o) (text ++ above))
              (sym l'.ends) ih)

  heading-Fits : Fits (print_call (codes "Stack trace:\n") [])
  unfolding quin_kernel_template.Printf.kvprintf
  heading-Fits = refl

  heading_text : line_text (print_call (codes "Stack trace:\n") []) ≡ codes "Stack trace:\n"
  unfolding line_text quin_kernel_template.Printf.kvprintf
  heading_text = refl

  start-IsLogged : IsReady io uart s.serial → IsShown s.console → Logs (some s) []
  unfolding crlf
  start-IsLogged ready sound = record {
    after = s;
    ends = refl;
    line = sym (append_nil (uart.sent s.serial.device));
    ready = ready;
    console = sound;
    same_mode = refl;
    kept = λ a out. refl;
    same_level = refl;
  }

  trace-IsLogged :
      (rbp : ℕ) (rs : List ℕ) (r : Option (Log D)) (head : List ℕ)
      → IsStack s.mem rbp rs
      → OffScreen s.console s.mem rbp rs
      → Logs r head
      → Logs
          (write_stack_trace io font fuel rbp r)
          (head ++ (codes "Stack trace:\n" ++ lines_text (trace_lines 0 (innermost 16 rs))))
  unfolding write_stack_trace
  trace-IsLogged rbp rs r head st off l =
      subst
        (λ (o : Option (Log D)).
          Logs (print_frames io font fuel 16 0 rbp o)
            (head ++ (codes "Stack trace:\n" ++ lines_text (trace_lines 0 (innermost 16 rs)))))
        (sym opened.ends)
        (subst (Logs (print_frames io font fuel 16 0 rbp (some opened.after)))
          (append_assoc head (codes "Stack trace:\n")
            (lines_text (trace_lines 0 (innermost 16 rs))))
          (frames-IsLogged 16 0 rbp rs
            (panic_printf io font fuel r (print_call (codes "Stack trace:\n") []))
            (head ++ codes "Stack trace:\n") st off opened))
    where
      opened :
          Logs
            (panic_printf io font fuel r (print_call (codes "Stack trace:\n") []))
            (head ++ codes "Stack trace:\n")
      opened =
          subst
            (λ (t : List ℕ).
              Logs (panic_printf io font fuel r (print_call (codes "Stack trace:\n") []))
                (head ++ t))
            heading_text
            (printf-IsLogged r head (print_call (codes "Stack trace:\n") []) heading-Fits l)

  -- With a UART that is found and empty in time, no console or a sound one, and a stack that is
  -- chained upwards and lies outside the framebuffer, panic_exception gets to its halt. It has put on
  -- the line the name of the exception and its numbers, for a page fault its address, the registers,
  -- and the return addresses of the sixteen innermost calls; no memory outside the framebuffer has
  -- changed.
  pub panic_exception_lem :
      (frame : Frame) (cr2 : ℕ) (rs : List ℕ)
      → IsReady io uart s.serial
      → IsShown s.console
      → IsStack s.mem frame.rbp rs
      → OffScreen s.console s.mem frame.rbp rs
      → IsLogged io uart font fuel s (panic_exception io font fuel s frame cr2) (
          lines_text (exception_lines frame cr2)
          ++ (codes "Stack trace:\n" ++ lines_text (trace_lines 0 (innermost 16 rs))))
  unfolding panic_exception
  panic_exception_lem frame cr2 rs ready sound st off =
      trace-IsLogged frame.rbp rs (print_all io font fuel (some s) (exception_lines frame cr2))
        (lines_text (exception_lines frame cr2)) st off
        (print_all-IsLogged (exception_lines frame cr2) (some s) []
          (exception_lines-AllFit frame cr2) (start-IsLogged ready sound))

  -- The same of panic, for a message whose arguments fit its format.
  pub panic_lem :
      (message : PrintCall) (rbp : ℕ) (rs : List ℕ)
      → Fits message
      → IsReady io uart s.serial
      → IsShown s.console
      → IsStack s.mem rbp rs
      → OffScreen s.console s.mem rbp rs
      → IsLogged io uart font fuel s (panic io font fuel s message rbp) (
          lines_text (print_call (codes "[PANIC] ") [] ∷ message ∷ print_call (codes "\n") [] ∷ [])
          ++ (codes "Stack trace:\n" ++ lines_text (trace_lines 0 (innermost 16 rs))))
  unfolding panic lines_text print_all quin_kernel_template.Printf.kvprintf
  panic_lem message rbp rs fits ready sound st off =
      trace-IsLogged rbp rs
        (print_all io font fuel (some s)
          (print_call (codes "[PANIC] ") [] ∷ message ∷ print_call (codes "\n") [] ∷ []))
        (lines_text (print_call (codes "[PANIC] ") [] ∷ message ∷ print_call (codes "\n") [] ∷ []))
        st off
        (print_all-IsLogged
          (print_call (codes "[PANIC] ") [] ∷ message ∷ print_call (codes "\n") [] ∷ []) (some s) []
          (refl, (fits, (refl, tt))) (start-IsLogged ready sound))
