-- ===== src/Panic/Text.antt =====
-- The text of kernel/arch/x86_64/cpu/panic.c's report of an exception, line by line as it is read on
-- the screen.
use quin_kernel_template.Base.{
  ℕ, zero, suc, ◌+◌, ◌^◌, ◌<◌, ◌≤◌, ◌≡◌, refl, ap, ◌∙◌, true, inl, inr, Bool-cases, arith, some,
  none, Option, List, [], ◌∷◌, ◌++◌, length, ◌==◌, if◌then◌else◌, subst,
}
use quin_kernel_template.Base.Text.{codes}
use quin_kernel_template.Framebuffer.{Font}
use quin_kernel_template.Log.{Log}
use quin_kernel_template.Log.Line.{IsShown, IsLogged}
use quin_kernel_template.Serial.Wire.{Uart, IsReady}
use quin_kernel_template.Panic.Lines.{
  line_text, lines_text, trace_lines, OffScreen, panic_exception_lem,
}
use quin_kernel_template.Panic.Report.{
  Frame, PrintCall, print_call, exception_name, headline, fault_line, register_lines, trace_line,
  exception_lines, panic_exception,
}
use quin_kernel_template.Panic.Trace.{IsStack, innermost}
use quin_kernel_template.Ports.{Ports}
use quin_kernel_template.Printf.{word, format, kvprintf}
use quin_kernel_template.Printf.Pieces.{
  Piece, plain, string, decimal, hex, hex4, hex16, index, append, line_format, line_args,
  pieces_text, AllGood, all_rounds, no_percent, pieces_lem,
}

-- The name of the vector and its number, with the error code.
abbrev pub heading : Frame → List Piece
heading f =
    plain (codes "[PANIC] ")
    ∷ string (exception_name f.vector)
    ∷ plain (codes " (vector ")
    ∷ decimal f.vector
    ∷ plain (codes ", error 0x")
    ∷ hex f.error_code
    ∷ plain (codes ")\n")
    ∷ []

abbrev pub address : (cr2 : ℕ) → List Piece
address cr2 = plain (codes "CR2=0x") ∷ hex16 cr2 ∷ plain (codes " (faulting address)\n") ∷ []

-- Three registers under their names.
abbrev pub three : (a : List ℕ) (v : ℕ) (b : List ℕ) (w : ℕ) (c : List ℕ) (x : ℕ) → List Piece
three a v b w c x =
    plain a ∷ hex16 v ∷ plain b ∷ hex16 w ∷ plain c ∷ hex16 x ∷ plain (codes "\n") ∷ []

abbrev pub pointers : Frame → List Piece
pointers f =
    plain (codes "RIP=0x")
    ∷ hex16 f.rip
    ∷ plain (codes " CS=0x")
    ∷ hex4 f.cs
    ∷ plain (codes " RFLAGS=0x")
    ∷ hex16 f.rflags
    ∷ plain (codes "\n")
    ∷ []

abbrev pub registers : Frame → List (List Piece)
registers f =
    pointers f
    ∷ three (codes "RAX=0x") f.rax (codes " RBX=0x") f.rbx (codes " RCX=0x") f.rcx
    ∷ three (codes "RDX=0x") f.rdx (codes " RSI=0x") f.rsi (codes " RDI=0x") f.rdi
    ∷ three (codes "RBP=0x") f.rbp (codes " R8= 0x") f.r8 (codes " R9= 0x") f.r9
    ∷ three (codes "R10=0x") f.r10 (codes " R11=0x") f.r11 (codes " R12=0x") f.r12
    ∷ three (codes "R13=0x") f.r13 (codes " R14=0x") f.r14 (codes " R15=0x") f.r15
    ∷ []

-- The report up to the stack trace: CR2 is shown for a page fault, which is vector 14.
abbrev pub report : Frame → (cr2 : ℕ) → List (List Piece)
report f cr2 = heading f ∷ (if f.vector == 14 then address cr2 ∷ registers f else registers f)

abbrev pub call_line : (depth return_addr : ℕ) → List Piece
call_line depth return_addr =
    plain (codes "  #")
    ∷ index depth
    ∷ plain (codes " 0x")
    ∷ hex16 return_addr
    ∷ plain (codes "\n")
    ∷ []

unfoldable pub calls : (depth : ℕ) → List ℕ → List (List Piece)
calls depth [] = []
calls depth (r ∷ rs) = call_line depth r ∷ calls (depth + 1) rs

unfoldable pub text : List (List Piece) → List ℕ
text [] = []
text (line ∷ lines) = pieces_text line ++ text lines

line_lem :
    (c : PrintCall) (xs : List Piece) (spare : ℕ)
    → c.fmt ≡ line_format xs
    → c.args ≡ line_args xs
    → length c.fmt ≡ all_rounds xs spare
    → AllGood xs
    → line_text c ≡ pieces_text xs
unfolding line_text kvprintf
line_lem c xs spare f a n good =
    let same : kvprintf append c.fmt c.args [] ≡ some (pieces_text xs) =
      ap (λ m. format append m c.fmt c.args []) n
      ∙ ap (λ p. format append (all_rounds xs spare) p c.args []) f
      ∙ ap (λ args. format append (all_rounds xs spare) (line_format xs) args []) a
      ∙ pieces_lem xs spare [] good in
    ap (λ (o : Option (List ℕ)). elim o [ none ↦ [] | some t ↦ t ]) same

-- The calls print the lines.
abbrev AllSay : List PrintCall → List (List Piece) → Type 0
AllSay [] [] = Unit
AllSay (c ∷ cs) (xs ∷ xss) = (line_text c ≡ pieces_text xs) × AllSay cs xss
AllSay _ _ = ⊥

AllSay-text :
    (cs : List PrintCall) (xss : List (List Piece)) → AllSay cs xss → lines_text cs ≡ text xss
unfolding lines_text text
AllSay-text [] [] h = refl
AllSay-text [] (xs ∷ xss) h = absurd h
AllSay-text (c ∷ cs) [] h = absurd h
AllSay-text (c ∷ cs) (xs ∷ xss) h =
    ap (λ t. t ++ lines_text cs) h.0 ∙ ap (λ t. pieces_text xs ++ t) (AllSay-text cs xss h.1)

headline_says : (f : Frame) → line_text (headline f) ≡ pieces_text (heading f)
headline_says f =
    line_lem (headline f) (heading f) 5 refl refl refl
      (refl, (tt, (refl, (tt, (refl, (tt, (refl, tt)))))))

fault_says : (cr2 : ℕ) → line_text (fault_line cr2) ≡ pieces_text (address cr2)
fault_says cr2 = line_lem (fault_line cr2) (address cr2) 5 refl refl refl (refl, (tt, (refl, tt)))

three_says :
    (a : List ℕ) (v : ℕ) (b : List ℕ) (w : ℕ) (c : List ℕ) (x : ℕ) {fmt : List ℕ}
    → fmt ≡ line_format (three a v b w c x)
    → length fmt ≡ all_rounds (three a v b w c x) 15
    → no_percent a ≡ true
    → no_percent b ≡ true
    → no_percent c ≡ true
    → line_text (print_call fmt (word v ∷ word w ∷ word x ∷ [])) ≡ pieces_text (three a v b w c x)
three_says a v b w c x {fmt} e n ga gb gc =
    line_lem (print_call fmt (word v ∷ word w ∷ word x ∷ [])) (three a v b w c x) 15 e refl n
      (ga, (tt, (gb, (tt, (gc, (tt, (refl, tt)))))))

registers_say : (f : Frame) → AllSay (register_lines f) (registers f)
registers_say f = (
  line_lem
      (print_call (codes "RIP=0x%016lx CS=0x%04lx RFLAGS=0x%016lx\n")
        (word f.rip ∷ word f.cs ∷ word f.rflags ∷ []))
      (pointers f) 14 refl refl refl (refl, (tt, (refl, (tt, (refl, (tt, (refl, tt))))))),
  (
    three_says (codes "RAX=0x") f.rax (codes " RBX=0x") f.rbx (codes " RCX=0x") f.rcx refl refl refl
        refl refl,
    (
      three_says (codes "RDX=0x") f.rdx (codes " RSI=0x") f.rsi (codes " RDI=0x") f.rdi refl refl
          refl refl refl,
      (
        three_says (codes "RBP=0x") f.rbp (codes " R8= 0x") f.r8 (codes " R9= 0x") f.r9 refl refl
            refl refl refl,
        (
          three_says (codes "R10=0x") f.r10 (codes " R11=0x") f.r11 (codes " R12=0x") f.r12 refl
              refl refl refl refl,
          (
            three_says (codes "R13=0x") f.r13 (codes " R14=0x") f.r14 (codes " R15=0x") f.r15 refl
                refl refl refl refl,
            tt,
          ),
        ),
      ),
    ),
  ),
)

call_says :
    (depth r : ℕ)
    → depth < 2 ^ 31
    → line_text (trace_line depth r) ≡ pieces_text (call_line depth r)
call_says depth r small =
    line_lem (trace_line depth r) (call_line depth r) 6 refl refl refl
      (refl, (small, (refl, (tt, (refl, tt)))))

report_says : (f : Frame) (cr2 : ℕ) → AllSay (exception_lines f cr2) (report f cr2)
report_says f cr2 = elim (Bool-cases (f.vector == 14)) [
  | inl e ↦ rw e (headline_says f, (fault_says cr2, registers_say f))
  | inr e ↦ rw e (headline_says f, registers_say f)
]

calls_say :
    (depth : ℕ) (rs : List ℕ)
    → depth + length rs ≤ 2 ^ 31
    → lines_text (trace_lines depth rs) ≡ text (calls depth rs)
unfolding lines_text trace_lines text calls
calls_say depth [] small = refl
calls_say depth (r ∷ rs) small =
    ap (λ t. t ++ lines_text (trace_lines (depth + 1) rs)) (call_says depth r (omega arith))
    ∙ ap (λ t. pieces_text (call_line depth r) ++ t) (calls_say (depth + 1) rs (omega arith))

length-innermost : (n : ℕ) (rs : List ℕ) → length (innermost n rs) ≤ n
length-innermost zero rs = omega arith
length-innermost (suc n) [] = omega arith
length-innermost (suc n) (r ∷ rs) = omega (arith, length-innermost n rs)

module _ {D : Type 0} (io : Ports D) (uart : Uart io) (font : Font) (fuel : ℕ) (s : Log D)
    (enough : uart.patience < fuel) where
  -- With a UART that is found and empty in time, no console or a sound one, and a stack that is
  -- chained upwards and lies outside the framebuffer, panic_exception gets to its halt. It has put
  -- on the line the name that the table of exceptions has for the vector with the vector and the
  -- error code, the line with CR2 exactly for vector 14, each register behind its own name, and the
  -- return addresses of the sixteen innermost calls with their depths. The numbers are numerals as
  -- emit_unsigned writes them. No memory outside the framebuffer has changed.
  pub panic_exception-text :
      (frame : Frame) (cr2 : ℕ) (rs : List ℕ)
      → IsReady io uart s.serial
      → IsShown s.console
      → IsStack s.mem frame.rbp rs
      → OffScreen s.console s.mem frame.rbp rs
      → IsLogged io uart font fuel s
          (panic_exception io font fuel s frame cr2)
          (text (report frame cr2) ++ (codes "Stack trace:\n" ++ text (calls 0 (innermost 16 rs))))
  panic_exception-text frame cr2 rs ready sound st off =
      let calls_text = calls_say 0 (innermost 16 rs) (omega (arith, length-innermost 16 rs)) in
      let report_text =
        AllSay-text (exception_lines frame cr2) (report frame cr2) (report_says frame cr2) in
      subst (IsLogged io uart font fuel s (panic_exception io font fuel s frame cr2))
        (ap (λ t. t ++ (codes "Stack trace:\n" ++ lines_text (trace_lines 0 (innermost 16 rs))))
            report_text
          ∙ ap (λ t. text (report frame cr2) ++ (codes "Stack trace:\n" ++ t)) calls_text)
        (panic_exception_lem io uart font fuel s enough frame cr2 rs ready sound st off)
