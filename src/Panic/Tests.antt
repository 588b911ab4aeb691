-- ===== src/Panic/Tests.antt =====
-- Runs of kernel/arch/x86_64/cpu/panic.c's stack trace on two frames, at 4096 and at 8192.
use quin_kernel_template.Base.{ℕ, ◌+◌, ◌≡◌, refl, false, ◌++◌, arith, inl, inr, [], ◌∷◌}
use quin_kernel_template.Memory.{Memory, load64, store64, load}
use quin_kernel_template.Base.Text.{codes}
use quin_kernel_template.Framebuffer.Frame.{inside}
use quin_kernel_template.Log.{Log}
use quin_kernel_template.Log.Line.{IsLogged}
use quin_kernel_template.Log.Sample.{bar, off, log}
use quin_kernel_template.Panic.Lines.{line_text, lines_text, trace_lines}
use quin_kernel_template.Panic.Text.{text, report, registers, calls, panic_exception-text}
use quin_kernel_template.Panic.Report.{Frame, headline, panic_exception}
use quin_kernel_template.Panic.Trace.{IsStack, innermost, print_stack_trace}
use quin_kernel_template.Printf.{kvprintf}
use quin_kernel_template.Serial.Sample.{Line, line_ports, line_uart, idle-IsReady}

abbrev frames : Memory
frames = store64 (store64 (store64 (λ a. 0) 4096 8192) 4104 77) 8200 88

frames-IsStack : IsStack frames 4096 (77 ∷ 88 ∷ [])
unfolding load64 store64 load
frames-IsStack = (
  omega arith,
  refl,
  omega arith,
  inr (omega arith),
  (omega arith, refl, omega arith, inl refl, refl),
)

-- A frame that points down ends the walk.
downwards : print_stack_trace (store64 (store64 (λ a. 0) 4096 64) 4104 77) 4096 ≡ 77 ∷ []
unfolding print_stack_trace load64 store64 load
downwards = refl

off_screen : (a : ℕ) → inside off a ≡ false
off_screen a = ground arith

-- A page fault at address 10, with no framebuffer.
abbrev fault : Frame
fault = record {
  r15 = 0;
  r14 = 0;
  r13 = 0;
  r12 = 0;
  r11 = 0;
  r10 = 0;
  r9 = 0;
  r8 = 0;
  rbp = 4096;
  rdi = 0;
  rsi = 0;
  rdx = 0;
  rcx = 0;
  rbx = 0;
  rax = 0;
  vector = 14;
  error_code = 2;
  rip = 77;
  cs = 8;
  rflags = 2;
}

headline_text : line_text (headline fault) ≡ codes "[PANIC] #PF Page Fault (vector 14, error 0x2)\n"
unfolding line_text kvprintf
headline_text = refl

trace_text :
    lines_text (trace_lines 0 (77 ∷ 88 ∷ []))
    ≡ codes "  #0 0x000000000000004d\n  #1 0x0000000000000058\n"
unfolding lines_text trace_lines kvprintf
trace_text = refl

abbrev faulty : Log Line
faulty = record log { mem = frames }

-- Only a page fault shows CR2.
report_of_fault :
    text (report fault 10)
    ≡ codes
        "[PANIC] #PF Page Fault (vector 14, error 0x2)\nCR2=0x000000000000000a (faulting address)\n"
      ++ text (registers fault)
unfolding text kvprintf
report_of_fault = refl

panic_exception-text_example :
    IsLogged line_ports line_uart bar 3 faulty (panic_exception line_ports bar 3 faulty fault 10) (
      text (report fault 10)
      ++ (codes "Stack trace:\n" ++ text (calls 0 (innermost 16 (77 ∷ 88 ∷ [])))))
unfolding load64 store64
panic_exception-text_example =
    panic_exception-text line_ports line_uart bar 3 faulty (omega arith) fault 10 (77 ∷ 88 ∷ [])
      idle-IsReady (inl refl) frames-IsStack
      ((λ k lt. off_screen (4096 + k)), ((λ k lt. off_screen (8192 + k)), tt))
