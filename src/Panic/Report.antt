-- ===== src/Panic/Report.antt =====
-- kernel/arch/x86_64/cpu/panic.c's text: what `panic_exception` and `panic` print on the serial port
-- and the console before they halt. The drivers' states are those of Log's record, of which the
-- level and the colour are not looked at here.
use quin_kernel_template.Base.{
  ℕ, zero, suc, ◌+◌, ◌||◌, Option, none, some, List, [], ◌∷◌, get_or, leb, ltb, ◌==◌, if◌then◌else◌,
}
use quin_kernel_template.Base.Text.{codes}
use quin_kernel_template.Framebuffer.{Font, fb_is_available, fb_console_putc}
use quin_kernel_template.Log.{Log, fb_color, fb_black}
use quin_kernel_template.Memory.{load64}
use quin_kernel_template.Panic.Trace.{max_depth}
use quin_kernel_template.Ports.{Ports}
use quin_kernel_template.Printf.{Arg, word, str, kvprintf}
use quin_kernel_template.Serial.{serial_putc}

abbrev pub fb_red : ℕ
fb_red = fb_color 0xff 0x40 0x40

abbrev pub exception_names : List (List ℕ)
exception_names =
    codes "#DE Divide Error"
    ∷ codes "#DB Debug"
    ∷ codes "NMI"
    ∷ codes "#BP Breakpoint"
    ∷ codes "#OF Overflow"
    ∷ codes "#BR BOUND Range Exceeded"
    ∷ codes "#UD Invalid Opcode"
    ∷ codes "#NM Device Not Available"
    ∷ codes "#DF Double Fault"
    ∷ codes "Reserved (Coprocessor Segment Overrun)"
    ∷ codes "#TS Invalid TSS"
    ∷ codes "#NP Segment Not Present"
    ∷ codes "#SS Stack-Segment Fault"
    ∷ codes "#GP General Protection Fault"
    ∷ codes "#PF Page Fault"
    ∷ codes "Reserved"
    ∷ codes "#MF x87 FPU Floating-Point Error"
    ∷ codes "#AC Alignment Check"
    ∷ codes "#MC Machine Check"
    ∷ codes "#XM SIMD Floating-Point Exception"
    ∷ codes "#VE Virtualization Exception"
    ∷ codes "#CP Control Protection Exception"
    ∷ codes "Reserved"
    ∷ codes "Reserved"
    ∷ codes "Reserved"
    ∷ codes "Reserved"
    ∷ codes "Reserved"
    ∷ codes "Reserved"
    ∷ codes "#HV Hypervisor Injection Exception"
    ∷ codes "#VC VMM Communication Exception"
    ∷ codes "#SX Security Exception"
    ∷ codes "Reserved"
    ∷ []

-- The interrupt frame, whole.
pub record Frame : Type 0 where
  pub r15 : ℕ
  pub r14 : ℕ
  pub r13 : ℕ
  pub r12 : ℕ
  pub r11 : ℕ
  pub r10 : ℕ
  pub r9 : ℕ
  pub r8 : ℕ
  pub rbp : ℕ
  pub rdi : ℕ
  pub rsi : ℕ
  pub rdx : ℕ
  pub rcx : ℕ
  pub rbx : ℕ
  pub rax : ℕ
  pub vector : ℕ
  pub error_code : ℕ
  pub rip : ℕ
  pub cs : ℕ
  pub rflags : ℕ

-- A call of `panic_printf`: the format and the arguments.
pub record PrintCall : Type 0 where
  pub fmt : List ℕ
  pub args : List Arg

abbrev pub print_call : List ℕ → List Arg → PrintCall
print_call fmt args = record { fmt = fmt; args = args }

abbrev pub exception_name : ℕ → List ℕ
exception_name vector = if ltb vector 32 then get_or exception_names vector [] else codes "Unknown"

abbrev pub headline : Frame → PrintCall
headline f =
    print_call (codes "[PANIC] %s (vector %lu, error 0x%lx)\n")
      (str (some (exception_name f.vector)) ∷ word f.vector ∷ word f.error_code ∷ [])

abbrev pub fault_line : (cr2 : ℕ) → PrintCall
fault_line cr2 = print_call (codes "CR2=0x%016lx (faulting address)\n") (word cr2 ∷ [])

-- The calls of `panic_exception` that print the registers, in order.
abbrev pub register_lines : Frame → List PrintCall
register_lines f =
    print_call (codes "RIP=0x%016lx CS=0x%04lx RFLAGS=0x%016lx\n")
      (word f.rip ∷ word f.cs ∷ word f.rflags ∷ [])
    ∷ print_call (codes "RAX=0x%016lx RBX=0x%016lx RCX=0x%016lx\n")
        (word f.rax ∷ word f.rbx ∷ word f.rcx ∷ [])
    ∷ print_call (codes "RDX=0x%016lx RSI=0x%016lx RDI=0x%016lx\n")
        (word f.rdx ∷ word f.rsi ∷ word f.rdi ∷ [])
    ∷ print_call (codes "RBP=0x%016lx R8= 0x%016lx R9= 0x%016lx\n")
        (word f.rbp ∷ word f.r8 ∷ word f.r9 ∷ [])
    ∷ print_call (codes "R10=0x%016lx R11=0x%016lx R12=0x%016lx\n")
        (word f.r10 ∷ word f.r11 ∷ word f.r12 ∷ [])
    ∷ print_call (codes "R13=0x%016lx R14=0x%016lx R15=0x%016lx\n")
        (word f.r13 ∷ word f.r14 ∷ word f.r15 ∷ [])
    ∷ []

abbrev pub trace_line : (depth return_addr : ℕ) → PrintCall
trace_line depth return_addr =
    print_call (codes "  #%d 0x%016lx\n") (word depth ∷ word return_addr ∷ [])

-- The calls of `panic_exception` before the stack trace.
abbrev pub exception_lines : Frame → (cr2 : ℕ) → List PrintCall
exception_lines f cr2 =
    headline f ∷ (if f.vector == 14 then fault_line cr2 ∷ register_lines f else register_lines f)

module _ {D : Type 0} (io : Ports D) (font : Font) (fuel : ℕ) where
  unfoldable pub panic_emit : Option (Log D) → ℕ → Option (Log D)
  panic_emit none c = none
  panic_emit (some s) c =
      let shown =
        if fb_is_available s.console
        then fb_console_putc font (s.mem, s.console) c fb_red fb_black
        else (s.mem, s.console) in
      elim (serial_putc io fuel s.serial c) [
        | none ↦ none
        | some t ↦ some (record s { serial = t; mem = shown.0; console = shown.1 })
      ]

  unfoldable pub panic_printf : Option (Log D) → PrintCall → Option (Log D)
  unfolding panic_emit
  panic_printf s c = elim (kvprintf panic_emit c.fmt c.args s) [ none ↦ none | some t ↦ t ]

  unfoldable pub print_all : Option (Log D) → List PrintCall → Option (Log D)
  unfolding panic_printf
  print_all s [] = s
  print_all s (c ∷ cs) = print_all (panic_printf s c) cs

  -- The loop of `print_stack_trace`, with `left` rounds to go. The memory that it reads is the one
  -- that it has printed into so far.
  unfoldable pub print_frames : (left depth rbp : ℕ) → Option (Log D) → Option (Log D)
  unfolding panic_printf
  print_frames zero depth rbp s = s
  print_frames (suc left) depth rbp none = none
  print_frames (suc left) depth rbp (some s) =
      let saved_rbp = load64 s.mem rbp in
      let return_addr = load64 s.mem (rbp + 8) in
      let printed = panic_printf (some s) (trace_line depth return_addr) in
      let rest = print_frames left (depth + 1) saved_rbp printed in
      if rbp == 0 || return_addr == 0 then some s else if leb saved_rbp rbp then printed else rest

  -- `print_stack_trace`, printed.
  unfoldable pub write_stack_trace : (rbp : ℕ) → Option (Log D) → Option (Log D)
  unfolding print_frames
  write_stack_trace rbp s =
      print_frames max_depth 0 rbp (panic_printf s (print_call (codes "Stack trace:\n") []))

  -- Up to the halt.
  unfoldable pub panic_exception : Log D → Frame → (cr2 : ℕ) → Option (Log D)
  unfolding print_all write_stack_trace
  panic_exception s frame cr2 =
      write_stack_trace frame.rbp (print_all (some s) (exception_lines frame cr2))

  -- `panic` with its format and arguments, called in the frame at `rbp`, up to the halt.
  unfoldable pub panic : Log D → PrintCall → (rbp : ℕ) → Option (Log D)
  unfolding panic_printf write_stack_trace
  panic s message rbp = write_stack_trace rbp (
      panic_printf (panic_printf (panic_printf (some s) (print_call (codes "[PANIC] ") [])) message)
        (print_call (codes "\n") []))
