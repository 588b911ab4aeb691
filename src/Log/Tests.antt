-- ===== src/Log/Tests.antt =====
-- Runs of kernel/lib/log.c with no framebuffer.
use quin_kernel_template.Base.{ℕ, ◌≡◌, refl, arith, inl, some, List, [], ◌∷◌, ◌++◌}
use quin_kernel_template.Printf.{Arg, word, format}
use quin_kernel_template.Serial.Sample.{line_ports, line_uart, idle-IsReady}
use quin_kernel_template.Log.{warn, log_write}
use quin_kernel_template.Log.Sample.{bar, log}
use quin_kernel_template.Log.Line.{IsLogged}
use quin_kernel_template.Log.Write.{text_of, opening, log_write_lem}

-- "n=%d" with 42.
abbrev fmt : List ℕ
fmt = b'n' ∷ b'=' ∷ b'%' ∷ b'd' ∷ []

fmt_text : text_of fmt (word 42 ∷ []) ≡ some (b'n' ∷ b'=' ∷ b'4' ∷ b'2' ∷ [])
unfolding quin_kernel_template.Printf.kvprintf
fmt_text = refl

log_write_lem_example :
    IsLogged line_ports line_uart bar 3 log
      (log_write line_ports bar 3 log warn fmt (word 42 ∷ []))
      (opening warn ++ (b'n' ∷ b'=' ∷ b'4' ∷ b'2' ∷ []) ++ (b'\n' ∷ []))
log_write_lem_example =
    log_write_lem line_ports line_uart bar 3 log warn fmt (word 42 ∷ [])
      (b'n' ∷ b'=' ∷ b'4' ∷ b'2' ∷ []) idle-IsReady (inl refl) (omega arith) fmt_text
