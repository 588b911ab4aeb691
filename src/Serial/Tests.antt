-- ===== src/Serial/Tests.antt =====
-- Runs of kernel/drivers/serial/serial.c.
use quin_kernel_template.Base.{◌≡◌, refl, arith, true, some, [], ◌∷◌}
use quin_kernel_template.Serial.{serial_write}
use quin_kernel_template.Serial.Wire.{Sent, crlf, write_lem}
use quin_kernel_template.Serial.Sample.{line_ports, line_uart, idle, idle-IsReady}

-- The newline is the second of two characters.
crlf_run :
    serial_write line_ports 3 idle (65 ∷ 10 ∷ [])
    ≡ some
        (record { device = record { bytes = 65 ∷ 13 ∷ 10 ∷ []; left = 2 }; serial_present = true })
unfolding serial_write
crlf_run = refl

write_lem_example :
    Sent line_ports line_uart idle
      (serial_write line_ports 3 idle (72 ∷ 105 ∷ 10 ∷ []))
      (crlf (72 ∷ 105 ∷ 10 ∷ []))
write_lem_example =
    write_lem line_ports line_uart 3 idle (72 ∷ 105 ∷ 10 ∷ []) idle-IsReady (omega arith)
