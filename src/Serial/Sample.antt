-- ===== src/Serial/Sample.antt =====
-- A UART for the runs: a transmitter that is empty at the third reading after a byte.
use quin_kernel_template.Base.{
  ℕ, ◌-◌, ◌≡◌, refl, arith, Bool, true, false, not, List, [], ◌∷◌, ◌++◌, bit_and, ◌==◌,
  if◌then◌else◌,
}
use quin_kernel_template.Ports.{Ports}
use quin_kernel_template.Serial.{Serial}
use quin_kernel_template.Serial.Wire.{Uart, IsReady}

pub record Line : Type 0 where
  pub bytes : List ℕ
  pub left : ℕ

abbrev pub line_ports : Ports Line
line_ports = record {
  outb = λ d port v.
      if port == 0x3f8
      then record { bytes = if d.left == 0 then d.bytes ++ (v ∷ []) else d.bytes; left = 2 }
      else d;
  inb = λ d port. (record { bytes = d.bytes; left = d.left - 1 }, if d.left == 0 then 0x20 else 0);
}

abbrev pub line_uart : Uart line_ports
line_uart = record {
  sent = λ d. d.bytes;
  busy = λ d. d.left;
  patience = 2;
  status = λ d. shows (d.left == 0);
  waits = λ d. refl;
  reads = λ d. refl;
  sends = λ d v e. written d v e;
  bounded = λ d v. omega arith;
}
  where
    shows : (b : Bool) → not (bit_and (if b then 0x20 else 0) 0x20 == 0) ≡ b
    shows true = refl
    shows false = refl

    written :
        (d : Line) (v : ℕ)
        → d.left ≡ 0
        → (if d.left == 0 then d.bytes ++ (v ∷ []) else d.bytes) ≡ d.bytes ++ (v ∷ [])
    written d v e = rw e refl

abbrev pub idle : Serial Line
idle = record { device = record { bytes = []; left = 0 }; serial_present = true }

pub idle-IsReady : IsReady line_ports line_uart idle
idle-IsReady = record { present = refl; in_time = omega arith }
