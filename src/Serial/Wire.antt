-- ===== src/Serial/Wire.antt =====
-- kernel/drivers/serial/serial.c: the bytes on the line, for a 16550 UART behind the ports.
use quin_kernel_template.Base.{
  ℕ, zero, suc, ◌+◌, ◌-◌, ◌<◌, ◌≤◌, ◌≡◌, refl, sym, ap, ◌∙◌, arith, true, false, not, Option, some,
  List, [], ◌∷◌, ◌++◌, append_assoc, append_nil, bit_and, u8, ◌==◌, if◌then◌else◌, Bool-cases, inl,
  inr,
}
use quin_kernel_template.Ports.{Ports}
use quin_kernel_template.Serial.{
  Serial, com1, reg_data, reg_line_status, await_empty, send, serial_putc, serial_write,
}

-- What the driver relies on of the UART at COM1, once it is initialised: the bytes that it has sent
-- so far; that its line status shows a transmitter that is empty after a bounded number of readings;
-- and that it sends a byte that is written while its transmitter is empty.
pub record Uart {D : Type 0} (io : Ports D) : Type 0 where
  pub sent : D → List ℕ
  pub busy : D → ℕ
  pub patience : ℕ
  pub status :
      (d : D) → not (bit_and (io.inb d (com1 + reg_line_status)).1 0x20 == 0) ≡ (busy d == 0)
  pub waits : (d : D) → busy (io.inb d (com1 + reg_line_status)).0 ≡ busy d - 1
  pub reads : (d : D) → sent (io.inb d (com1 + reg_line_status)).0 ≡ sent d
  pub sends :
      (d : D) (v : ℕ) → busy d ≡ 0 → sent (io.outb d (com1 + reg_data) v) ≡ sent d ++ (v ∷ [])
  pub bounded : (d : D) (v : ℕ) → busy (io.outb d (com1 + reg_data) v) ≤ patience

-- Newlines as carriage return and newline.
unfoldable pub crlf : List ℕ → List ℕ
crlf [] = []
crlf (c ∷ cs) = if c == b'\n' then b'\r' ∷ b'\n' ∷ crlf cs else u8 c ∷ crlf cs

pub crlf-append : (xs ys : List ℕ) → crlf (xs ++ ys) ≡ crlf xs ++ crlf ys
unfolding crlf
crlf-append [] ys = refl
crlf-append (c ∷ cs) ys = elim (Bool-cases (c == b'\n')) [
  | inl e ↦ rw e (ap (λ (l : List ℕ). b'\r' ∷ b'\n' ∷ l) (crlf-append cs ys))
  | inr e ↦ rw e (ap (λ (l : List ℕ). u8 c ∷ l) (crlf-append cs ys))
]

-- The steps of the driver.
module _ {D : Type 0} (io : Ports D) where
  await_now :
      (fuel : ℕ) (d : D)
      → not (bit_and (io.inb d (com1 + reg_line_status)).1 0x20 == 0) ≡ true
      → await_empty io (suc fuel) d ≡ some (io.inb d (com1 + reg_line_status)).0
  unfolding await_empty
  await_now fuel d e = rw (e, await_empty) refl

  await_more :
      (fuel : ℕ) (d : D)
      → not (bit_and (io.inb d (com1 + reg_line_status)).1 0x20 == 0) ≡ false
      → await_empty io (suc fuel) d ≡ await_empty io fuel (io.inb d (com1 + reg_line_status)).0
  unfolding await_empty
  await_more fuel d e = rw (e, await_empty) refl

  send_step :
      (fuel : ℕ) (s : Serial D) (c : ℕ) (d : D)
      → await_empty io fuel s.device ≡ some d
      → send io fuel s c ≡ some (record s { device = io.outb d (com1 + reg_data) (u8 c) })
  unfolding send
  send_step fuel s c d e = rw (e, send) refl

  putc_newline :
      (fuel : ℕ) (s t : Serial D) (c : ℕ)
      → s.serial_present ≡ true
      → (c == b'\n') ≡ true
      → send io fuel s b'\r' ≡ some t
      → serial_putc io fuel s c ≡ send io fuel t c
  unfolding serial_putc
  putc_newline fuel s t c present newline first = rw (present, newline, first, serial_putc) refl

  putc_plain :
      (fuel : ℕ) (s : Serial D) (c : ℕ)
      → s.serial_present ≡ true
      → (c == b'\n') ≡ false
      → serial_putc io fuel s c ≡ send io fuel s c
  unfolding serial_putc
  putc_plain fuel s c present plain = rw (present, plain, serial_putc) refl

  write_step :
      (fuel : ℕ) (s t : Serial D) (c : ℕ) (str : List ℕ)
      → serial_putc io fuel s c ≡ some t
      → serial_write io fuel s (c ∷ str) ≡ serial_write io fuel t str
  unfolding serial_write
  write_step fuel s t c str e = rw (e, serial_write) refl

module _ {D : Type 0} (io : Ports D) (uart : Uart io) where
  -- The driver has found the port, and its transmitter is empty in time.
  pub record IsReady (s : Serial D) : Type 0 where
    pub present : s.serial_present ≡ true
    pub in_time : uart.busy s.device ≤ uart.patience

  -- The result is there, and so many bytes more are sent.
  abbrev pub Sent : Serial D → Option (Serial D) → List ℕ → Type 0
  Sent s r bytes =
      (t : Serial D) × (r ≡ some t) × (uart.sent t.device ≡ uart.sent s.device ++ bytes) × IsReady t

  await_lem :
      (fuel : ℕ) (d : D)
      → uart.busy d < fuel
      → (e : D) × (await_empty io fuel d ≡ some e) × (uart.sent e ≡ uart.sent d) × (uart.busy e ≡ 0)
  unfolding await_empty
  await_lem zero d enough = absurd (omega arith)
  await_lem (suc fuel) d enough = elim (Bool-cases (uart.busy d == 0)) [
    | inl e ↦ (
      (io.inb d (com1 + reg_line_status)).0,
      await_now io fuel d (uart.status d ∙ e),
      uart.reads d,
      ground (arith, uart.waits d),
    )
    | inr e ↦
        let next = (io.inb d (com1 + reg_line_status)).0 in
        let rest = await_lem fuel next (ground (arith, uart.waits d)) in
        (rest.0, await_more io fuel d (uart.status d ∙ e) ∙ rest.1, rest.2 ∙ uart.reads d, rest.3)
  ]

  send_lem :
      (fuel : ℕ) (s : Serial D) (c : ℕ)
      → IsReady s
      → uart.patience < fuel
      → Sent s (send io fuel s c) (u8 c ∷ [])
  unfolding send
  send_lem fuel s c ready enough =
      let quiet = await_lem fuel s.device (omega (arith, ready.in_time)) in
      (
        record s { device = io.outb quiet.0 (com1 + reg_data) (u8 c) },
        send_step io fuel s c quiet.0 quiet.1,
        uart.sends quiet.0 (u8 c) quiet.3 ∙ ap (λ (l : List ℕ). l ++ (u8 c ∷ [])) quiet.2,
        record { present = ready.present; in_time = uart.bounded quiet.0 (u8 c) },
      )

  line :
      (s : Serial D) (c : ℕ)
      → (c == b'\n') ≡ true
      → (t : Serial D) → uart.sent t.device ≡ uart.sent s.device ++ (b'\r' ∷ [])
      → uart.sent t.device ++ (u8 c ∷ []) ≡ uart.sent s.device ++ crlf (c ∷ [])
  unfolding crlf
  line s c e t first =
      rw (first, e)
        (append_assoc (uart.sent s.device) (b'\r' ∷ []) (u8 c ∷ [])
          ∙ ap (λ (k : ℕ). uart.sent s.device ++ (b'\r' ∷ k ∷ [])) (ground arith))

  -- serial_putc sends the character, and a carriage return before a newline.
  pub putc_lem :
      (fuel : ℕ) (s : Serial D) (c : ℕ)
      → IsReady s
      → uart.patience < fuel
      → Sent s (serial_putc io fuel s c) (crlf (c ∷ []))
  unfolding serial_putc crlf
  putc_lem fuel s c ready enough = elim (Bool-cases (c == b'\n')) [
    | inl e ↦
        let first = send_lem fuel s b'\r' ready enough in
        let second = send_lem fuel first.0 c first.3 enough in
        (
          second.0,
          putc_newline io fuel s first.0 c ready.present e first.1 ∙ second.1,
          second.2 ∙ line s c e first.0 first.2,
          second.3,
        )
    | inr e ↦
        let t = send_lem fuel s c ready enough in
        (t.0, putc_plain io fuel s c ready.present e ∙ t.1, rw (e, crlf) t.2, t.3)
  ]

  -- With a UART that is found and whose transmitter is empty after a bounded number of readings,
  -- serial_write of any string, its wait given more rounds than that bound, returns, and has sent
  -- the string's characters in order, with a carriage return before each newline.
  pub write_lem :
      (fuel : ℕ) (s : Serial D) (str : List ℕ)
      → IsReady s
      → uart.patience < fuel
      → Sent s (serial_write io fuel s str) (crlf str)
  unfolding serial_write crlf
  write_lem fuel s [] ready enough = (s, refl, sym (append_nil (uart.sent s.device)), ready)
  write_lem fuel s (c ∷ str) ready enough =
      let first = putc_lem fuel s c ready enough in
      let rest = write_lem fuel first.0 str first.3 enough in
      (
        rest.0,
        write_step io fuel s first.0 c str first.1 ∙ rest.1,
        rest.2
            ∙ ap (λ (l : List ℕ). l ++ crlf str) first.2
            ∙ append_assoc (uart.sent s.device) (crlf (c ∷ [])) (crlf str)
            ∙ ap (λ (l : List ℕ). uart.sent s.device ++ l) (sym (crlf-append (c ∷ []) str)),
        rest.3,
      )
