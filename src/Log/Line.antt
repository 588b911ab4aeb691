-- ===== src/Log/Line.antt =====
-- kernel/lib/log.c: what a message puts on the serial line, and what it leaves of the memory.
use quin_kernel_template.Base.{
  ℕ, ◌<◌, ◌≡◌, ◌⊎◌, inl, inr, refl, sym, ap, subst, ◌∙◌, true, false, Option, some, List, [], ◌∷◌,
  ◌++◌, append_assoc, append_nil, if◌then◌else◌, Bool-cases,
}
use quin_kernel_template.Ports.{Ports}
use quin_kernel_template.Memory.{Memory, load}
use quin_kernel_template.Serial.{Serial, serial_putc}
use quin_kernel_template.Serial.Wire.{Uart, IsReady, crlf, crlf-append, putc_lem}
use quin_kernel_template.Framebuffer.{
  Console, Font, fb_is_available, fb_console_putc, fb_console_write,
}
use quin_kernel_template.Framebuffer.Frame.{inside}
use quin_kernel_template.Framebuffer.Cursor.{IsConsole}
use quin_kernel_template.Framebuffer.Putc.{write-Written}
use quin_kernel_template.Printf.{emit_all}
use quin_kernel_template.Log.{Log, fb_black, log_emit}

-- There is no console, or a sound one.
abbrev pub IsShown : Console → Type 0
IsShown c = (c.fb_ready ≡ false) ⊎ IsConsole c

-- The console after a character.
module _ (font : Font) (m : Memory) (c : Console) (ch fg bg : ℕ) where
  abbrev pub shown : Memory × Console
  shown = if fb_is_available c then fb_console_putc font (m, c) ch fg bg else (m, c)

  abbrev Shown : Memory × Console → Type 0
  Shown r = IsShown r.1 × (r.1.fb ≡ c.fb) × ((a : ℕ) → inside c a ≡ false → load r.0 a ≡ load m a)

  shown_on : c.fb_ready ≡ true → shown ≡ fb_console_write font (m, c) (ch ∷ []) fg bg
  unfolding fb_is_available fb_console_write
  shown_on on = rw (on, fb_is_available) refl

  shown_off : c.fb_ready ≡ false → shown ≡ (m, c)
  unfolding fb_is_available
  shown_off off = rw (off, fb_is_available) refl

  shown_lem : IsShown c → Shown shown
  shown_lem (inl off) = subst Shown (sym (shown_off off)) (inl off, refl, (λ a out. refl))
  shown_lem (inr sound) = elim (Bool-cases c.fb_ready) [
    | inl on ↦
        let w = write-Written font m c (ch ∷ []) fg bg sound in
        subst Shown (sym (shown_on on)) (inr w.0, w.1, w.2)
    | inr off ↦ subst Shown (sym (shown_off off)) (inr sound, refl, (λ a out. refl))
  ]

module _ {D : Type 0} (io : Ports D) (uart : Uart io) (font : Font) (fuel : ℕ) where
  -- From `s` on, a run has put `text` on the line, and kept the memory outside the framebuffer, the
  -- mode and the level.
  pub record IsLogged (s : Log D) (r : Option (Log D)) (text : List ℕ) : Type 0 where
    pub after : Log D
    pub ends : r ≡ some after
    pub line : uart.sent after.serial.device ≡ uart.sent s.serial.device ++ crlf text
    pub ready : IsReady io uart after.serial
    pub console : IsShown after.console
    pub same_mode : after.console.fb ≡ s.console.fb
    pub kept : (a : ℕ) → inside s.console a ≡ false → load after.mem a ≡ load s.mem a
    pub same_level : after.min_level ≡ s.min_level

  emit_step :
      (t : Log D) (c : ℕ) (p : Serial D)
      → serial_putc io fuel t.serial c ≡ some p
      → log_emit io font fuel (some t) c
        ≡ some (record t {
          serial = p;
          mem = (shown font t.mem t.console c t.current_fb_color fb_black).0;
          console = (shown font t.mem t.console c t.current_fb_color fb_black).1;
        })
  unfolding log_emit
  emit_step t c p e = rw (e, log_emit) refl

  -- A character in any colour, put on the line and on the console.
  pub put-IsLogged :
      (s : Log D) (r r' : Option (Log D)) (text : List ℕ) (c color : ℕ)
      → uart.patience < fuel
      → (l : IsLogged s r text)
      → ((p : Serial D)
          → serial_putc io fuel l.after.serial c ≡ some p
          → r'
            ≡ some (record l.after {
              serial = p;
              mem = (shown font l.after.mem l.after.console c color fb_black).0;
              console = (shown font l.after.mem l.after.console c color fb_black).1;
            }))
      → IsLogged s r' (text ++ (c ∷ []))
  put-IsLogged s r r' text c color enough l step =
      let put = putc_lem io uart fuel l.after.serial c l.ready enough in
      let view = shown_lem font l.after.mem l.after.console c color fb_black l.console in
      record {
        after = record l.after {
          serial = put.0;
          mem = (shown font l.after.mem l.after.console c color fb_black).0;
          console = (shown font l.after.mem l.after.console c color fb_black).1;
        };
        ends = step put.0 put.1;
        line =
            put.2
            ∙ ap (λ (b : List ℕ). b ++ crlf (c ∷ [])) l.line
            ∙ append_assoc (uart.sent s.serial.device) (crlf text) (crlf (c ∷ []))
            ∙ ap (λ (b : List ℕ). uart.sent s.serial.device ++ b) (sym (crlf-append text (c ∷ [])));
        ready = put.3;
        console = view.0;
        same_mode = view.1 ∙ l.same_mode;
        kept = λ a out. view.2 a (rw l.same_mode out) ∙ l.kept a out;
        same_level = l.same_level;
      }

  pub emit-IsLogged :
      (s : Log D) (r : Option (Log D)) (text : List ℕ) (c : ℕ)
      → uart.patience < fuel
      → IsLogged s r text
      → IsLogged s (log_emit io font fuel r c) (text ++ (c ∷ []))
  emit-IsLogged s r text c enough l =
      put-IsLogged s r (log_emit io font fuel r c) text c l.after.current_fb_color enough l λ p e.
        ap (λ (o : Option (Log D)). log_emit io font fuel o c) l.ends ∙ emit_step l.after c p e

  pub emit_all-IsLogged :
      (cs : List ℕ) (s : Log D) (r : Option (Log D)) (text : List ℕ)
      → uart.patience < fuel
      → IsLogged s r text
      → IsLogged s (emit_all (log_emit io font fuel) cs r) (text ++ cs)
  unfolding emit_all
  emit_all-IsLogged [] s r text enough l = subst (IsLogged s r) (sym (append_nil text)) l
  emit_all-IsLogged (c ∷ cs) s r text enough l =
      subst (IsLogged s (emit_all (log_emit io font fuel) cs (log_emit io font fuel r c)))
        (append_assoc text (c ∷ []) cs)
        (emit_all-IsLogged cs s (log_emit io font fuel r c) (text ++ (c ∷ [])) enough
          (emit-IsLogged s r text c enough l))
