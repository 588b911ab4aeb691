-- ===== src/Log/Write.antt =====
-- kernel/lib/log.c: whole messages.
use quin_kernel_template.Base.{
  ℕ, ◌<◌, ◌≡◌, inl, inr, refl, sym, ap, subst, ◌∙◌, arith, true, false, Option, none, some, List,
  [], ◌∷◌, ◌++◌, append_assoc, append_nil, ltb, if◌then◌else◌, Bool-cases,
}
use mathlib.Core.Option
use quin_kernel_template.Ports.{Ports}
use quin_kernel_template.Serial.Wire.{Uart, IsReady, crlf}
use quin_kernel_template.Framebuffer.{Font}
use quin_kernel_template.Printf.{Arg, emit_all, kvprintf}
use quin_kernel_template.Printf.Bounds.{Both, kvprintf_related}
use quin_kernel_template.Log.{Log, LogLevel, number, styles, log_emit, log_write}
use quin_kernel_template.Log.Line.{IsShown, IsLogged, emit-IsLogged, emit_all-IsLogged}

-- The text of a format and its arguments, where they fit.
abbrev pub text_of : List ℕ → List Arg → Option (List ℕ)
text_of fmt args = kvprintf (λ (l : List ℕ) (c : ℕ). l ++ (c ∷ [])) fmt args []

-- A run of the formatter from some text on appends to it.
text_from :
    (fmt : List ℕ) (args : List Arg) (head text : List ℕ)
    → text_of fmt args ≡ some text
    → kvprintf (λ (l : List ℕ) (c : ℕ). l ++ (c ∷ [])) fmt args head ≡ some (head ++ text)
text_from fmt args head text fits =
    finish (kvprintf (λ (l : List ℕ) (c : ℕ). l ++ (c ∷ [])) fmt args head) (text_of fmt args) fits
      (kvprintf_related (λ (l : List ℕ) (c : ℕ). l ++ (c ∷ []))
        (λ (l : List ℕ) (c : ℕ). l ++ (c ∷ [])) (λ (x y : List ℕ). x ≡ head ++ y)
        (λ x y c e. ap (λ (l : List ℕ). l ++ (c ∷ [])) e ∙ append_assoc head y (c ∷ [])) fmt args
        head [] (sym (append_nil head)))
  where
    finish :
        (x y : Option (List ℕ))
        → y ≡ some text
        → Both (λ (x y : List ℕ). x ≡ head ++ y) x y
        → x ≡ some (head ++ text)
    finish none none e both = absurd (ground (arith, e))
    finish (some x) (some y) e both = ap some both ∙ ap (Option.map (λ (l : List ℕ). head ++ l)) e
    finish none (some y) e both = absurd both
    finish (some x) none e both = absurd both

-- What a message of a level starts with.
abbrev pub opening : LogLevel → List ℕ
opening level = (b'[' ∷ []) ++ (styles level).tag ++ (b']' ∷ []) ++ (b' ' ∷ [])

module _ {D : Type 0} (io : Ports D) (uart : Uart io) (font : Font) (fuel : ℕ) where
  abbrev pub Logs : Log D → Option (Log D) → List ℕ → Type 0
  Logs s r text = IsLogged io uart font fuel s r text

  -- A run of the formatter with a callback that puts each character on the line.
  pub run-IsLogged :
      (s : Log D) (emit : Option (Log D) → ℕ → Option (Log D)) (r : Option (Log D))
      (head text : List ℕ) (fmt : List ℕ) (args : List Arg)
      → ((r : Option (Log D)) (text : List ℕ) (c : ℕ)
          → Logs s r text
          → Logs s (emit r c) (text ++ (c ∷ [])))
      → text_of fmt args ≡ some text
      → Logs s r head
      → (k : Option (Log D)) × (kvprintf emit fmt args r ≡ some k) × Logs s k (head ++ text)
  run-IsLogged s emit r head text fmt args keeps fits l =
      finish (kvprintf emit fmt args r)
        (kvprintf (λ (t : List ℕ) (c : ℕ). t ++ (c ∷ [])) fmt args head)
        (text_from fmt args head text fits)
        (kvprintf_related emit (λ (t : List ℕ) (c : ℕ). t ++ (c ∷ [])) (Logs s)
          (λ x y c logged. keeps x y c logged) fmt args r head l)
    where
      finish :
          (x : Option (Option (Log D))) (y : Option (List ℕ))
          → y ≡ some (head ++ text)
          → Both (Logs s) x y
          → (k : Option (Log D)) × (x ≡ some k) × Logs s k (head ++ text)
      finish none none e both = absurd (ground (arith, e))
      finish (some k) (some y) e both = (k, refl, subst (Logs s k) (some_text y e) both)
        where
          some_text : (y : List ℕ) → some y ≡ some (head ++ text) → y ≡ head ++ text
          some_text y e = ap (λ (o : Option (List ℕ)). elim o [ some t ↦ t | none ↦ [] ]) e
      finish none (some y) e both = absurd both
      finish (some x) none e both = absurd both

  message-IsLogged :
      (s : Log D) (r : Option (Log D)) (head text : List ℕ) (fmt : List ℕ) (args : List Arg)
      → uart.patience < fuel
      → text_of fmt args ≡ some text
      → Logs s r head
      → (k : Option (Log D)) × (kvprintf (log_emit io font fuel) fmt args r ≡ some k)
        × Logs s k (head ++ text)
  message-IsLogged s r head text fmt args enough fits l =
      run-IsLogged s (log_emit io font fuel) r head text fmt args
        (λ x y c logged. emit-IsLogged io uart font fuel s x y c enough logged) fits l

  -- The run up to the message.
  abbrev opened : Log D → LogLevel → Option (Log D)
  opened s level =
      log_emit io font fuel
        (log_emit io font fuel
          (emit_all (log_emit io font fuel) (styles level).tag (
            log_emit io font fuel (some (record s { current_fb_color = (styles level).color }))
              b'['))
          b']')
        b' '

  quiet_step :
      (s : Log D) (level : LogLevel) (fmt : List ℕ) (args : List Arg)
      → ltb (number level) (number s.min_level) ≡ true
      → log_write io font fuel s level fmt args ≡ some s
  unfolding log_write
  quiet_step s level fmt args e = rw (e, log_write) refl

  loud_step :
      (s : Log D) (level : LogLevel) (fmt : List ℕ) (args : List Arg) (k : Option (Log D))
      → ltb (number level) (number s.min_level) ≡ false
      → kvprintf (log_emit io font fuel) fmt args (opened s level) ≡ some k
      → log_write io font fuel s level fmt args ≡ log_emit io font fuel k b'\n'
  unfolding log_write
  loud_step s level fmt args k e run =
      rw (e, log_write)
        (ap
          (λ (o : Option (Option (Log D))). elim o [
            | none ↦ none
            | some k ↦ log_emit io font fuel k b'\n'
          ])
          run)

  opened-IsLogged :
      (s : Log D) (level : LogLevel)
      → IsReady io uart s.serial
      → IsShown s.console
      → uart.patience < fuel
      → Logs s (opened s level) (opening level)
  unfolding crlf
  opened-IsLogged s level ready sound enough =
      let emit = λ (r : Option (Log D)) (text : List ℕ) (c : ℕ) (l : Logs s r text).
        emit-IsLogged io uart font fuel s r text c enough l in
      let start = some (record s { current_fb_color = (styles level).color }) in
      let bracket = log_emit io font fuel start b'[' in
      let tagged = emit_all (log_emit io font fuel) (styles level).tag bracket in
      emit (log_emit io font fuel tagged b']') ((b'[' ∷ []) ++ (styles level).tag ++ (b']' ∷ []))
        b' '
        (emit tagged ((b'[' ∷ []) ++ (styles level).tag) b']' (
          emit_all-IsLogged io uart font fuel (styles level).tag s bracket (b'[' ∷ []) enough (
            emit start [] b'[' (record {
              after = record s { current_fb_color = (styles level).color };
              ends = refl;
              line = sym (append_nil (uart.sent s.serial.device));
              ready = ready;
              console = sound;
              same_mode = refl;
              kept = λ a out. refl;
              same_level = refl;
            }))))

  -- With a UART that is found and empty in time, no console or a sound one, and arguments that fit
  -- the format: a message below the least level does nothing. Any other one returns, has put its
  -- level in brackets, its text and a newline on the line, changed no memory outside the
  -- framebuffer, and kept the mode, the least level and a sound console.
  pub log_write_lem :
      (s : Log D) (level : LogLevel) (fmt : List ℕ) (args : List Arg) (text : List ℕ)
      → IsReady io uart s.serial
      → IsShown s.console
      → uart.patience < fuel
      → text_of fmt args ≡ some text
      → (if ltb (number level) (number s.min_level)
          then log_write io font fuel s level fmt args ≡ some s
          else IsLogged io uart font fuel s
              (log_write io font fuel s level fmt args)
              (opening level ++ text ++ (b'\n' ∷ [])))
  log_write_lem s level fmt args text ready sound enough fits =
      elim (Bool-cases (ltb (number level) (number s.min_level))) [
        | inl e ↦ rw e (quiet_step s level fmt args e)
        | inr e ↦
            let m =
              message-IsLogged s (opened s level) (opening level) text fmt args enough fits
                (opened-IsLogged s level ready sound enough) in
            rw e (
              subst (λ (r : Option (Log D)). Logs s r (opening level ++ text ++ (b'\n' ∷ [])))
                (sym (loud_step s level fmt args m.0 e m.1))
                (emit-IsLogged io uart font fuel s m.0 (opening level ++ text) b'\n' enough m.2))
      ]
