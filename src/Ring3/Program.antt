-- ===== src/Ring3/Program.antt =====
-- The bytes that a user program's loading writes: where they are read, and what stays as it was.
use quin_kernel_template.Base.{
  ℕ, ◌+◌, ◌*◌, ◌%◌, ◌<◌, ◌≤◌, ◌≡◌, true, ◌≢◌, refl, ap, ◌∙◌, arith, ◌==◌, if◌then◌else◌, u8, List,
  [], ◌∷◌, Option, none, some, length,
}
use quin_kernel_template.Memory.{load, store}
use quin_kernel_template.Pmm.Free.{MayFree}
use quin_kernel_template.Ring3.{write_in, write_bytes}
use quin_kernel_template.Vmm.{Vmm}
use quin_kernel_template.Vmm.Store.{
  stored, stored_bytes, MayFree-stored, HasTables-stored, translate-stored,
}
use quin_kernel_template.Vmm.Tables.{HasTables}
use quin_kernel_template.Vmm.Translate.{translate}
use quin_kernel_template.Vmm.Tree.{Owners, page}
use quin_kernel_template.Vmm.Word.{Page}

-- The byte at offset `a` once `bs` is written from offset `k` on, over `old`.
unfoldable pub overwritten : (k : ℕ) → List ℕ → (old a : ℕ) → ℕ
overwritten k [] old a = old
overwritten k (b ∷ bs) old a = overwritten (k + 1) bs (if a == k then u8 b else old) a

-- What the bytes `bs`, written from offset `k` of frame `g` on, leave.
pub record Written (s : Vmm) (own : Owners) (g k : ℕ) (bs : List ℕ) (s' : Vmm) : Type 0 where
  pub tables : HasTables s' own
  pub same : (u : ℕ) → translate s' u ≡ translate s u
  pub still : (h : ℕ) → MayFree s.pmm s.mem h → MayFree s'.pmm s'.mem h
  pub bytes :
      (a : ℕ)
      → a < 4096
      → load s'.mem (s.hhdm_offset + g * 4096 + a)
        ≡ overwritten k bs (load s.mem (s.hhdm_offset + g * 4096 + a)) a
  pub others :
      (h a : ℕ)
      → h ≢ g
      → a < 4096
      → load s'.mem (s.hhdm_offset + h * 4096 + a) ≡ load s.mem (s.hhdm_offset + h * 4096 + a)
  pub statics : s' ≡ record s { mem = s'.mem }

write_bytes_step :
    (b : ℕ) (bs : List ℕ) (s : Vmm) (p : Page) (g virt k : ℕ)
    → (p.frame ≡ g) × (p.writable ≡ true)
    → virt % 4096 ≡ 0
    → k < 4096
    → translate s (virt + k) ≡ page p
    → write_bytes s (virt + k) (b ∷ bs)
      ≡ write_bytes
          (record s { mem = store s.mem (s.hhdm_offset + g * 4096 + k) b })
          (virt + (k + 1))
          bs
unfolding write_bytes write_in
write_bytes_step b bs s p g virt k frame start inside mapped =
    let place : (virt + k) % 4096 ≡ k = omega (arith, start, inside) in
    let next : virt + k + 1 ≡ virt + (k + 1) = omega arith in
    ap (λ tr. first (write_in tr s (virt + k) b)) mapped
    ∙ ap
        (λ w. first (
          if w
          then some (record s {
            mem = store s.mem (s.hhdm_offset + p.frame * 4096 + (virt + k) % 4096) b;
          })
          else none))
        frame.1
    ∙ ap
        (λ o.
          write_bytes (record s { mem = store s.mem (s.hhdm_offset + p.frame * 4096 + o) b })
            (virt + k + 1) bs)
        place
    ∙ ap
        (λ f.
          write_bytes (record s { mem = store s.mem (s.hhdm_offset + f * 4096 + k) b })
            (virt + k + 1) bs)
        frame.0
    ∙ ap (λ v. write_bytes (record s { mem = store s.mem (s.hhdm_offset + g * 4096 + k) b }) v bs)
        next
  where
    first : Option Vmm → Option Vmm
    first o = elim o [ none ↦ none | some t ↦ write_bytes t (virt + k + 1) bs ]

-- Bytes written to a writable page that is mapped to a frame which holds no table and not the bitmap.
pub write_bytes-Written :
    (bs : List ℕ) (s : Vmm) (own : Owners) (p : Page) (g virt k : ℕ)
    → (p.frame ≡ g) × (p.writable ≡ true)
    → HasTables s own
    → MayFree s.pmm s.mem g
    → own.level g ≡ 0
    → virt % 4096 ≡ 0
    → ((i : ℕ) → i < 4096 → translate s (virt + i) ≡ page p)
    → k + length bs ≤ 4096
    → (s' : Vmm) × (write_bytes s (virt + k) bs ≡ some s') × Written s own g k bs s'
unfolding write_bytes overwritten
write_bytes-Written [] s own p g virt k frame t may no_table start mapped room = (
  s,
  refl,
  record {
    tables = t;
    same = λ u. refl;
    still = λ h m. m;
    bytes = λ a lt. refl;
    others = λ h a apart lt. refl;
    statics = refl;
  },
)
write_bytes-Written (b ∷ bs) s own p g virt k frame t may no_table start mapped room =
    let inside : k < 4096 = ground (arith, room) in
    let next = stored t g k b may no_table inside in
    let now = stored_bytes t g k b may no_table inside in
    let (s', ran, w) =
      write_bytes-Written bs next own p g virt (k + 1) frame
        (HasTables-stored t g k b may no_table inside)
        (MayFree-stored t g k b may no_table inside may) no_table start
        (λ i lt. translate-stored t g k b may no_table inside (virt + i) ∙ mapped i lt)
        (ground (arith, room)) in
    (
      s',
      write_bytes_step b bs s p g virt k frame start inside (mapped k inside) ∙ ran,
      record {
        tables = w.tables;
        same = λ u. w.same u ∙ translate-stored t g k b may no_table inside u;
        still = λ h m. w.still h (MayFree-stored t g k b may no_table inside m);
        bytes = λ a lt.
            w.bytes a lt ∙ ap (λ o. overwritten (k + 1) bs o a) (ground (arith, now g a lt));
        others = λ h a apart lt. w.others h a apart lt ∙ ground (arith, apart, now h a lt);
        statics = w.statics;
      },
    )
