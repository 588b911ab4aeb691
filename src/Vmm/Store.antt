-- ===== src/Vmm/Store.antt =====
-- A byte that the CPU stores to a frame which holds no table and not the bitmap: the page tables
-- and the allocator stay as they were.
use quin_kernel_template.Base.{
  ℕ, ◌+◌, ◌*◌, ◌/◌, ◌<◌, ◌≡◌, ◌≢◌, arith, ◌==◌, ◌&&◌, if◌then◌else◌, u8,
}
use quin_kernel_template.Memory.{load, store, load-store}
use quin_kernel_template.Memory.Words.{load64_ext}
use quin_kernel_template.Pmm.Free.{MayFree}
use quin_kernel_template.Vmm.{Vmm}
use quin_kernel_template.Vmm.Reach.{root}
use quin_kernel_template.Vmm.Tables.{words, HasTables, IsValid-same, MayFree-same}
use quin_kernel_template.Vmm.Translate.{translate, path, path-InTables}
use quin_kernel_template.Vmm.Tree.{Owners}
use quin_kernel_template.Vmm.Tree.Change.{IsTree-same, Extends-same}

module _ {s : Vmm} {own : Owners} (t : HasTables s own) (f k value : ℕ)
    (may : MayFree s.pmm s.mem f) (no_table : own.level f ≡ 0) (inside : k < 4096) where
  abbrev pub stored : Vmm
  stored = record s { mem = store s.mem (s.hhdm_offset + f * 4096 + k) value }

  pub stored_bytes :
      (h a : ℕ)
      → a < 4096
      → load stored.mem (s.hhdm_offset + h * 4096 + a)
        ≡ (if (h == f) && (a == k) then u8 value else load s.mem (s.hhdm_offset + h * 4096 + a))
  stored_bytes h a lt =
      ground (
        arith,
        load-store s.mem (s.hhdm_offset + f * 4096 + k) value (s.hhdm_offset + h * 4096 + a),
      )

  bitmap_kept :
      (j : ℕ)
      → j < s.pmm.frame_count
      → load stored.mem (s.pmm.bitmap + j / 8) ≡ load s.mem (s.pmm.bitmap + j / 8)
  bitmap_kept j lt = ground (
    arith,
    load-store s.mem (s.hhdm_offset + f * 4096 + k) value (s.pmm.bitmap + j / 8),
    may.not_own j lt,
    t.valid.above,
    t.offset,
  )

  words_kept : (h j : ℕ) → own.level h ≢ 0 → j < 512 → words stored h j ≡ words s h j
  words_kept h j o lt = load64_ext stored.mem s.mem (s.hhdm_offset + h * 4096 + j * 8) λ i small.
      ground (
        arith,
        o,
        no_table,
        load-store s.mem (s.hhdm_offset + f * 4096 + k) value
            (s.hhdm_offset + h * 4096 + j * 8 + i),
      )

  pub MayFree-stored : {h : ℕ} → MayFree s.pmm s.mem h → MayFree s.pmm stored.mem h
  MayFree-stored m = MayFree-same s.pmm s.mem stored.mem bitmap_kept m

  pub HasTables-stored : HasTables stored own
  HasTables-stored = record {
    valid = IsValid-same s.pmm s.mem stored.mem bitmap_kept t.valid;
    offset = t.offset;
    addressable = t.addressable;
    root_level = t.root_level;
    root_prefix = t.root_prefix;
    held = λ h o. MayFree-stored (t.held h o);
    tree = IsTree-same t.tree words_kept;
  }

  pub translate-stored : (u : ℕ) → translate stored u ≡ translate s u
  unfolding translate
  translate-stored u =
      (Extends-same t.tree words_kept).walks (root s) (path u) t.root_level (path-InTables u)
