-- ===== src/Vmm/Tables.antt =====
-- vmm.c's page tables in the memory of the frame allocator: the invariant that each table is a
-- frame in use that does not hold the allocator's bitmap, behind an entry that takes away no right,
-- and what a new frame and a write to an entry do to the tables and to the other frames.
use quin_kernel_template.Base.{
  ℕ, ◌+◌, ◌*◌, ◌/◌, ◌^◌, ◌≤◌, ◌<◌, ◌≡◌, ◌≢◌, sym, subst, ◌∙◌, false, arith, ◌==◌, ◌&&◌,
}
use quin_kernel_template.Bitmap.{bitmap_test}
use quin_kernel_template.Bitmap.Bit.{test-load}
use quin_kernel_template.Memory.{Memory, load, load64}
use quin_kernel_template.Memory.Words.{
  load64-store64, load64-store64_away, load64_ext, load64-zero, load-store64_away,
}
use quin_kernel_template.Pmm.{Pmm}
use quin_kernel_template.Pmm.Alloc.{Allocated}
use quin_kernel_template.Pmm.Free.{MayFree}
use quin_kernel_template.Pmm.Valid.{own_frame, IsValid, clear_count_ext}
use quin_kernel_template.Vmm.{Vmm, phys_to_virt_table, set_entry}
use quin_kernel_template.Vmm.Tree.{Words, Owners, IsTree, Extends}
use quin_kernel_template.Vmm.Tree.Change.{IsTree-same, Extends-same, IsTree-written}
use quin_kernel_template.Vmm.Word.{frame_of}

abbrev pub words : Vmm → Words
words s f i = load64 s.mem (s.hhdm_offset + f * 4096 + i * 8)

pub record HasTables (s : Vmm) (own : Owners) : Type 0 where
  pub valid : IsValid s.pmm s.mem
  pub offset : s.pmm.hhdm_offset ≡ s.hhdm_offset
  pub addressable : s.pmm.frame_count ≤ 2 ^ 40
  pub root_level : own.level (frame_of s.cr3) ≡ 4
  pub root_prefix : own.prefix (frame_of s.cr3) ≡ 0
  pub held : (f : ℕ) → own.level f ≢ 0 → MayFree s.pmm s.mem f
  pub tree : IsTree (words s) own

-- Frame `f` is in use, is no table and does not hold the bitmap: before and after, with the same
-- contents.
pub record Kept (s : Vmm) (own : Owners) (s' : Vmm) (own' : Owners) (f : ℕ) : Type 0 where
  pub still : MayFree s'.pmm s'.mem f
  pub no_table : own'.level f ≡ 0
  pub bytes :
      (a : ℕ)
      → a < 4096
      → load s'.mem (s.hhdm_offset + f * 4096 + a) ≡ load s.mem (s.hhdm_offset + f * 4096 + a)

abbrev pub Untouched : (s : Vmm) (own : Owners) (s' : Vmm) (own' : Owners) → Type 0
Untouched s own s' own' = (f : ℕ) → own.level f ≡ 0 → MayFree s.pmm s.mem f → Kept s own s' own' f

-- Memories that agree on the bitmap.
module _ (p : Pmm) (m m' : Memory)
    (same : (j : ℕ)
      → j < p.frame_count
      → load m' (p.bitmap + j / 8) ≡ load m (p.bitmap + j / 8)) where
  test_same : (j : ℕ) → j < p.frame_count → bitmap_test m' p.bitmap j ≡ bitmap_test m p.bitmap j
  test_same j lt = test-load m' m p.bitmap j (same j lt)

  pub IsValid-same : IsValid p m → IsValid p m'
  IsValid-same v = record {
    pos = v.pos;
    small = v.small;
    above = v.above;
    own_in_range = v.own_in_range;
    own_used = λ j lt. test_same (own_frame p j) (v.own_in_range j lt) ∙ v.own_used j lt;
    zero_used = test_same 0 v.pos ∙ v.zero_used;
    counted = v.counted ∙ sym (clear_count_ext m' m p.bitmap p.frame_count test_same);
  }

  pub MayFree-same : {f : ℕ} → MayFree p m f → MayFree p m' f
  MayFree-same {f} may = record {
    in_range = may.in_range;
    used = test_same f may.in_range ∙ may.used;
    not_zero = may.not_zero;
    not_own = may.not_own;
  }

module _ {s : Vmm} {own : Owners} (t : HasTables s own) where
  pub table_address :
      (f : ℕ) → f < s.pmm.frame_count → phys_to_virt_table s (f * 4096) ≡ s.hhdm_offset + f * 4096
  unfolding phys_to_virt_table
  table_address f lt = omega (arith, t.valid.small, t.offset, lt)

  -- A frame taken from the allocator.
  module _ (g : ℕ) (p : Pmm) (m : Memory) (a : Allocated s.pmm s.mem g p m) (v : IsValid p m) where
    abbrev taken : Vmm
    taken = record s { pmm = p; mem = m }

    pub new-ne_table : (h : ℕ) → own.level h ≢ 0 → h ≢ g
    new-ne_table h o = ground (arith, (t.held h o).used, a.was_free)

    pub new_level : own.level g ≡ 0
    new_level = ground (arith, new-ne_table g)

    used-ne-new : (h : ℕ) → MayFree s.pmm s.mem h → h ≢ g
    used-ne-new h may = ground (arith, may.used, a.was_free)

    used_bytes :
        (h k : ℕ)
        → MayFree s.pmm s.mem h
        → k < 4096
        → load m (s.hhdm_offset + h * 4096 + k) ≡ load s.mem (s.hhdm_offset + h * 4096 + k)
    used_bytes h k may lt =
        a.elsewhere (s.hhdm_offset + h * 4096 + k) (ground (arith, used-ne-new h may, t.offset))
          (ground (arith, may.not_own g, a.was_free, t.valid.above, t.offset))

    MayFree-taken : (h : ℕ) → MayFree s.pmm s.mem h → MayFree p m h
    MayFree-taken h may = record {
      in_range = ground (arith, may.in_range, a.same_place);
      used = ground (arith, may.used, may.in_range, a.same_place, a.now_used h);
      not_zero = may.not_zero;
      not_own = λ j lt e. ground (arith, a.same_place, may.not_own j);
    }

    pub words_taken : (h j : ℕ) → own.level h ≢ 0 → j < 512 → words taken h j ≡ words s h j
    words_taken h j o lt = load64_ext m s.mem (s.hhdm_offset + h * 4096 + j * 8) λ k small.
        let place : s.hhdm_offset + h * 4096 + j * 8 + k ≡ s.hhdm_offset + h * 4096 + (j * 8 + k) =
          omega arith in
        rw place (used_bytes h (j * 8 + k) (t.held h o) (omega arith))

    pub new_zeroed : (k : ℕ) → k < 4096 → load m (s.hhdm_offset + g * 4096 + k) ≡ 0
    new_zeroed k lt = subst (λ o. load m (o + g * 4096 + k) ≡ 0) t.offset (a.zeroed k lt)

    pub new_empty : (j : ℕ) → j < 512 → words taken g j ≡ 0
    new_empty j lt = load64-zero m (s.hhdm_offset + g * 4096 + j * 8) λ k small.
        let place : s.hhdm_offset + g * 4096 + j * 8 + k ≡ s.hhdm_offset + g * 4096 + (j * 8 + k) =
          omega arith in
        rw place (new_zeroed (j * 8 + k) (omega arith))

    pub HasTables-taken : HasTables taken own
    HasTables-taken = record {
      valid = v;
      offset = ground (arith, a.same_place, t.offset);
      addressable = ground (arith, a.same_place, t.addressable);
      root_level = t.root_level;
      root_prefix = t.root_prefix;
      held = λ h o. MayFree-taken h (t.held h o);
      tree = IsTree-same t.tree words_taken;
    }

    pub Extends-taken : Extends (words s) own (words taken) own
    Extends-taken = Extends-same t.tree words_taken

    pub Untouched-taken : Untouched s own taken own
    Untouched-taken f none may = record {
      still = MayFree-taken f may;
      no_table = none;
      bytes = λ k lt. used_bytes f k may lt;
    }

  -- A write to an entry of a table.
  module _ (f i e : ℕ) (table : own.level f ≢ 0) (fits : i < 512) where
    abbrev written : Vmm
    written = set_entry s (s.hhdm_offset + f * 4096) i e

    pub written_word : e < 2 ^ 64 → words written f i ≡ e
    written_word small = load64-store64 s.mem (s.hhdm_offset + f * 4096 + i * 8) e small

    pub other_words :
        (h j : ℕ) → j < 512 → ((h == f) && (j == i)) ≡ false → words written h j ≡ words s h j
    other_words h j lt away =
        load64-store64_away s.mem (s.hhdm_offset + f * 4096 + i * 8) e
          (s.hhdm_offset + h * 4096 + j * 8) (ground arith)

    other_bytes :
        (h k : ℕ)
        → h ≢ f
        → k < 4096
        → load written.mem (s.hhdm_offset + h * 4096 + k)
          ≡ load s.mem (s.hhdm_offset + h * 4096 + k)
    other_bytes h k apart lt =
        load-store64_away s.mem (s.hhdm_offset + f * 4096 + i * 8) e (s.hhdm_offset + h * 4096 + k)
          (ground arith)

    bitmap_kept :
        (j : ℕ)
        → j < s.pmm.frame_count
        → load written.mem (s.pmm.bitmap + j / 8) ≡ load s.mem (s.pmm.bitmap + j / 8)
    bitmap_kept j lt =
        load-store64_away s.mem (s.hhdm_offset + f * 4096 + i * 8) e (s.pmm.bitmap + j / 8)
          (ground (arith, (t.held f table).not_own j lt, t.valid.above, t.offset))

    pub IsValid-written : IsValid s.pmm written.mem
    IsValid-written = IsValid-same s.pmm s.mem written.mem bitmap_kept t.valid

    pub MayFree-written : (h : ℕ) → MayFree s.pmm s.mem h → MayFree s.pmm written.mem h
    MayFree-written h may = MayFree-same s.pmm s.mem written.mem bitmap_kept may

    pub Untouched-written : Untouched s own written own
    Untouched-written h none may = record {
      still = MayFree-written h may;
      no_table = none;
      bytes = λ k lt. other_bytes h k (ground arith) lt;
    }

    pub HasTables-written : own.level f ≡ 1 → HasTables written own
    HasTables-written lowest = record {
      valid = IsValid-written;
      offset = t.offset;
      addressable = t.addressable;
      root_level = t.root_level;
      root_prefix = t.root_prefix;
      held = λ h o. MayFree-written h (t.held h o);
      tree = IsTree-written f i t.tree lowest (λ h j _ lt away. other_words h j lt away);
    }
