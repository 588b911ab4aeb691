-- ===== src/Vmm/GiveBack.antt =====
-- vmm.c's way out of vmm_alloc_guarded: giving a frame back leaves the page tables as they are.
use quin_kernel_template.Base.{ℕ, ◌+◌, ◌*◌, ◌<◌, ◌≡◌, ◌≢◌, arith, u64}
use quin_kernel_template.Bitmap.{bitmap_clear}
use quin_kernel_template.Bitmap.Bit.{test-clear, load-clear_away}
use quin_kernel_template.Memory.{load}
use quin_kernel_template.Memory.Words.{load64_ext}
use quin_kernel_template.Pmm.{Pmm}
use quin_kernel_template.Pmm.Free.{MayFree, free_frame_step}
use quin_kernel_template.Vmm.{Vmm}
use quin_kernel_template.Vmm.Tables.{words, HasTables}
use quin_kernel_template.Vmm.Translate.{translate, path, path-InTables}
use quin_kernel_template.Vmm.Tree.{Owners}
use quin_kernel_template.Vmm.Tree.Change.{IsTree-same, Extends-same}
use quin_kernel_template.Vmm.Reach.{root}

-- Giving back a frame in use that is no table.
module _ {s : Vmm} {own : Owners} (t : HasTables s own) (g : ℕ) (may : MayFree s.pmm s.mem g)
    (none : own.level g ≡ 0) where
  abbrev pub more : Pmm
  more = record s.pmm { free_frames = u64 (s.pmm.free_frames + 1) }

  abbrev pub given_back : Vmm
  given_back = record s { pmm = more; mem = bitmap_clear s.mem s.pmm.bitmap g }

  pub bytes_kept :
      (f k : ℕ)
      → MayFree s.pmm s.mem f
      → k < 4096
      → load given_back.mem (s.hhdm_offset + f * 4096 + k)
        ≡ load s.mem (s.hhdm_offset + f * 4096 + k)
  bytes_kept f k m lt =
      load-clear_away s.mem s.pmm.bitmap g (s.hhdm_offset + f * 4096 + k)
        (ground (arith, m.not_own g, may.in_range, t.valid.above, t.offset))

  pub MayFree-kept : (f : ℕ) → f ≢ g → MayFree s.pmm s.mem f → MayFree more given_back.mem f
  MayFree-kept f apart m = record {
    in_range = m.in_range;
    used = ground (arith, m.used, test-clear s.mem s.pmm.bitmap g f);
    not_zero = m.not_zero;
    not_own = m.not_own;
  }

  words_kept : (h j : ℕ) → own.level h ≢ 0 → j < 512 → words given_back h j ≡ words s h j
  words_kept h j o lt =
      load64_ext given_back.mem s.mem (s.hhdm_offset + h * 4096 + j * 8) λ k small.
        let place : s.hhdm_offset + h * 4096 + j * 8 + k ≡ s.hhdm_offset + h * 4096 + (j * 8 + k) =
          omega arith in
        rw place (bytes_kept h (j * 8 + k) (t.held h o) (omega arith))

  pub HasTables-given_back : HasTables given_back own
  HasTables-given_back = record {
    valid = (free_frame_step t.valid may).1;
    offset = t.offset;
    addressable = t.addressable;
    root_level = t.root_level;
    root_prefix = t.root_prefix;
    held = λ h o. MayFree-kept h (ground arith) (t.held h o);
    tree = IsTree-same t.tree words_kept;
  }

  pub translate-given_back : (u : ℕ) → translate given_back u ≡ translate s u
  unfolding translate
  translate-given_back u =
      (Extends-same t.tree words_kept).walks (root s) (path u) t.root_level (path-InTables u)
