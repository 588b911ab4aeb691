-- ===== src/Boot.antt =====
-- kernel/include/boot_info.h and the accessors of kernel/arch/x86_64/boot/limine_requests.c. What the
-- bootloader answered is a parameter: `none` for no response, and for a framebuffer the fields of the
-- bootloader's structure.
use quin_kernel_template.Framebuffer.{BootFramebuffer}
use quin_kernel_template.Base.{ℕ, zero, suc, Option, none, some, List, [], ◌∷◌}

pub data RegionKind : Type 0 where
  usable reserved acpi_reclaimable acpi_nvs bad_memory : RegionKind
  bootloader_reclaimable executable_and_modules framebuffer reserved_mapped : RegionKind

pub record MemmapEntry : Type 0 where
  pub base : ℕ
  pub length : ℕ
  pub kind : RegionKind

-- The copy loop, with `left` slots of the static buffer to go.
copy_entries : ℕ → List MemmapEntry → List MemmapEntry
copy_entries zero es = []
copy_entries (suc left) [] = []
copy_entries (suc left) (e ∷ es) = e ∷ copy_entries left es

unfoldable pub boot_get_memmap : Option (List MemmapEntry) → Option (List MemmapEntry)
unfolding copy_entries
boot_get_memmap none = none
boot_get_memmap (some entries) = some (copy_entries 256 entries)

-- The fields of the bootloader's description of a framebuffer.
pub record FramebufferFields (L : Type 0) : Type 0 where
  pub address : L → ℕ
  pub width : L → ℕ
  pub height : L → ℕ
  pub pitch : L → ℕ
  pub bpp : L → ℕ
  pub red_mask_size : L → ℕ
  pub red_mask_shift : L → ℕ
  pub green_mask_size : L → ℕ
  pub green_mask_shift : L → ℕ
  pub blue_mask_size : L → ℕ
  pub blue_mask_shift : L → ℕ

unfoldable pub boot_get_framebuffer :
    {L : Type 0} → FramebufferFields L → Option (List L) → Option BootFramebuffer
boot_get_framebuffer fields none = none
boot_get_framebuffer fields (some []) = none
boot_get_framebuffer fields (some (fb ∷ framebuffers)) = some (record {
  address = fields.address fb;
  width = fields.width fb;
  height = fields.height fb;
  pitch = fields.pitch fb;
  bpp = fields.bpp fb;
  red_mask_size = fields.red_mask_size fb;
  red_mask_shift = fields.red_mask_shift fb;
  green_mask_size = fields.green_mask_size fb;
  green_mask_shift = fields.green_mask_shift fb;
  blue_mask_size = fields.blue_mask_size fb;
  blue_mask_shift = fields.blue_mask_shift fb;
})

pub record KernelAddress : Type 0 where
  pub physical_base : ℕ
  pub virtual_base : ℕ

-- The response's two bases.
unfoldable pub boot_get_kernel_address : Option (ℕ × ℕ) → Option KernelAddress
boot_get_kernel_address none = none
boot_get_kernel_address (some response) =
    some (record { physical_base = response.0; virtual_base = response.1 })

-- The response's address.
unfoldable pub boot_get_rsdp : Option ℕ → Option ℕ
boot_get_rsdp none = none
boot_get_rsdp (some address) = some address
