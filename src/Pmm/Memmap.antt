-- ===== src/Pmm/Memmap.antt =====
-- The memory map that `pmm_init` reads: its usable frames, the end of memory, the bitmap's place.
use quin_kernel_template.Base.{
  ℕ, ◌+◌, ◌*◌, ◌/◌, ◌%◌, ◌^◌, ◌≤◌, ◌<◌, ◌≡◌, ◌≢◌, refl, ◌∙◌, ap, Bool, true, false, arith, u64,
  ◌&&◌, ◌||◌, leb, ltb, if◌then◌else◌, List, [], ◌∷◌, Bool-cases, inl, inr,
}
use quin_kernel_template.Boot.{RegionKind, usable, MemmapEntry}
use quin_kernel_template.Pmm.{page_size, is_ram, is_usable, highest_end, bitmap_region}

-- The frames of a usable entry, and of those of a memory map.
unfoldable pub in_entry : MemmapEntry → ℕ → Bool
in_entry e j =
    is_usable e.kind && (leb (e.base / page_size) j && ltb j ((e.base + e.length) / page_size))

unfoldable pub usable_frame : List MemmapEntry → ℕ → Bool
usable_frame [] j = false
usable_frame (e ∷ es) j = in_entry e j || usable_frame es j

-- What the bootloader's protocol says of a usable entry.
pub record IsWhole (e : MemmapEntry) : Type 0 where
  pub fits : e.base + e.length < 2 ^ 64
  pub base_aligned : e.base % page_size ≡ 0
  pub length_aligned : e.length % page_size ≡ 0

-- Of a whole map: its usable entries consist of pages, and do not overlap.
abbrev pub IsMap : List MemmapEntry → Type 0
IsMap [] = Unit
IsMap (e ∷ es) =
    (is_usable e.kind ≡ true → IsWhole e)
    × ((j : ℕ) → in_entry e j ≡ true → usable_frame es j ≡ false)
    × IsMap es

usable_is_ram : (k : RegionKind) → is_usable k ≡ true → is_ram k ≡ true
unfolding is_usable is_ram
usable_is_ram usable h = refl
usable_is_ram _ h = ground arith

abbrev pub next_highest : MemmapEntry → ℕ → ℕ
next_highest e h =
    if is_ram e.kind && ltb h (u64 (e.base + e.length)) then u64 (e.base + e.length) else h

highest_end-le : (es : List MemmapEntry) (h : ℕ) → h ≤ highest_end es h
unfolding highest_end
highest_end-le [] h = omega arith
highest_end-le (e ∷ es) h = ground (arith, highest_end-le es (next_highest e h))

pub entry_below :
    (e : MemmapEntry) (es : List MemmapEntry) (h : ℕ)
    → is_usable e.kind ≡ true
    → IsWhole e
    → e.base + e.length ≤ highest_end (e ∷ es) h
unfolding highest_end
entry_below e es h u w =
    ground (arith, w.fits, usable_is_ram e.kind u, highest_end-le es (next_highest e h))

pub usable_frame-lt :
    (es : List MemmapEntry) (h j : ℕ)
    → IsMap es
    → usable_frame es j ≡ true
    → j < highest_end es h / page_size
unfolding usable_frame in_entry highest_end
usable_frame-lt [] h j m u = ground (arith, u)
usable_frame-lt (e ∷ es) h j m u = elim (Bool-cases (in_entry e j)) [
  | inl here ↦
      let kind : is_usable e.kind ≡ true = ground arith in
      let top : e.base + e.length ≤ highest_end (e ∷ es) h = entry_below e es h kind (m.0 kind) in
      ground (arith, top)
  | inr later ↦ usable_frame-lt es (next_highest e h) j m.2 (ground arith)
]

pick : (u room : Bool) (base rest : ℕ) → ℕ
pick u room base rest = elim u [ true ↦ if room then base else rest | false ↦ rest ]

bitmap_region_skip :
    (e : MemmapEntry) (es : List MemmapEntry) (bytes : ℕ)
    → (is_usable e.kind && leb bytes e.length) ≡ false
    → bitmap_region (e ∷ es) bytes ≡ bitmap_region es bytes
unfolding bitmap_region pick
bitmap_region_skip e es bytes h = elim (Bool-cases (is_usable e.kind)) [
  | inr bad ↦ ap (λ u. pick u (leb bytes e.length) e.base (bitmap_region es bytes)) bad
  | inl good ↦
      let r : leb bytes e.length ≡ false = ground arith in
      ap (λ u. pick u (leb bytes e.length) e.base (bitmap_region es bytes)) good
      ∙ ap (λ r. pick true r e.base (bitmap_region es bytes)) r
]

bitmap_region_take :
    (e : MemmapEntry) (es : List MemmapEntry) (bytes : ℕ)
    → (is_usable e.kind && leb bytes e.length) ≡ true
    → bitmap_region (e ∷ es) bytes ≡ e.base
unfolding bitmap_region pick
bitmap_region_take e es bytes h =
    let u : is_usable e.kind ≡ true = ground arith in
    let r : leb bytes e.length ≡ true = ground arith in
    ap (λ u. pick u (leb bytes e.length) e.base (bitmap_region es bytes)) u
    ∙ ap (λ r. pick true r e.base (bitmap_region es bytes)) r

-- Where the bitmap may stand: whole pages of the frames below `end`.
abbrev pub Placed : (phys bytes end : ℕ) → Type 0
Placed phys bytes end =
    (phys % page_size ≡ 0) × (phys + (bytes + 4095) / page_size * page_size ≤ end)

-- The place of the bitmap.
pub bitmap_region-Placed :
    (es : List MemmapEntry) (bytes h : ℕ)
    → IsMap es
    → bitmap_region es bytes ≢ 0
    → Placed (bitmap_region es bytes) bytes (highest_end es h)
unfolding bitmap_region highest_end
bitmap_region-Placed [] bytes h m some_place = absurd (some_place refl)
bitmap_region-Placed (e ∷ es) bytes h m some_place =
    elim (Bool-cases (is_usable e.kind && leb bytes e.length)) [
      | inr bad ↦
          let skip = bitmap_region_skip e es bytes bad in
          rw skip
            (bitmap_region-Placed es bytes (next_highest e h) m.2 (λ z. some_place (skip ∙ z)))
      | inl good ↦
          let w : IsWhole e = m.0 (ground arith) in
          let top : e.base + e.length ≤ highest_end (e ∷ es) h =
            entry_below e es h (ground arith) w in
          let room : bytes ≤ e.length = ground arith in
          let pages : (bytes + 4095) / page_size * page_size ≤ e.length =
            omega (arith, w.length_aligned) in
          rw (bitmap_region_take e es bytes good) (w.base_aligned, omega (arith, pages, top))
    ]

pub highest_end-lt : (es : List MemmapEntry) (h : ℕ) → h < 2 ^ 64 → highest_end es h < 2 ^ 64
unfolding highest_end
highest_end-lt [] h lt = lt
highest_end-lt (e ∷ es) h lt = highest_end-lt es (next_highest e h) (ground (arith, lt))
