-- ===== src/Strings/Tests.antt =====
-- Runs of kernel/lib/string.c on small memories, and its theorems at such inputs.
use quin_kernel_template.Base.{
  zero, suc, ◌+◌, ◌-◌, ◌≡◌, ◌≢◌, refl, [], ◌∷◌, some, arith, get_or, if◌then◌else◌,
}
use quin_kernel_template.Base.Int.{negsuc}
use quin_kernel_template.Memory.{Memory, load, store, within}
use quin_kernel_template.Strings.{copy_up, copy_down, memcpy, memmove, strlen_loop, strlen, strcmp}
use quin_kernel_template.Strings.Copy.{memmove_lem}
use quin_kernel_template.Strings.Compare.{Same, Running}

-- "abc", NUL, "abd", NUL, from address 0 on.
abbrev texts : Memory
texts a = get_or (97 ∷ 98 ∷ 99 ∷ 0 ∷ 97 ∷ 98 ∷ 100 ∷ 0 ∷ []) a 0

moved : load (memmove texts 1 0 3) 3 ≡ 99
unfolding memmove copy_up copy_down load store
moved = refl

copied_up_overlaps : load (memcpy texts 1 0 3) 3 ≡ 97
unfolding memcpy copy_up load store
copied_up_overlaps = refl

measured : (strlen 9 texts 0 ≡ some 3) × (strcmp 9 texts 0 4 ≡ some (negsuc 0))
unfolding strlen strlen_loop strcmp load
measured = (refl, refl)

prefix-Same : Same texts 0 4 0 2
unfolding load
prefix-Same zero lo hi = refl
prefix-Same (suc zero) lo hi = refl
prefix-Same (suc (suc j)) lo hi = absurd (omega arith)

first-Running : Running texts 0 0 2
unfolding load
first-Running zero lo hi = omega arith
first-Running (suc zero) lo hi = omega arith
first-Running (suc (suc j)) lo hi = absurd (omega arith)

second-Running : Running texts 4 0 3
unfolding load
second-Running zero lo hi = omega arith
second-Running (suc zero) lo hi = omega arith
second-Running (suc (suc zero)) lo hi = omega arith
second-Running (suc (suc (suc j))) lo hi = absurd (omega arith)

differ_at_two : load texts (0 + 2) ≢ load texts (4 + 2)
unfolding load
differ_at_two = omega arith

second_ends : load texts (4 + 3) ≡ 0
unfolding load
second_ends = refl

memmove_lem_example :
    load (memmove texts 1 0 3) 3 ≡ (if within 1 3 3 then load texts (0 + (3 - 1)) else load texts 3)
memmove_lem_example = memmove_lem texts 1 0 3 3
