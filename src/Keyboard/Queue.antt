-- ===== src/Keyboard/Queue.antt =====
-- What the keyboard promises: a queue of at most 255 characters that drops the newest when full.
use quin_kernel_template.Base.{ℕ, List, [], ◌∷◌, ◌++◌, ltb, if◌then◌else◌, length}

abbrev pub Queue : Type 0
Queue = List ℕ

abbrev pub capacity : ℕ
capacity = 255

unfoldable pub push : Queue → ℕ → Queue
push q c = if ltb (length q) capacity then q ++ (c ∷ []) else q

unfoldable pub pop : Queue → ℕ × Queue
pop [] = (0, [])
pop (c ∷ q) = (c, q)
