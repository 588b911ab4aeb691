-- ===== src/Keyboard/Refine.antt =====
-- The ring of keyboard.c holds the queue of its unread characters.
use quin_kernel_template.Base.{
  ℕ, zero, suc, ◌+◌, ◌-◌, ◌%◌, ◌<◌, ◌≡◌, ◌≢◌, refl, ◌∙◌, sym, ap, inl, inr, Bool-cases, u32, true,
  false, List, [], ◌∷◌, ◌++◌, arith, get_or, set, length, length-set, get_or-set_self,
  get_or-set_ne, ◌==◌,
}
use quin_kernel_template.Keyboard.{Keyboard, buffer_size, buffer_push, keyboard_read_char}
use quin_kernel_template.Keyboard.Queue
use quin_kernel_template.Keyboard.Queue.{Queue, capacity}

pub record IsValid (k : Keyboard) : Type 0 where
  pub storage : length k.buffer ≡ buffer_size
  pub head_in : k.buffer_head < buffer_size
  pub tail_in : k.buffer_tail < buffer_size

-- The `n` characters from index `t` on, going round.
unfoldable pub unread : List ℕ → (t n : ℕ) → Queue
unread b t zero = []
unread b t (suc n) = get_or b t 0 ∷ unread b ((t + 1) % buffer_size) n

-- How many characters lie between tail and head.
abbrev pub used : Keyboard → ℕ
used k = (k.buffer_head + buffer_size - k.buffer_tail) % buffer_size

abbrev pub contents : Keyboard → Queue
contents k = unread k.buffer k.buffer_tail (used k)

length-unread : (b : List ℕ) (t n : ℕ) → length (unread b t n) ≡ n
unfolding unread
length-unread b t zero = refl
length-unread b t (suc n) = ap suc (length-unread b ((t + 1) % buffer_size) n)

-- Writing at the end of a stretch appends to it.
unread-set :
    (b : List ℕ) (c t n h : ℕ)
    → length b ≡ buffer_size
    → t < buffer_size
    → n < capacity
    → h ≡ (t + n) % buffer_size
    → unread (set b h c) t (suc n) ≡ unread b t n ++ (c ∷ [])
unfolding unread
unread-set b c t zero h len lt small e =
    let at : h ≡ t = omega arith in rw at (rw (get_or-set_self b t c 0 (omega arith)))
unread-set b c t (suc n) h len lt small e =
    let away : h ≢ t = omega arith in
    ground (
      arith,
      get_or-set_ne b h t c 0 away,
      unread-set b c ((t + 1) % buffer_size) n h len (omega arith) (omega arith) (omega arith),
    )

module _ (k : Keyboard) (c : ℕ) (v : IsValid k) where
  abbrev next : ℕ
  next = u32 (k.buffer_head + 1) % buffer_size

  push-full : (next == k.buffer_tail) ≡ true → Queue.push (contents k) c ≡ contents k
  unfolding Queue.push
  push-full full = ground (arith, length-unread k.buffer k.buffer_tail (used k))

  push-room :
      (next == k.buffer_tail) ≡ false
      → unread
          (set k.buffer k.buffer_head c)
          k.buffer_tail
          ((next + buffer_size - k.buffer_tail) % buffer_size)
        ≡ Queue.push (contents k) c
  unfolding Queue.push
  push-room room =
      let grown : (next + buffer_size - k.buffer_tail) % buffer_size ≡ suc (used k) =
        ground arith in
      let small : used k < capacity = ground arith in
      ground (
        arith,
        ap (unread (set k.buffer k.buffer_head c) k.buffer_tail) grown,
        length-unread k.buffer k.buffer_tail (used k),
        unread-set k.buffer c k.buffer_tail (used k) k.buffer_head v.storage v.tail_in small
            (omega arith),
      )

-- `buffer_push` on a valid ring appends the character to the queue of unread characters, or drops it
-- when 255 are unread, and keeps the ring valid.
pub push_refines :
    (k : Keyboard) (c : ℕ)
    → IsValid k
    → (contents (buffer_push k c) ≡ Queue.push (contents k) c) × IsValid (buffer_push k c)
unfolding buffer_push
push_refines k c v = elim (Bool-cases (next k c v == k.buffer_tail)) [
  | inl full ↦ rw full (sym (push-full k c v full), v)
  | inr room ↦ rw room (
    push-room k c v room,
    record {
      storage = length-set k.buffer k.buffer_head c ∙ v.storage;
      head_in = omega arith;
      tail_in = v.tail_in;
    },
  )
]

-- `keyboard_read_char` on a valid ring returns and removes the oldest unread character, returns 0 and
-- changes nothing when there is none, and keeps the ring valid.
pub read_refines :
    (k : Keyboard)
    → IsValid k
    → ((keyboard_read_char k).0 ≡ (Queue.pop (contents k)).0)
      × (contents (keyboard_read_char k).1 ≡ (Queue.pop (contents k)).1)
      × IsValid (keyboard_read_char k).1
unfolding keyboard_read_char Queue.pop unread
read_refines k v = elim (Bool-cases (k.buffer_tail == k.buffer_head)) [
  | inl empty ↦
      let none_left : used k ≡ 0 = ground arith in
      rw empty (rw none_left refl, rw none_left refl, v)
  | inr some_left ↦
      let next = u32 (k.buffer_tail + 1) % buffer_size in
      let step : used k ≡ suc ((k.buffer_head + buffer_size - next) % buffer_size) = ground arith in
      let at : (k.buffer_tail + 1) % buffer_size ≡ next = omega arith in
      rw some_left (
        rw step refl,
        rw step (rw at refl),
        record { storage = v.storage; head_in = v.head_in; tail_in = omega arith },
      )
]
