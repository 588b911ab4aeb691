-- ===== src/Panic.antt =====
-- The outcome of kernel code that may call `panic` (kernel/arch/x86_64/cpu/panic.c), which never
-- returns: either a result, or the end of everything.
pub mod Trace
pub mod Report
pub mod Lines
pub mod Text
mod Tests

pub data Outcome {ℓ} (A : Type ℓ) : Type ℓ where
  ok : A → Outcome A
  panicked : Outcome A

infixl 5 ◌>>=◌
abbrev pub ◌>>=◌ {ℓ κ} : {A : Type ℓ} {B : Type κ} → Outcome A → (A → Outcome B) → Outcome B
ok a >>= f = f a
panicked >>= f = panicked
