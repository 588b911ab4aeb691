-- ===== src/Spinlock/Exclusion.antt =====
-- The same lock under any interleaving of CPUs: a CPU is outside, about to exchange, reading in the
-- inner loop, or inside. A step is one atomic access of `spinlock_acquire` or `spinlock_release`.
use quin_kernel_template.Base.{ℕ, ◌≡◌, ◌≢◌, refl, arith, ◌==◌, if◌then◌else◌}

pub data Place : Type 0 where
  outside exchanging reading inside : Place

pub record Cpus : Type 0 where
  pub locked : ℕ
  pub place : ℕ → Place

abbrev pub move : (ℕ → Place) → ℕ → Place → ℕ → Place
move p i x j = if j == i then x else p j

pub data Step : Cpus → Cpus → Type 0 where
  call :
      {c : Cpus} (i : ℕ)
      → c.place i ≡ outside
      → Step c (record c { place = move c.place i exchanging })
  win :
      {c : Cpus} (i : ℕ)
      → c.place i ≡ exchanging
      → c.locked ≡ 0
      → Step c (record { locked = 1; place = move c.place i inside })
  lose :
      {c : Cpus} (i : ℕ)
      → c.place i ≡ exchanging
      → c.locked ≢ 0
      → Step c (record { locked = 1; place = move c.place i reading })
  pause : {c : Cpus} (i : ℕ) → c.place i ≡ reading → c.locked ≢ 0 → Step c c
  retry :
      {c : Cpus} (i : ℕ)
      → c.place i ≡ reading
      → c.locked ≡ 0
      → Step c (record c { place = move c.place i exchanging })
  release :
      {c : Cpus} (i : ℕ)
      → c.place i ≡ inside
      → Step c (record { locked = 0; place = move c.place i outside })

pub data Reach (start : Cpus) : Cpus → Type 0 where
  here : Reach start start
  next : {c d : Cpus} → Reach start c → Step c d → Reach start d

-- The lock word says whether a CPU is inside, and there is never more than one.
pub record Exclusive (c : Cpus) : Type 0 where
  pub held : (i : ℕ) → c.place i ≡ inside → c.locked ≡ 1
  pub alone : (i j : ℕ) → c.place i ≡ inside → c.place j ≡ inside → i ≡ j

Step-Exclusive : {c d : Cpus} → Step c d → Exclusive c → Exclusive d
Step-Exclusive (call i at) e = record {
  held = λ j h. ground (arith, e.held j);
  alone = λ j k h g. ground (arith, e.alone j k);
}
Step-Exclusive (win i at free) e = record {
  held = λ j h. refl;
  alone = λ j k h g. ground (arith, e.held j, e.held k, e.alone j k);
}
Step-Exclusive (lose i at busy) e = record {
  held = λ j h. refl;
  alone = λ j k h g. ground (arith, e.alone j k);
}
Step-Exclusive (pause i at busy) e = e
Step-Exclusive (retry i at free) e = record {
  held = λ j h. ground (arith, e.held j);
  alone = λ j k h g. ground (arith, e.alone j k);
}
Step-Exclusive (release i at) e = record {
  held = λ j h. ground (arith, e.held j, e.alone i j);
  alone = λ j k h g. ground (arith, e.alone j k);
}

abbrev pub idle : Cpus
idle = record { locked = 0; place = λ _. outside }

idle-Exclusive : Exclusive idle
idle-Exclusive = record { held = λ i h. cc; alone = λ i j h g. cc }

-- From an unlocked start, however the atomic accesses of any number of CPUs interleave, at most one
-- CPU is between acquire and release, and the lock word is 1 while one is.
pub Reach-Exclusive : {c : Cpus} → Reach idle c → Exclusive c
Reach-Exclusive here = idle-Exclusive
Reach-Exclusive (next r st) = Step-Exclusive st (Reach-Exclusive r)
