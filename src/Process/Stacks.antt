-- ===== src/Process/Stacks.antt =====
-- Where `KSTACK!` puts the kernel stacks.
use rust_baremetal.Prelude.{ℕ, ◌+◌, ◌-◌, ◌*◌, ◌%◌, ◌≤◌, ◌<◌, ◌≡◌, arith}
use rust_baremetal.Virtmemory.Pte.{trampoline}
use rust_baremetal.Process.{kstack}

-- The kernel stacks of the slots `i` and `j`, where `i` comes first and both fit below the
-- trampoline: both are page aligned, the stack of `i` ends `i` times three pages below the
-- trampoline, and at least one whole page lies between the top of the stack of `j` and the bottom
-- of the stack of `i`.
pub kstack-Apart :
    (i j : ℕ)
    → i < j
    → (j + 1) * 12288 ≤ trampoline
    → (kstack i % 4096 ≡ 0)
      × (kstack j % 4096 ≡ 0)
      × (kstack i + 8192 ≡ trampoline - i * 12288)
      × (kstack j + 8192 + 4096 ≤ kstack i)
unfolding kstack
kstack-Apart i j h fits = (omega arith, omega arith, omega arith, omega arith)
