-- ===== src/Trap/Frame.antt =====
-- Words at an offset from a base address.
use rust_baremetal.Prelude.{ℕ, ◌+◌, ◌≡◌, arith, ◌==◌}

-- Two words from one base differ by their offsets.
pub ==_base : (b j k : ℕ) → (b + j == b + k) ≡ (j == k)
==_base b j k = ground arith
