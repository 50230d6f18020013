-- ===== src/Uart/Tests.antt =====
-- A message in two pieces.
use rust_baremetal.Prelude.{ℕ, ◌≡◌, List, [], ◌∷◌, ◌++◌}
use rust_baremetal.Uart.{new, flush, take}
use rust_baremetal.Uart.Writer.{write_all, joined, flush-write_all}

abbrev pieces : List (List ℕ)
pieces = (0x3e ∷ 0x54 ∷ []) ∷ (0x0a ∷ []) ∷ []

flush-write_all_example :
    flush (write_all pieces new) (0x24 ∷ []) ≡ 0x24 ∷ [] ++ take 256 (joined pieces)
flush-write_all_example = flush-write_all pieces (0x24 ∷ [])
