-- ===== src/Lifecycle/Exec/Tests.antt =====
-- Two arguments on the stack of a program.
use rust_baremetal.Prelude.{ℕ, List, [], ◌∷◌}
use rust_baremetal.Virtmemory.PageTable.Map.{put}

abbrev one_page : ℕ → ℕ
one_page = put (λ _. 0) 0x10000 0x200c3417

abbrev argv : List (List ℕ)
argv = (0x2d ∷ 0x6e ∷ []) ∷ (0x39 ∷ []) ∷ []
