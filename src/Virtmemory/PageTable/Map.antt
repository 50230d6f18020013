-- ===== src/Virtmemory/PageTable/Map.antt =====
-- `map`: the range is mapped, every other address translates as before.
use rust_baremetal.Prelude.{
  ℕ, zero, suc, ◌+◌, ◌-◌, ◌*◌, ◌/◌, ◌%◌, ◌≤◌, ◌<◌, ◌≡◌, ◌∙◌, refl, ap, arith, true, false, ◌==◌,
  ltb, leb, ◌&&◌, Option, none, some, if◌then◌else◌,
}
use native.Mathlib.Numerals.{add-one}
use rust_baremetal.Prelude.Word.{word_mod}
use rust_baremetal.Machine.{Machine, store}
use rust_baremetal.Machine.Outcome.{Run, Ends, returned, failed, bind, weaken, Ends-both}
use rust_baremetal.Machine.Outcome
use rust_baremetal.Machine.Heap.{HeapAllocator}
use rust_baremetal.Virtmemory.Pte.{leaf_entry}
use rust_baremetal.Virtmemory.Pte.Codec.{IsPerm, leaf_entry_sum}
use rust_baremetal.Virtmemory.PageTable.{map_page, map_loop, map}
use rust_baremetal.Virtmemory.PageTable.View.{lookup, IsTree}
use rust_baremetal.Virtmemory.PageTable.Walk.{Walked, walk-Walked}
use rust_baremetal.Machine.Frames.{Exhausted}
use rust_baremetal.Virtmemory.PageTable.Spares.{
  Spares, Spares-refl, Spares-trans, stored-Spares, walk-Spares,
}
use rust_baremetal.Virtmemory.PageTable.Store.{stored-IsTree, lookup-stored}

-- `u` has a well-formed tree, which translates as `f` says.
pub record Shows (H : HeapAllocator) (root : ℕ) (f : ℕ → ℕ) (u : Machine H) : Type 0 where
  pub tree : IsTree H u root
  pub view : (va : ℕ) → va < word_mod → lookup u.mem root va ≡ f va

-- A view after the page of `va` has been given the entry `w`.
abbrev pub put : (ℕ → ℕ) → ℕ → ℕ → ℕ → ℕ
put f va w va' = if va' / 4096 == va / 4096 then w else f va'

-- The view that `map` makes: the pages from `virt` up to `end` get the frames from `phys` on.
abbrev pub mapped : (ℕ → ℕ) → ℕ → ℕ → ℕ → ℕ → ℕ → ℕ
mapped f virt phys end perm va =
    if leb virt va && ltb va end then leaf_entry (phys + (va - virt) / 4096 * 4096) perm else f va

-- Where memory runs out, the pages that are done stay mapped.
pub record Partly (H : HeapAllocator) (root : ℕ) (f : ℕ → ℕ) (virt phys end perm : ℕ)
    (s u : Machine H) : Type 0 where
  pub upto : ℕ
  pub above : virt ≤ upto
  pub below : upto ≤ end
  pub shows : Shows H root (mapped f virt phys upto perm) u
  pub spares : Spares H root s u
  pub last : Machine H
  pub last_shows : Shows H root (mapped f virt phys upto perm) last
  pub last_spares : Spares H root s last
  pub full : Exhausted H last

mapped_none : (f : ℕ → ℕ) (virt phys perm va : ℕ) → f va ≡ mapped f virt phys virt perm va
mapped_none f virt phys perm va = ground arith

mapped_step :
    (f : ℕ → ℕ) (virt phys end perm va : ℕ)
    → virt % 4096 ≡ 0
    → virt + 4096 ≤ end
    → mapped (put f virt (leaf_entry phys perm)) (virt + 4096) (phys + 4096) end perm va
      ≡ mapped f virt phys end perm va
mapped_step f virt phys end perm va al h = ground arith

pub leaf_entry-lt :
    (paddr perm : ℕ) → paddr < word_mod → IsPerm perm → leaf_entry paddr perm < word_mod
leaf_entry-lt paddr perm h p = omega (arith, leaf_entry_sum paddr perm h p)

module _ (H : HeapAllocator) {root : ℕ} where
  Walked-Shows :
      {f : ℕ → ℕ} {s u : Machine H} {va : ℕ} {found : Option ℕ}
      → Shows H root f s
      → Walked H s u root va found
      → Shows H root f u
  Walked-Shows shows walked = record {
    tree = walked.tree;
    view = λ va' h. walked.same va' h ∙ shows.view va' h;
  }

  -- One round of the loop: the page of `va` is given its entry, or no memory was left for a table.
  pub map_page-put :
      (f : ℕ → ℕ) {s : Machine H} (va paddr perm : ℕ)
      → Shows H root f s
      → va < word_mod
      → paddr < word_mod
      → IsPerm perm
      → Ends
          (λ _ u. Shows H root (put f va (leaf_entry paddr perm)) u × Spares H root s u)
          (λ u. Shows H root f u × (Spares H root s u × Exhausted H s))
          (map_page H root va paddr perm s)
  unfolding map_page
  map_page-put f {s} va paddr perm shows fits p_fits is_perm =
      Outcome.bind
        (Outcome.weaken
          (Ends-both (walk-Walked H shows.tree va fits) (walk-Spares H shows.tree va fits))
          (λ _ _ w. w) (λ _ b. absurd b.0))
        write_leaf
    where
      write_leaf :
          (found : Option ℕ) (u : Machine H)
          → Walked H s u root va found × (Spares H root s u × (found ≡ none → Exhausted H s))
          → Ends
              (λ _ u. Shows H root (put f va (leaf_entry paddr perm)) u × Spares H root s u)
              (λ u. Shows H root f u × (Spares H root s u × Exhausted H s))
              (Outcome.and_then (Outcome.ok_or found u) (λ p. store H p (leaf_entry paddr perm)))
      write_leaf none u (walked, (spares, none_left)) =
          failed (Walked-Shows shows walked, (spares, none_left refl))
      write_leaf (some p) u (walked, (spares, _)) =
          let valid = walked.valid p refl in
          let w_lt = leaf_entry-lt paddr perm p_fits is_perm in
          rw (walked.address p refl) (
            returned (
              record {
                tree = stored-IsTree H walked.tree va fits valid _ w_lt;
                view = λ va' h.
                    lookup-stored H walked.tree va fits valid _ w_lt va' h
                    ∙ ap (λ x. if va' / 4096 == va / 4096 then leaf_entry paddr perm else x)
                        (walked.same va' h ∙ shows.view va' h);
              },
              Spares-trans H spares (stored-Spares H walked.tree va fits valid _ w_lt),
            ))

  Shows-cong :
      {f : ℕ → ℕ} (g : ℕ → ℕ) {u : Machine H}
      → ((va : ℕ) → f va ≡ g va)
      → Shows H root f u
      → Shows H root g u
  Shows-cong g same shows = record { tree = shows.tree; view = λ va h. shows.view va h ∙ same va }

  -- `end` is the first address behind the `n` pages that are left.
  pub map_loop-mapped :
      (n : ℕ) (f : ℕ → ℕ) {s : Machine H} (va paddr end perm : ℕ)
      → Shows H root f s
      → va % 4096 ≡ 0
      → end ≡ va + n * 4096
      → end < word_mod
      → paddr + n * 4096 < word_mod
      → IsPerm perm
      → Ends
          (λ _ u. Shows H root (mapped f va paddr end perm) u × Spares H root s u)
          (Partly H root f va paddr end perm s)
          (map_loop H (suc n) root va paddr end perm s)
  unfolding map_loop
  map_loop-mapped zero f {s} va paddr end perm shows al e fits p_fits is_perm =
      let stop : ltb va end ≡ false = ground arith in
      rw stop (
        returned (
          Shows-cong (mapped f va paddr end perm) (λ va'. ground arith) shows,
          Spares-refl H root s,
        ))
  map_loop-mapped (suc n) f {s} va paddr end perm shows al e fits p_fits is_perm =
      let go : ltb va end ≡ true = ground arith in
      let add_va : ltb (va + 4096) word_mod ≡ true = ground arith in
      let add_pa : ltb (paddr + 4096) word_mod ≡ true = ground arith in
      rw go (
        Outcome.bind
          (Outcome.weaken (map_page-put f va paddr perm shows (omega arith) (omega arith) is_perm)
            (λ _ _ w. w)
            (λ u (w, (spares, full)). record {
              upto = va;
              above = omega arith;
              below = omega arith;
              shows = Shows-cong (mapped f va paddr va perm) (mapped_none f va paddr perm) w;
              spares = spares;
              last = s;
              last_shows =
                  Shows-cong (mapped f va paddr va perm) (mapped_none f va paddr perm) shows;
              last_spares = Spares-refl H root s;
              full = full;
            }))
          (λ _ u (next, spares).
            rw (add_va, add_pa)
              (Outcome.weaken
                (map_loop-mapped n (put f va (leaf_entry paddr perm)) (va + 4096) (paddr + 4096) end
                  perm next (omega arith) (omega arith) fits (omega arith) is_perm)
                (λ _ u (w, more). (
                  Shows-cong (mapped f va paddr end perm)
                      (λ va'. mapped_step f va paddr end perm va' al (omega arith)) w,
                  Spares-trans H spares more,
                ))
                (λ u w. record {
                  upto = w.upto;
                  above = omega (arith, w.above);
                  below = w.below;
                  shows =
                      Shows-cong (mapped f va paddr w.upto perm)
                        (λ va'. mapped_step f va paddr w.upto perm va' al w.above) w.shows;
                  spares = Spares-trans H spares w.spares;
                  last = w.last;
                  last_shows =
                      Shows-cong (mapped f va paddr w.upto perm)
                        (λ va'. mapped_step f va paddr w.upto perm va' al w.above) w.last_shows;
                  last_spares = Spares-trans H spares w.last_spares;
                  full = w.full;
                }))))

  -- `map` of whole pages below the top of the address space returns with the range mapped to the
  -- frames from `phys` on with the permissions given, every other translation kept, or, where no
  -- memory is left for a table, fails with a first part of the range mapped and all else kept. The
  -- tree is well formed either way, and nothing that was held and is no table of the tree has
  -- changed.
  pub map-mapped :
      (f : ℕ → ℕ) {s : Machine H} (virt phys size perm : ℕ)
      → Shows H root f s
      → virt % 4096 ≡ 0
      → phys % 4096 ≡ 0
      → size % 4096 ≡ 0
      → virt + size < word_mod
      → phys + size < word_mod
      → IsPerm perm
      → Ends
          (λ _ u. Shows H root (mapped f virt phys (virt + size) perm) u × Spares H root s u)
          (Partly H root f virt phys (virt + size) perm s)
          (map H root virt phys size perm s)
  unfolding map
  map-mapped f virt phys size perm shows v_al p_al s_al v_fits p_fits is_perm =
      let test_p : (phys % 4096 == 0) ≡ true = ground arith in
      let test_v : (virt % 4096 == 0) ≡ true = ground arith in
      let test_s : (size % 4096 == 0) ≡ true = ground arith in
      let add : ltb (virt + size) word_mod ≡ true = ground arith in
      rw (test_p, test_v, test_s, add, add-one)
        (map_loop-mapped (size / 4096) f virt phys (virt + size) perm shows v_al (omega arith)
          v_fits (omega arith) is_perm)
