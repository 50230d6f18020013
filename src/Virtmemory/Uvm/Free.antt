-- ===== src/Virtmemory/Uvm/Free.antt =====
-- `free`: the trampoline, the trapframe and the program's pages are unmapped, and the last ones go
-- back to the heap.
use mathlib.Core.Bool.{false≢true}
use rust_baremetal.Prelude.{
  ℕ, ◌+◌, ◌/◌, ◌%◌, ◌<◌, ◌≡◌, ◌∙◌, inl, inr, refl, sym, ap, arith, true, false, ltb, Bool-cases,
}
use rust_baremetal.Prelude.Word.{word_mod}
use rust_baremetal.Machine.{Machine}
use rust_baremetal.Machine.Outcome.{done}
use rust_baremetal.Machine.Heap.{HeapAllocator}
use rust_baremetal.Virtmemory.PageTable.{unmap}
use rust_baremetal.Virtmemory.PageTable.View.{entry}
use rust_baremetal.Virtmemory.PageTable.Map.{Shows}
use rust_baremetal.Virtmemory.PageTable.Unmap.{unmapped, Owned, Released, Unmapped, unmap-Unmapped}
use rust_baremetal.Virtmemory.Uvm.{Space}
use rust_baremetal.Virtmemory.Uvm
use rust_baremetal.Virtmemory.Uvm.Valid.{words, IsSpace, Owned-cong}

Released-same :
    (H : HeapAllocator) {s t u : Machine H} {ws : ℕ → ℕ} {n : ℕ}
    → ((a : ℕ) → H.is_free t.heap a ≡ H.is_free s.heap a)
    → Released H true ws n t u
    → Released H true ws n s u
Released-same H free gone = record { gone = gone.gone; rest = λ a out. gone.rest a out ∙ free a }

module _ (H : HeapAllocator) {root : ℕ} where
  -- Nothing is given back, so nothing need be owned.
  Owned-none : {s : Machine H} {ws : ℕ → ℕ} (n : ℕ) → Owned H false s root ws n
  Owned-none n = record {
    owned = λ k h g. absurd (false≢true g);
    distinct = λ k j hk hj g. absurd (false≢true g);
  }

  -- One of the kernel's own pages is unmapped; the heap is as before.
  unmap_kept :
      (f : ℕ → ℕ) (s : Machine H) (va : ℕ)
      → Shows H root f s
      → va % 4096 ≡ 0
      → va + 4096 < word_mod
      → (u : Machine H) × (unmap H root va 4096 false s ≡ done tt u)
        × Unmapped H root false 1 f s va (va + 4096) u
  unmap_kept f s va shows al fits =
      elim (unmap-Unmapped H root false f s va 4096 shows al fits (Owned-none 1)) [
        | inl (_, run) ↦ run
        | inr (part, _) ↦ absurd (part (omega arith))
      ]

  kept_free :
      {f : ℕ → ℕ} {s u : Machine H} (va end : ℕ)
      → Unmapped H root false 1 f s va end u
      → (a : ℕ) → H.is_free u.heap a ≡ H.is_free s.heap a
  kept_free va end gone a = gone.released.rest a (λ k h g. absurd (false≢true g))

  -- What the address space owns is owned as long as the heap and the root's entries are the same.
  Owned-same :
      {s u : Machine H} {ws : ℕ → ℕ} {n : ℕ}
      → ((a : ℕ) → H.is_free u.heap a ≡ H.is_free s.heap a)
      → ((i : ℕ) → i < 1024 → entry u.mem root i ≡ entry s.mem root i)
      → Owned H true s root ws n
      → Owned H true u root ws n
  Owned-same free entries own = record {
    owned = λ k h g.
        let one = own.owned k h g in
        record {
          page = record {
            aligned = one.page.aligned;
            above = one.page.above;
            below = one.page.below;
            held = λ a inside. free a ∙ one.page.held a inside;
          };
          not_root = one.not_root;
          not_table = λ i h'. rw (entries i h') (one.not_table i h');
        };
    distinct = own.distinct;
  }

-- The same entries.
Released-cong :
    {H : HeapAllocator} {s t : Machine H} {vs ws : ℕ → ℕ} {n : ℕ}
    → ((k : ℕ) → k < n → vs k ≡ ws k)
    → Released H true vs n s t
    → Released H true ws n s t
Released-cong same gone = record {
  gone = λ k h. rw (sym (same k h)) (gone.gone k h);
  rest = λ a out. gone.rest a (λ k h. rw (same k h) (out k h));
}

-- What `free` leaves of the view: neither the kernel's two pages nor any of the program's.
abbrev pub emptied : (ℕ → ℕ) → ℕ → ℕ → ℕ
emptied f size =
    unmapped (unmapped (unmapped f 4294959104 4294963200) 4294955008 4294959104) 65536
      (65536 + size)

pub record Emptied (H : HeapAllocator) (f : ℕ → ℕ) (s t : Space H) : Type 0 where
  pub uvm : t.uvm ≡ s.uvm
  pub shows : Shows H s.uvm.root (emptied f s.uvm.size) t.machine
  pub released : Released H true (words f) (s.uvm.size / 4096) s.machine t.machine

module _ (H : HeapAllocator) (f : ℕ → ℕ) (s : Space H) (space : IsSpace H f s.machine s.uvm) where
  abbrev root : ℕ
  root = s.uvm.root

  abbrev f1 : ℕ → ℕ
  f1 = unmapped f 4294959104 4294963200

  abbrev f2 : ℕ → ℕ
  f2 = unmapped f1 4294955008 4294959104

  -- The program's pages, from a state where the kernel's two pages are unmapped.
  unmap_user :
      {u : Machine H}
      → Shows H root f2 u
      → Owned H true u root (words f) (s.uvm.size / 4096)
      → (t : Machine H) × (unmap H root s.uvm.begin s.uvm.size true u ≡ done tt t)
        × Shows H root (emptied f s.uvm.size) t
        × Released H true (words f) (s.uvm.size / 4096) u t
  unmap_user {u} shows own =
      let low : (k : ℕ) → k < s.uvm.size / 4096 → words f2 k ≡ words f k =
        λ k h. ground (arith, space.bound) in
      elim (unmap-Unmapped H root true f2 u 65536 s.uvm.size shows refl (omega (arith, space.bound))
        (Owned-cong H (words f2) low own)) [
          | inl (_, (t, ran, gone)) ↦ (
            t,
            ap (λ b. unmap H root b s.uvm.size true u) space.begin ∙ ran,
            gone.shows,
            Released-cong low gone.released,
          )
          | inr (part, _) ↦ absurd (part space.whole)
        ]

  -- `free` of a well-formed address space returns: it unmaps the trampoline, the trapframe and every
  -- page of the program, keeps all other translations, and gives exactly the program's pages back
  -- to the heap.
  pub free-Emptied : (t : Space H) × (Uvm.free H s ≡ done tt t) × Emptied H f s t
  unfolding Uvm.free
  free-Emptied =
      let (u, ran_u, gone_u) = unmap_kept H f s.machine 4294959104 space.shows refl (omega arith) in
      let (v, ran_v, gone_v) = unmap_kept H f1 u 4294955008 gone_u.shows refl (omega arith) in
      let free_v : (a : ℕ) → H.is_free v.heap a ≡ H.is_free s.machine.heap a =
        λ a. kept_free H _ _ gone_v a ∙ kept_free H _ _ gone_u a in
      let own = Owned-same H free_v (λ i h. gone_v.entries i h ∙ gone_u.entries i h) space.owned in
      let (t, ran_t, shows, released) = unmap_user gone_v.shows own in
      elim (Bool-cases (ltb 0 s.uvm.size)) [
        | inl some_size ↦ (
          record { machine = t; uvm = s.uvm },
          rw (ran_u, ran_v, some_size, ran_t) refl,
          record { uvm = refl; shows = shows; released = Released-same H free_v released },
        )
        | inr empty ↦ (
          record { machine = v; uvm = s.uvm },
          rw (ran_u, ran_v, empty) refl,
          record {
            uvm = refl;
            shows = record {
              tree = gone_v.shows.tree;
              view = λ va h. gone_v.shows.view va h ∙ ground (arith, empty);
            };
            released = record {
              gone = λ k h. absurd (ground (arith, empty));
              rest = λ a out. free_v a;
            };
          },
        )
      ]
