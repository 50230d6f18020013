-- ===== src/Virtmemory/Uvm/Prepared.antt =====
-- `init_proc`: the pages that the program shares with the kernel, above its own.
use rust_baremetal.Prelude.{ℕ, ◌+◌, ◌*◌, ◌/◌, ◌%◌, ◌≤◌, ◌<◌, ◌≡◌, refl, arith, false, ◌==◌}
use rust_baremetal.Prelude.Word.{word_mod}
use rust_baremetal.Machine.{Machine}
use rust_baremetal.Machine.Outcome.{Ends, Ends-within}
use rust_baremetal.Machine.Outcome
use rust_baremetal.Machine.Heap.{HeapAllocator}
use rust_baremetal.Machine.Frames.{Exhausted}
use rust_baremetal.Process.{Uvm}
use rust_baremetal.Virtmemory.Pte.{leaf_entry, trampoline, trapframe}
use rust_baremetal.Virtmemory.PageTable.Map.{Shows, put}
use rust_baremetal.Virtmemory.PageTable.One.{map_one}
use rust_baremetal.Virtmemory.PageTable.Spares.{Spares, Spares-refl, Spares-trans}
use rust_baremetal.Virtmemory.PageTable.{map}
use rust_baremetal.Virtmemory.Pte.Codec.{IsPerm}
use rust_baremetal.Virtmemory.Uvm.{Space, init_proc, on_machine}
use rust_baremetal.Virtmemory.Uvm.Valid.{user_end, words, IsSpace, Spares-Owned, Owned-cong}

-- The view `f` with the trampoline at `text` and the trapframe at `frame`, for the kernel only.
abbrev pub prepared : (ℕ → ℕ) → (text frame : ℕ) → ℕ → ℕ
prepared f text frame =
    put (put f trampoline (leaf_entry text 0b1010)) trapframe (leaf_entry frame 0b0110)

module _ (H : HeapAllocator) where
  -- A page above those of the program.
  high-IsSpace :
      {f : ℕ → ℕ} {m u : Machine H} {uvm : Uvm} (va w : ℕ)
      → IsSpace H f m uvm
      → va % 4096 ≡ 0
      → user_end ≤ va
      → Shows H uvm.root (put f va w) u
      → Spares H uvm.root m u
      → IsSpace H (put f va w) u uvm
  high-IsSpace {f} va w space aligned high shows spares = record {
    shows = shows;
    begin = space.begin;
    whole = space.whole;
    bound = space.bound;
    owned =
        Owned-cong H (words (put f va w))
          (λ k h.
            let other : ((65536 + k * 4096) / 4096 == va / 4096) ≡ false =
              ground (arith, space.bound, high) in
            rw other refl)
          (Spares-Owned H spares space.owned);
    above = λ va' lo hi.
        let other : (va' / 4096 == va / 4096) ≡ false = ground (arith, high, aligned) in
        rw other (space.above va' lo hi);
  }

  -- A part of the table `f` is there, and only its tables have changed since `s`.
  pub record Keeping (f : ℕ → ℕ) (s t : Space H) : Type 0 where
    pub uvm : t.uvm ≡ s.uvm
    pub space : IsSpace H f t.machine s.uvm
    pub spares : Spares H s.uvm.root s.machine t.machine

  -- No memory is left for a table.
  pub record Unprepared (s t : Space H) : Type 0 where
    pub view : ℕ → ℕ
    pub keeping : Keeping view s t
    pub last : Space H
    pub last_keeping : Keeping view s last
    pub full : Exhausted H last.machine

  high-Keeping :
      {f : ℕ → ℕ} {s t : Space H} (va paddr perm : ℕ)
      → Keeping f s t
      → IsPerm perm
      → va % 4096 ≡ 0
      → user_end ≤ va
      → va + 4096 < word_mod
      → paddr % 4096 ≡ 0
      → paddr + 4096 < word_mod
      → Ends
          (λ _. Keeping (put f va (leaf_entry paddr perm)) s)
          (Unprepared s)
          (on_machine H (map H s.uvm.root va paddr 4096 perm) t)
  high-Keeping {f} {s} {t} va paddr perm a is_perm v_al high v_fits p_al p_fits =
      Ends-within (λ m. record t { machine = m })
        (map_one H s.uvm.root t.machine va paddr perm (omega (arith, v_fits))
          (omega (arith, p_fits)) is_perm f a.space.shows v_al p_al v_fits p_fits)
        (λ _ m (shows, spares). record {
          uvm = a.uvm;
          space = high-IsSpace va (leaf_entry paddr perm) a.space v_al high shows spares;
          spares = Spares-trans H a.spares spares;
        })
        (λ m (shows, (spares, full)). record {
          view = f;
          keeping = record {
            uvm = a.uvm;
            space = record {
              shows = shows;
              begin = a.space.begin;
              whole = a.space.whole;
              bound = a.space.bound;
              owned = Spares-Owned H spares a.space.owned;
              above = a.space.above;
            };
            spares = Spares-trans H a.spares spares;
          };
          last = t;
          last_keeping = a;
          full = full;
        })

  -- `init_proc` of a well-formed address space, with the trampoline and the trapframe in aligned pages
  -- below the top of memory: it returns with the page of the trampoline mapped to read and execute
  -- and that of the trapframe to read and write, both for the kernel only; or it fails where no
  -- memory is left for a table. Either way the address space is well formed and has the pages that
  -- it had, and nothing that was held and is no table of it has changed.
  pub init_proc-Keeping :
      (f : ℕ → ℕ) (text frame : ℕ) (s : Space H)
      → IsSpace H f s.machine s.uvm
      → text % 4096 ≡ 0
      → text + 4096 < word_mod
      → frame % 4096 ≡ 0
      → frame + 4096 < word_mod
      → Ends (λ _ t. Keeping (prepared f text frame) s t) (Unprepared s) (init_proc H text frame s)
  init_proc-Keeping f text frame s space text_al text_fits frame_al frame_fits =
      let start : Keeping f s s = record {
        uvm = refl;
        space = space;
        spares = Spares-refl H s.uvm.root s.machine;
      } in
      Outcome.bind
        (high-Keeping trampoline text 0b1010 start (omega arith, refl) refl (omega arith)
          (omega arith) text_al text_fits)
        (λ _ t a.
          high-Keeping trapframe frame 0b0110 a (omega arith, refl) (omega arith) (omega arith)
            (omega arith) frame_al frame_fits)
