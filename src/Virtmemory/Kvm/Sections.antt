-- ===== src/Virtmemory/Kvm/Sections.antt =====
-- What the kernel's address space translates to after `Kvm::init`.
use rust_baremetal.Prelude.{
  ℕ, ◌+◌, ◌-◌, ◌*◌, ◌/◌, ◌%◌, ◌≤◌, ◌<◌, ◌≡◌, ◌≢◌, ◌∙◌, ◌⊎◌, inl, inr, refl, arith, false, ltb,
}
use rust_baremetal.Prelude.Word.{word_mod}
use rust_baremetal.Machine.{Machine}
use rust_baremetal.Machine.Outcome.{Run, done, err, panic, Ends, returned, failed, and_then}
use rust_baremetal.Machine.Outcome
use rust_baremetal.Machine.Heap.{HeapAllocator}
use rust_baremetal.Machine.Frames.{Exhausted, Keeps}
use rust_baremetal.Virtmemory.Pte.{leaf_entry}
use rust_baremetal.Virtmemory.PageTable.New.{Made, new-Made}
use rust_baremetal.Virtmemory.PageTable.Spares.{Spares, Spares-refl, Spares-trans, held_outside}
use rust_baremetal.Virtmemory.PageTable.Map.{Shows, Partly, mapped, map-mapped}
use rust_baremetal.Virtmemory.PageTable
use rust_baremetal.Virtmemory.Kvm.{map_sections, dropping, init}

abbrev pub page_of : ℕ → ℕ
page_of va = va / 4096 * 4096

-- The kernel's view: device, text and RAM at their own addresses, the trampoline at the top.
pub record KernelView (end_text trampoline_text : ℕ) (f : ℕ → ℕ) : Type 0 where
  pub uart : (va : ℕ) → page_of va ≡ 0x10000000 → f va ≡ leaf_entry 0x10000000 0b0110
  pub text : (va : ℕ) → 0x80200000 ≤ va → va < end_text → f va ≡ leaf_entry (page_of va) 0b1010
  pub ram : (va : ℕ) → end_text ≤ va → va < 0x84000000 → f va ≡ leaf_entry (page_of va) 0b0110
  pub trampoline : (va : ℕ) → page_of va ≡ 0xffffe000 → f va ≡ leaf_entry trampoline_text 0b1010
  pub nothing_else :
      (va : ℕ)
      → page_of va ≢ 0x10000000
      → page_of va ≢ 0xffffe000
      → (va < 0x80200000) ⊎ (0x84000000 ≤ va)
      → f va ≡ 0

module _ (H : HeapAllocator) (end_text trampoline_text : ℕ) (lo : 0x80200000 ≤ end_text)
    (hi : end_text ≤ 0x84000000) (aligned : end_text % 4096 ≡ 0)
    (tramp_aligned : trampoline_text % 4096 ≡ 0)
    (tramp_fits : trampoline_text + 4096 < word_mod) where
  abbrev view : ℕ → ℕ
  view =
      mapped
        (mapped
          (mapped (mapped (λ _. 0) 0x10000000 0x10000000 (0x10000000 + 0x1000) 0b0110) 0x80200000
            0x80200000 (0x80200000 + (end_text - 0x80200000)) 0b1010)
          end_text end_text (end_text + (0x84000000 - end_text)) 0b0110)
        0xffffe000 trampoline_text (0xffffe000 + 0x1000) 0b1010

  view-KernelView : KernelView end_text trampoline_text view
  view-KernelView = record {
    uart = λ va e. ground (arith, lo);
    text = λ va a b. ground arith;
    ram = λ va a b. ground arith;
    trampoline = λ va e. ground arith;
    nothing_else = λ va e e' out. ground arith;
  }

  module _ (root : ℕ) (t : Machine H) where
    -- A part of the table `f` is there, and only tables have changed since `t`.
    abbrev Grown : (ℕ → ℕ) → Machine H → Type 0
    Grown f u = Shows H root f u × Spares H root t u

    -- Memory ran out on the way.
    abbrev OnTheWay : Machine H → Type 0
    OnTheWay u = (f : ℕ → ℕ) × (last : Machine H) × Grown f u × Grown f last × Exhausted H last

    section :
        {g f : ℕ → ℕ} {s : Machine H} {virt phys end perm : ℕ} {r : Run (Machine H) (Unit {0})}
        → Spares H root t s
        → Ends
            (λ _ u. Shows H root g u × Spares H root s u)
            (Partly H root f virt phys end perm s)
            r
        → Ends (λ _. Grown g) OnTheWay r
    section before ends =
        Outcome.weaken ends (λ _ u (shows, spares). (shows, Spares-trans H before spares))
          (λ u part. (
            _,
            part.last,
            (part.shows, Spares-trans H before part.spares),
            (part.last_shows, Spares-trans H before part.last_spares),
            part.full,
          ))

    map_sections-Shows :
        Shows H root (λ _. 0) t
        → Ends (λ _. Grown view) OnTheWay (map_sections H end_text trampoline_text root t)
    unfolding map_sections
    map_sections-Shows shows =
        let sub_text : ltb end_text 0x80200000 ≡ false = ground arith in
        let sub_data : ltb 0x84000000 end_text ≡ false = ground arith in
        Outcome.bind
          (section (Spares-refl H root t) (
            map-mapped H (λ _. 0) 0x10000000 0x10000000 0x1000 0b0110 shows refl refl refl
              (omega arith) (omega arith) (omega arith, refl)))
          (λ _ a (uart, grown). rw sub_text (
            Outcome.bind
              (section grown (
                map-mapped H _ 0x80200000 0x80200000 (end_text - 0x80200000) 0b1010 uart refl refl
                  (omega arith) (omega arith) (omega arith) (omega arith, refl)))
              (λ _ b (text, grown). rw sub_data (
                Outcome.bind
                  (section grown (
                    map-mapped H _ end_text end_text (0x84000000 - end_text) 0b0110 text aligned
                      aligned (omega arith) (omega arith) (omega arith) (omega arith, refl)))
                  (λ _ c (ram, grown). section grown (
                    map-mapped H _ 0xffffe000 trampoline_text 0x1000 0b1010 ram refl tramp_aligned
                      refl (omega arith) tramp_fits (omega arith, refl)))))))

  -- What `init` returns.
  pub data Initialised (s : Machine H) : Run (Machine H) ℕ → Type 0 where
    no_root : Exhausted H s → Initialised s panic
    mapped_all :
        {root : ℕ} {f : ℕ → ℕ} {u : Machine H}
        → Shows H root f u
        → KernelView end_text trampoline_text f
        → Keeps H s u
        → Initialised s (done root u)
    no_table :
        {root : ℕ} {f : ℕ → ℕ} {u last : Machine H}
        → Shows H root f u
        → Keeps H s u
        → Shows H root f last
        → Keeps H s last
        → Exhausted H last
        → Initialised s (
            and_then {A = Unit {0}}
              (and_then (PageTable.free H root u) (λ _. err))
              (λ _. done root))

  -- `Kvm::init`, where `etext` and `_trampoline` are page aligned and `etext` lies in RAM: it panics
  -- where there is no page for the root; or it keeps all that was held and returns a well-formed table in which the serial
  -- port's page and all of RAM translate to themselves, the text to read and execute, the rest of RAM
  -- to read and write, the page of the trampoline to `_trampoline`, to read and execute, none of them
  -- for the user, and no other address to anything; or, where no page is left for a table on the
  -- way, it drops the well-formed table that it has so far.
  pub init-KernelView : (s : Machine H) → Initialised s (init H end_text trampoline_text s)
  unfolding init
  init-KernelView s = elim (new-Made H s) [
    | inl (fails, none_left) ↦ rw fails (no_root none_left)
    | inr (root, t, run, made) ↦
        rw run (all_sections root t made (map_sections-Shows root t made.shows))
  ]
    where
      kept : {root : ℕ} {t u : Machine H} → Made H s root t → Spares H root t u → Keeps H s u
      kept {root} made spares = record {
        held = λ a h. spares.held a (made.keeps.held a h);
        mem = λ a h.
            spares.mem a (made.keeps.held a h) (record {
              off_root = held_outside H s root a made.was_free h;
              off_table = λ i h' v. absurd (omega (arith, made.empty i h', v));
            })
            ∙ made.keeps.mem a h;
      }

      all_sections :
          (root : ℕ) (t : Machine H) {r : Run (Machine H) (Unit {0})}
          → Made H s root t
          → Ends (λ _. Grown root t view) (OnTheWay root t) r
          → Initialised s (and_then (dropping H root r) (λ _. done root))
      all_sections root t made (returned (shows, spares)) =
          mapped_all shows view-KernelView (kept made spares)
      all_sections root t made
            (failed (f, last, (shows, spares), (last_shows, last_spares), full)) =
          no_table shows (kept made spares) last_shows (kept made last_spares) full
