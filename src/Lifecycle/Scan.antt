-- ===== src/Lifecycle/Scan.antt =====
-- The scan of `kwait` over the table.
use mathlib.Core.Bool.{false≢true}
use rust_baremetal.Prelude.{
  ℕ, suc, ◌≡◌, ◌∙◌, inl, inr, refl, sym, Bool, true, false, Option, none, some, List, [], ◌∷◌, All,
  opt_eq, opt_eq_iff, get_elem?, set, Bool-cases,
}
use rust_baremetal.Hart.{Hart, after_push}
use rust_baremetal.Hart.Nesting.{
  IsHart, Restored, Restored-IsHart, Restored-refl, Restored-trans, push_then_pop,
}
use rust_baremetal.Machine.Outcome.{Run, done, panic, and_then}
use rust_baremetal.Process.{Process, Uvm, free, is_zombie}
use rust_baremetal.Process.Blank.{given_back}
use rust_baremetal.Process.Locks.{IsUnlocked, lock_manual_free, unlock_manual_held}
use rust_baremetal.Kernel.{any_child}
use rust_baremetal.Lifecycle.{Kids, scan_kids}

-- The process is no zombie child of `pid`.
abbrev pub Alive : Option ℕ → Process → Type 0
Alive pid q = q.parent ≡ pid → is_zombie q.state ≡ false

-- What the scan returns.
pub data Scanned (fresh : Option Uvm) (pid : Option ℕ) (t : List Process) (h : Hart)
    : Run Hart (Kids × List Process) → Type 0 where
  all_alive :
      {any : Bool} {h' : Hart}
      → any ≡ any_child pid t
      → All (Alive pid) t
      → Restored h h'
      → Scanned fresh pid t h
          (done (record { has_kids = any; zombie_pid = none; zombie_xstatus = 0 }, t) h')
  one_dead :
      (i : ℕ) {q : Process} {uvm : Uvm} {h' : Hart}
      → get_elem? t i ≡ some q
      → q.parent ≡ pid
      → is_zombie q.state ≡ true
      → fresh ≡ some uvm
      → Restored h h'
      → Scanned fresh pid t h (
          done
            (
              record { has_kids = true; zombie_pid = q.pid; zombie_xstatus = q.xstatus },
              set t i (given_back q uvm),
            )
            h')
  no_memory :
      (i : ℕ) {q : Process}
      → get_elem? t i ≡ some q
      → q.parent ≡ pid
      → is_zombie q.state ≡ true
      → fresh ≡ none
      → Scanned fresh pid t h panic

-- A process that is no child is passed over.
Scanned-other :
    {fresh : Option Uvm} {pid : Option ℕ} {p : Process} {t : List Process} {h : Hart}
    {r : Run Hart (Kids × List Process)}
    → opt_eq p.parent pid ≡ false
    → Scanned fresh pid t h r
    → Scanned fresh pid (p ∷ t) h (and_then r (λ found g. done (found.0, p ∷ found.1) g))
unfolding any_child
Scanned-other {pid} {p} other (all_alive any all back) =
    all_alive (rw other any)
      ((λ e. absurd (false≢true (sym other ∙ (opt_eq_iff p.parent pid).1 e))), all) back
Scanned-other other (one_dead i at parent dead made back) =
    one_dead (suc i) at parent dead made back
Scanned-other other (no_memory i at parent dead fails) = no_memory (suc i) at parent dead fails

-- Nor does a living child end the scan.
Scanned-alive :
    {fresh : Option Uvm} {pid : Option ℕ} {p : Process} {t : List Process} {h g : Hart}
    {r : Run Hart (Kids × List Process)}
    → opt_eq p.parent pid ≡ true
    → is_zombie p.state ≡ false
    → Restored h g
    → Scanned fresh pid t g r
    → Scanned fresh pid
        (p ∷ t)
        h
        (and_then r (λ found g. done (record found.0 { has_kids = true }, p ∷ found.1) g))
unfolding any_child
Scanned-alive child alive same (all_alive any all back) =
    all_alive (rw child refl) ((λ e. alive), all) (Restored-trans same back)
Scanned-alive child alive same (one_dead i at parent dead made back) =
    one_dead (suc i) at parent dead made (Restored-trans same back)
Scanned-alive child alive same (no_memory i at parent dead fails) =
    no_memory (suc i) at parent dead fails

-- `free` of a slot.
free_lem : (p : Process) (uvm : Uvm) (h : Hart) → free (some uvm) p h ≡ done (given_back p uvm) h
unfolding free
free_lem p uvm h = refl

free-none : (p : Process) (h : Hart) → free none p h ≡ panic
unfolding free
free-none p h = refl

freed_unlocked :
    (p : Process) (uvm : Uvm)
    → IsUnlocked p
    → record (given_back (record p { lock = true }) uvm) { lock = false } ≡ given_back p uvm
freed_unlocked p uvm unlocked = rw unlocked refl

-- A zombie child is found.
reap_lem :
    (fresh : Option Uvm) (pid : Option ℕ) (p : Process) (t : List Process) (h : Hart)
    → opt_eq p.parent pid ≡ true
    → is_zombie p.state ≡ true
    → IsUnlocked p
    → IsHart h
    → Scanned fresh pid (p ∷ t) h (scan_kids fresh pid (p ∷ t) h)
unfolding scan_kids
reap_lem none pid p t h child dead unlocked w =
    rw (child, lock_manual_free p h unlocked)
      (rw dead (
        rw (free-none (record p { lock = true }) (after_push h))
          (no_memory 0 refl ((opt_eq_iff p.parent pid).0 child) dead refl)))
reap_lem (some uvm) pid p t h child dead unlocked w =
    let (g, popped, same) = push_then_pop h w in
    rw (child, lock_manual_free p h unlocked)
      (rw dead (
        rw (free_lem (record p { lock = true }) uvm (after_push h)) (
          rw (unlock_manual_held (given_back (record p { lock = true }) uvm) _ popped) (
            rw (freed_unlocked p uvm unlocked)
              (one_dead 0 refl ((opt_eq_iff p.parent pid).0 child) dead refl same)))))

relocked : (p : Process) → IsUnlocked p → record p { lock = false } ≡ p
relocked p unlocked = rw (sym unlocked) refl

pub scan_kids-Scanned :
    (fresh : Option Uvm) (pid : Option ℕ) (t : List Process) (h : Hart)
    → All IsUnlocked t
    → IsHart h
    → Scanned fresh pid t h (scan_kids fresh pid t h)
unfolding scan_kids any_child
scan_kids-Scanned fresh pid [] h unlocked w = all_alive refl tt (Restored-refl h)
scan_kids-Scanned fresh pid (p ∷ t) h unlocked w = elim (Bool-cases (opt_eq p.parent pid)) [
  | inl child ↦ elim (Bool-cases (is_zombie p.state)) [
    | inl dead ↦ reap_lem fresh pid p t h child dead unlocked.0 w
    | inr alive ↦
        let (g, popped, same) = push_then_pop h w in
        rw (child, lock_manual_free p h unlocked.0)
          (rw alive (
            rw (unlock_manual_held (record p { lock = true }) _ popped) (
              rw (relocked p unlocked.0) (
                Scanned-alive child alive same
                  (scan_kids-Scanned fresh pid t g unlocked.1 (Restored-IsHart w same))))))
  ]
  | inr other ↦ rw other (Scanned-other other (scan_kids-Scanned fresh pid t h unlocked.1 w))
]
