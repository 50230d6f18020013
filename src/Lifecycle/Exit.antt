-- ===== src/Lifecycle/Exit.antt =====
-- `kexit`: what it leaves behind.
use rust_baremetal.Prelude.{
  ℕ, zero, suc, ◌≡◌, ◌≢◌, ◌∙◌, refl, ap, arith, Bool, true, false, Option, some, List, [], ◌∷◌, map,
  All, opt_eq, opt_eq_iff, get_elem?, set,
}
use rust_baremetal.Hart.{Hart, after_push}
use rust_baremetal.Hart.Guard.{guarded, guarded-Restored}
use rust_baremetal.Hart.Nesting.{
  IsHart, Restored, Restored-IsHart, Restored-trans, push-IsHart, push_then_pop, interrupt_read-off,
}
use rust_baremetal.Machine.Outcome.{done}
use rust_baremetal.Process.{Process, zombie, ProcState}
use rust_baremetal.Process.Locks.{IsUnlocked, lock_manual_free}
use rust_baremetal.Kernel.{any_child, reparent, wakeup}
use rust_baremetal.Kernel.Wakeup.{woken, wakeup-map, reparented, reparent-map}
use rust_baremetal.Lifecycle.{kexit, exit_block, sched, is_running}

-- The other slots after `p` has ended: its children belong to process 0, and whoever waits for
-- process 0's new children or for `p` is awake.
abbrev pub left_behind : Process → Bool → Process → Process
left_behind p any q = woken p.parent (reparented p.pid any q)

-- The slot of the process itself.
abbrev pub ended : Process → ℕ → Process
ended p xstatus = record p { lock = true; xstatus = xstatus; state = zombie }

abbrev pub after_exit : ℕ → ℕ → Process → List Process → List Process
after_exit self xstatus p t =
    set (map (left_behind p (any_child p.pid t)) t) self
      (ended (left_behind p (any_child p.pid t) p) xstatus)

get_elem?-map :
    (f : Process → Process) (t : List Process) (i : ℕ) {p : Process}
    → get_elem? t i ≡ some p
    → get_elem? (map f t) i ≡ some (f p)
get_elem?-map f [] i e = cc
get_elem?-map f (q ∷ t) zero e = cc
get_elem?-map f (q ∷ t) (suc i) e = get_elem?-map f t i e

map-map : (f g : Process → Process) (t : List Process) → map g (map f t) ≡ map (λ q. g (f q)) t
map-map f g [] = refl
map-map f g (q ∷ t) = ap (λ ps. g (f q) ∷ ps) (map-map f g t)

map-IsUnlocked :
    (f : Process → Process) (t : List Process)
    → ((q : Process) → IsUnlocked q → IsUnlocked (f q))
    → All IsUnlocked t
    → All IsUnlocked (map f t)
map-IsUnlocked f [] keep h = tt
map-IsUnlocked f (q ∷ t) keep h = (keep q h.0, map-IsUnlocked f t keep h.1)

pub All-get :
    (P : Process → Type 0) (t : List Process) (i : ℕ) {p : Process}
    → All P t
    → get_elem? t i ≡ some p
    → P p
All-get P [] i h e = cc
All-get P (q ∷ t) zero {p} h e = let same : p ≡ q = cc in rw same h.0
All-get P (q ∷ t) (suc i) h e = All-get P t i h.1 e

reparented-IsUnlocked :
    (pid : Option ℕ) (any : Bool) (q : Process) → IsUnlocked q → IsUnlocked (reparented pid any q)
reparented-IsUnlocked pid any q h = ground arith

woken-IsUnlocked : (channel : Option ℕ) (q : Process) → IsUnlocked q → IsUnlocked (woken channel q)
woken-IsUnlocked channel q h = ground arith

-- A process is not its own parent.
pub reparented-parent :
    (p : Process) (any : Bool) → p.parent ≢ p.pid → (reparented p.pid any p).parent ≡ p.parent
reparented-parent p any ne = ground (arith, opt_eq_iff p.parent p.pid)

pub sched_ready :
    (current : ProcState) (h g : Hart)
    → IsHart h
    → h.interrupt_off_stack ≡ 0
    → Restored (after_push h) g
    → is_running current ≡ false
    → sched current g ≡ done g.interrupt_prev_state g
unfolding sched
sched_ready current h g w outer back quiet =
    let off = interrupt_read-off h g w back in rw (off.0, quiet) (ground (arith, off))

-- The steps of the block, one after the other.
exit_block_steps :
    (self xstatus : ℕ) (p : Process) (t t2 t3 : List Process) (q2 q3 : Process) (h h1 h2 : Hart)
    → guarded (reparent p.pid t) h ≡ done t2 h1
    → get_elem? t2 self ≡ some q2
    → guarded (wakeup q2.parent t2) h1 ≡ done t3 h2
    → get_elem? t3 self ≡ some q3
    → IsUnlocked q3
    → exit_block self xstatus p t h ≡ done (set t3 self (ended q3 xstatus)) (after_push h2)
unfolding exit_block
exit_block_steps self xstatus p t t2 t3 q2 q3 h h1 h2 first at2 second at3 unlocked =
    rw first (rw at2 (rw second (rw at3 (rw (lock_manual_free q3 h2 unlocked) refl))))

module _ (self xstatus : ℕ) (p : Process) (t : List Process) (at : get_elem? t self ≡ some p)
    (free : All IsUnlocked t) (not_init : p.pid ≢ some 0) (not_own : p.parent ≢ p.pid) where
  abbrev any : Bool
  any = any_child p.pid t

  -- The process is locked at the end, on top of the guard of `kexit`.
  exit_block_lem :
      (h : Hart)
      → IsHart h
      → (g : Hart) × (exit_block self xstatus p t h
          ≡ done (after_exit self xstatus p t) (after_push g))
        × Restored h g
  exit_block_lem h w =
      let t2 = map (reparented p.pid any) t in
      let t3 = map (woken p.parent) t2 in
      let (g1, ran1, back1, _) =
        reparent-map p.pid t (after_push h) free (push-IsHart h w) not_init in
      let (h1, first, same1) = guarded-Restored (reparent p.pid t) h w ran1 back1 in
      let free2 = map-IsUnlocked (reparented p.pid any) t (reparented-IsUnlocked p.pid any) free in
      let free3 = map-IsUnlocked (woken p.parent) t2 (woken-IsUnlocked p.parent) free2 in
      let w1 = Restored-IsHart w same1 in
      let (g2, ran2, back2) = wakeup-map p.parent t2 (after_push h1) free2 (push-IsHart h1 w1) in
      let (h2, second, same2) = guarded-Restored (wakeup p.parent t2) h1 w1 ran2 back2 in
      let at2 = get_elem?-map (reparented p.pid any) t self at in
      let at3 = get_elem?-map (woken p.parent) t2 self at2 in
      let q = left_behind p any p in
      let unlocked = All-get IsUnlocked t3 self free3 at3 in
      (
        h2,
        exit_block_steps self xstatus p t t2 t3 (reparented p.pid any p) q h h1 h2 first at2
              (rw (reparented-parent p any not_own) second) at3 unlocked
            ∙ ap (λ ps. done (set ps self (ended q xstatus)) (after_push h2))
                (map-map (reparented p.pid any) (woken p.parent) t),
        Restored-trans same1 same2,
      )

  -- With no lock held, a process other than process 0 that ends never panics. It is a zombie then
  -- with its status and its lock held, its children belong to process 0, every process that sleeps
  -- on the channel of its parent is runnable, and so are those that sleep on the channel of
  -- process 0 if it had a child; nothing else changes. It goes into the scheduler with interrupts
  -- off and one lock held.
  pub kexit-after_exit :
      (h : Hart)
      → IsHart h
      → h.interrupt_off_stack ≡ 0
      → (g : Hart) × (kexit self xstatus t h ≡ done (after_exit self xstatus p t) g)
        × Restored (after_push h) g
  unfolding kexit
  kexit-after_exit h w outer =
      let other : opt_eq p.pid (some 0) ≡ false = ground (arith, opt_eq_iff p.pid (some 0)) in
      let h1 = after_push h in
      let (g1, ran, back) = exit_block_lem h1 (push-IsHart h w) in
      let (g, popped, same) = push_then_pop g1 (Restored-IsHart (push-IsHart h w) back) in
      let all = Restored-trans back same in
      (g, rw (at, other, ran, popped, sched_ready zombie h g w outer all refl) refl, all)
