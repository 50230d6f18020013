-- ===== src/Kernel/Wakeup.antt =====
-- `wakeup` and `reparent`: who becomes runnable, and who is whose parent.
use rust_baremetal.Prelude.{
  ℕ, ◌≡◌, ◌≢◌, ◌∙◌, inl, inr, refl, ap, arith, Bool, true, false, ◌&&◌, Option, some, List, [], ◌∷◌,
  map, All, Bool-cases, opt_eq, opt_eq_iff, if◌then◌else◌,
}
use mathlib.Core.Path.{ap₂}
use rust_baremetal.Hart.{Hart}
use rust_baremetal.Hart.Nesting.{IsHart, Restored, Restored-IsHart, Restored-trans, push_then_pop}
use rust_baremetal.Machine.Outcome.{done}
use rust_baremetal.Process.{Process, runnable, is_sleeping}
use rust_baremetal.Process.Locks.{IsUnlocked, lock_manual_free, unlock_manual_held}
use rust_baremetal.Kernel.{wakeup_one, wakeup, adopt, any_child, reparent}

-- A process that sleeps on the channel is made runnable, any other is left alone.
abbrev pub woken : Option ℕ → Process → Process
woken channel p =
    if is_sleeping p.state && opt_eq p.sleep_channel channel
    then record p { state = runnable }
    else p

woken_unlocked :
    (channel : Option ℕ) (p : Process)
    → IsUnlocked p
    → record (woken channel (record p { lock = true })) { lock = false } ≡ woken channel p
woken_unlocked channel p e = ground arith

wakeup_one_lem :
    (channel : Option ℕ) (p : Process) (h : Hart)
    → IsUnlocked p
    → IsHart h
    → (h' : Hart) × (wakeup_one channel p h ≡ done (woken channel p) h') × Restored h h'
unfolding wakeup_one
wakeup_one_lem channel p h free w =
    let (h', popped, same) = push_then_pop h w in
    (
      h',
      rw (lock_manual_free p h free, unlock_manual_held _ _ popped)
          (ap (λ q. done q h') (woken_unlocked channel p free)),
      same,
    )

-- With no lock held, `wakeup` never waits: exactly the processes that sleep on the channel become
-- runnable, every lock is free again, and the interrupt state is as before.
pub wakeup-map :
    (channel : Option ℕ) (ps : List Process) (h : Hart)
    → All IsUnlocked ps
    → IsHart h
    → (h' : Hart) × (wakeup channel ps h ≡ done (map (woken channel) ps) h') × Restored h h'
unfolding wakeup
wakeup-map channel [] h free w = (h, refl, record { depth = refl; word = refl; prev = λ _. refl })
wakeup-map channel (p ∷ ps) h free w =
    let (g, first, same) = wakeup_one_lem channel p h free.0 w in
    let (h', others, again) = wakeup-map channel ps g free.1 (Restored-IsHart w same) in
    (h', rw (first, others) refl, Restored-trans same again)

-- A parent's id after `reparent pid`.
abbrev pub new_parent : Option ℕ → Option ℕ → Option ℕ
new_parent pid parent = if opt_eq parent pid then some 0 else parent

abbrev pub adopted : Option ℕ → Process → Process
adopted pid p = record p { parent = new_parent pid p.parent }

-- What `reparent` makes of a process, given whether `pid` had a child.
abbrev pub reparented : Option ℕ → Bool → Process → Process
reparented pid any p = if any then woken (some 0) (adopted pid p) else adopted pid p

adopt-map : (pid : Option ℕ) (ps : List Process) → adopt pid ps ≡ map (adopted pid) ps
unfolding adopt
adopt-map pid [] = refl
adopt-map pid (p ∷ ps) =
    ap₂ ◌∷◌
      (let e : (if opt_eq p.parent pid then record p { parent = some 0 } else p) ≡ adopted pid p =
          ground arith in
        e)
      (adopt-map pid ps)

adopt-IsUnlocked :
    (pid : Option ℕ) (ps : List Process) → All IsUnlocked ps → All IsUnlocked (adopt pid ps)
unfolding adopt
adopt-IsUnlocked pid [] h = tt
adopt-IsUnlocked pid (p ∷ ps) h = (ground (arith, h.0), adopt-IsUnlocked pid ps h.1)

map-map :
    {A B C : Type 0} (f : A → B) (g : B → C) (xs : List A)
    → map g (map f xs) ≡ map (λ x. g (f x)) xs
map-map f g [] = refl
map-map f g (x ∷ xs) = ap (λ ys. g (f x) ∷ ys) (map-map f g xs)

-- No process that went through `reparent` has the old parent.
no_child :
    (pid : Option ℕ) (any : Bool) (ps : List Process)
    → pid ≢ some 0
    → All (λ p. p.parent ≢ pid) (map (reparented pid any) ps)
no_child pid any [] ne = tt
no_child pid any (p ∷ ps) ne = (ground (arith, opt_eq_iff p.parent pid), no_child pid any ps ne)

-- With no lock held, `reparent pid` returns. Exactly the children of `pid` become children of
-- process 0, and if there was one, the processes that sleep on the channel of process 0 become
-- runnable; nothing else changes. No process has the parent `pid` afterwards, unless `pid` is 0.
pub reparent-map :
    (pid : Option ℕ) (ps : List Process) (h : Hart)
    → All IsUnlocked ps
    → IsHart h
    → pid ≢ some 0
    → (h' : Hart) × (reparent pid ps h ≡ done (map (reparented pid (any_child pid ps)) ps) h')
      × Restored h h'
      × All (λ p. p.parent ≢ pid) (map (reparented pid (any_child pid ps)) ps)
unfolding reparent
reparent-map pid ps h free w ne = elim (Bool-cases (any_child pid ps)) [
  | inl any ↦
      let (h', ran, same) = wakeup-map (some 0) (adopt pid ps) h (adopt-IsUnlocked pid ps free) w in
      (
        h',
        rw any (
            ran
            ∙ ap (λ qs. done qs h')
                (ap (map (woken (some 0))) (adopt-map pid ps)
                  ∙ map-map (adopted pid) (woken (some 0)) ps)),
        same,
        no_child pid (any_child pid ps) ps ne,
      )
  | inr none_found ↦ (
    h,
    rw none_found (ap (λ qs. done qs h) (adopt-map pid ps)),
    record { depth = refl; word = refl; prev = λ _. refl },
    no_child pid (any_child pid ps) ps ne,
  )
]
