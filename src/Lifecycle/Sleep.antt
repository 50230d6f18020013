-- ===== src/Lifecycle/Sleep.antt =====
-- `yeld` and `sleep` of kernel/src/process.rs, up to the context switch and behind it.
use rust_baremetal.Prelude.{ℕ, ◌≡◌, refl, true, false, Option, none}
use rust_baremetal.Hart.{Hart, after_push}
use rust_baremetal.Hart.Nesting.{IsHart, Restored, Restored-refl, pop-push}
use rust_baremetal.Machine.Outcome.{M, done, pure, ◌>>=◌}
use rust_baremetal.Process.{Process, runnable, sleeping, lock_manual, unlock_manual}
use rust_baremetal.Process.Locks.{IsUnlocked, lock_manual_free, unlock_manual_held}
use rust_baremetal.Lifecycle.{sched}
use rust_baremetal.Lifecycle.Exit.{sched_ready}

pub yeld : Process → M Hart Process
yeld p = do p ← lock_manual p; let p = record p { state = runnable }; _ ← sched p.state; pure p

pub yeld_back : Process → M Hart Process
yeld_back p = unlock_manual p

pub sleep : (channel : Option ℕ) → Process → M Hart Process
sleep channel p = do
  p ← lock_manual p
  let p = record p { sleep_channel = channel; state = sleeping }
  _ ← sched p.state
  pure p

pub sleep_back : Process → M Hart Process
sleep_back p = unlock_manual (record p { sleep_channel = none })

module _ (p : Process) (h : Hart) (free : IsUnlocked p) (w : IsHart h)
    (outer : h.interrupt_off_stack ≡ 0) where
  -- With no lock held, `yeld` goes into the scheduler with its own lock alone, and runnable.
  pub yeld-sched : yeld p h ≡ done (record p { lock = true; state = runnable }) (after_push h)
  unfolding yeld
  yeld-sched =
      rw
        (
          lock_manual_free p h free,
          sched_ready runnable h (after_push h) w outer (Restored-refl (after_push h)) refl,
        )
        refl

  -- `sleep` does so asleep on its channel.
  pub sleep-sched :
      (channel : Option ℕ)
      → sleep channel p h
        ≡ done (record p { lock = true; state = sleeping; sleep_channel = channel }) (after_push h)
  unfolding sleep
  sleep-sched channel =
      rw
        (
          lock_manual_free p h free,
          sched_ready sleeping h (after_push h) w outer (Restored-refl (after_push h)) refl,
        )
        refl

-- Behind the switch, on a hart as it was left, the lock is released, the interrupt state is that of
-- the call again, and a process that slept waits on no channel.
module _ (p : Process) (h g : Hart) (w : IsHart h) (back : Restored (after_push h) g) where
  pub yeld_back-unlocked :
      (h' : Hart) × (yeld_back p g ≡ done (record p { lock = false }) h') × Restored h h'
  unfolding yeld_back
  yeld_back-unlocked =
      let (h', popped, same) = pop-push h g w back in (h', unlock_manual_held p g popped, same)

  pub sleep_back-unlocked :
      (h' : Hart) × (sleep_back p g ≡ done (record p { lock = false; sleep_channel = none }) h')
      × Restored h h'
  unfolding sleep_back
  sleep_back-unlocked =
      let (h', popped, same) = pop-push h g w back in
      (h', unlock_manual_held (record p { sleep_channel = none }) g popped, same)
