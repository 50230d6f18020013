-- ===== src/Hart.antt =====
-- The interrupt state of the hart: `sstatus` as kernel/src/trap.rs reads and writes it, and the
-- nesting counter that `Cpu` of kernel/src/kernel.rs keeps for kernel/src/lock.rs.
pub mod Guard
pub mod Nesting
mod Tests
use rust_baremetal.Prelude.{
  ℕ, ◌+◌, ◌-◌, Bool, true, false, not, ◌&&◌, Option, none, some, bit_and, bit_or, ltb, ◌==◌,
  if◌then◌else◌,
}
use rust_baremetal.Prelude.Word.{word_mod}

-- The supervisor interrupt enable bit of `sstatus`.
abbrev pub sstatus_sie : ℕ
sstatus_sie = 2

-- `sstatus`, and the fields of `Cpu` that the locks use.
pub record Hart : Type 0 where
  pub sstatus : ℕ
  pub interrupt_off_stack : ℕ
  pub interrupt_prev_state : Bool

unfoldable pub interrupt_on : Hart → Hart
interrupt_on h = record h { sstatus = bit_or h.sstatus sstatus_sie }

-- `!SSTATUS_SIE` on 32 bits
unfoldable pub interrupt_off : Hart → Hart
interrupt_off h = record h { sstatus = bit_and h.sstatus (word_mod - 1 - sstatus_sie) }

unfoldable pub interrupt_read : Hart → Bool
interrupt_read h = not (bit_and h.sstatus sstatus_sie == 0)

-- What a push leaves, where the counter has room for it.
pub after_push : Hart → Hart
unfolding interrupt_off interrupt_read
after_push h =
    let old = interrupt_read h in
    let h = interrupt_off h in
    let h = if h.interrupt_off_stack == 0 then record h { interrupt_prev_state = old } else h in
    record h { interrupt_off_stack = h.interrupt_off_stack + 1 }

-- `none` is the overflow of the counter, a `usize`, at which the addition panics.
pub push_interrupt_off : Hart → Option Hart
unfolding after_push
push_interrupt_off h =
    if ltb (h.interrupt_off_stack + 1) word_mod then some (after_push h) else none

-- `none` is the panic on an empty stack.
pub pop_interrupt_off : Hart → Option Hart
unfolding interrupt_on
pop_interrupt_off h =
    if ltb h.interrupt_off_stack 1
    then none
    else (let h = record h { interrupt_off_stack = h.interrupt_off_stack - 1 } in
        some (if (h.interrupt_off_stack == 0) && h.interrupt_prev_state then interrupt_on h else h))
