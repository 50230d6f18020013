-- ===== src/Trap/User/Return.antt =====
-- The way back to a program, and what the next trap finds.
use rust_baremetal.Prelude.{
  ℕ, ◌+◌, ◌-◌, ◌*◌, ◌/◌, ◌%◌, ◌≤◌, ◌<◌, ◌≡◌, ◌∙◌, refl, arith, true, false, bit_and, bit_or, ltb,
}
use rust_baremetal.Prelude.Word.{word_mod}
use rust_baremetal.Prelude.Bits.{bit_and_mask, bit_and-half, bit_or-half, bit_or-zero}
use rust_baremetal.Hart.{interrupt_off}
use rust_baremetal.Hart.Nesting.{sie_clear}
use rust_baremetal.Machine.Outcome.{done}
use rust_baremetal.Virtmemory.Pte.{trampoline}
use rust_baremetal.Process.{Process}
use rust_baremetal.Trap.User.{Traps, Symbols, prepare_return}

spie_set : (s : ℕ) → bit_or s 32 ≡ s / 64 * 64 + 32 + s % 32
spie_set s = omega (
  arith,
  bit_or-half s 32,
  bit_or-half (s / 2) 16,
  bit_or-half (s / 2 / 2) 8,
  bit_or-half (s / 2 / 2 / 2) 4,
  bit_or-half (s / 2 / 2 / 2 / 2) 2,
  bit_or-half (s / 2 / 2 / 2 / 2 / 2) 1,
  bit_or-zero (s / 2 / 2 / 2 / 2 / 2 / 2),
)

-- The lowest digit of a mask that ends in one.
half_one : (x m : ℕ) → bit_and x (m * 2 + 1) ≡ bit_and (x / 2) m * 2 + x % 2
half_one x m =
    let half : (m * 2 + 1) / 2 ≡ m = omega arith in
    let last : (m * 2 + 1) % 2 ≡ 1 = omega arith in
    bit_and-half x (m * 2 + 1) ∙ rw (half, last) (ground arith)

spp_clear : (s : ℕ) → s < word_mod → bit_and s 4294967039 ≡ s / 512 * 512 + s % 256
spp_clear s h = omega (
  arith,
  half_one (s) 2147483519,
  half_one (s / 2) 1073741759,
  half_one (s / 2 / 2) 536870879,
  half_one (s / 2 / 2 / 2) 268435439,
  half_one (s / 2 / 2 / 2 / 2) 134217719,
  half_one (s / 2 / 2 / 2 / 2 / 2) 67108859,
  half_one (s / 2 / 2 / 2 / 2 / 2 / 2) 33554429,
  half_one (s / 2 / 2 / 2 / 2 / 2 / 2 / 2) 16777214,
  bit_and-half (s / 2 / 2 / 2 / 2 / 2 / 2 / 2 / 2) 16777214,
  bit_and_mask 23 (s / 2 / 2 / 2 / 2 / 2 / 2 / 2 / 2 / 2),
)

-- The trapframe of a process that returns to its program: the words that the next trap needs.
abbrev pub prepared : Symbols → ℕ → Process → Process
prepared symbols satp p = record p {
  trapframe = record p.trapframe {
    kernel_satp = satp;
    kernel_sp = p.stack + 8192;
    trap_handler = symbols.usertrap_addr;
    hartid = 0;
  };
}

-- The registers from which `sret` goes to the program at `epc`.
pub record Leaving (symbols : Symbols) (epc : ℕ) (t u : Traps) : Type 0 where
  pub interrupts_off : u.hart.sstatus / 2 % 2 ≡ 0
  pub interrupts_after : u.hart.sstatus / 32 % 2 ≡ 1
  pub user_mode : u.hart.sstatus / 256 % 2 ≡ 0
  pub depth : u.hart.interrupt_off_stack ≡ t.hart.interrupt_off_stack
  pub vector : u.stvec ≡ trampoline + (symbols.uservec_addr - symbols.trampoline_text)
  pub sepc : u.sepc ≡ epc
  pub satp : u.satp ≡ t.satp
  pub timer : u.stimecmp ≡ t.stimecmp

-- The linker's addresses fit the trampoline's page.
pub record IsLinked (symbols : Symbols) : Type 0 where
  pub above : symbols.trampoline_text ≤ symbols.uservec_addr
  pub inside : symbols.uservec_addr < symbols.trampoline_text + 4096

-- `prepare_return` never panics on a kernel stack below the top: the process differs in the four
-- words of the kernel in its trapframe, and the hart is set to leave for the program's `epc` in user
-- mode, with interrupts off until then and the trap vector in the trampoline.
pub prepare_return-Leaving :
    (symbols : Symbols) (p : Process) (t : Traps)
    → IsLinked symbols
    → p.stack + 8192 < word_mod
    → t.hart.sstatus < word_mod
    → (u : Traps) × (prepare_return symbols p t ≡ done (prepared symbols t.satp p) u)
      × Leaving symbols p.trapframe.epc t u
unfolding prepare_return interrupt_off
prepare_return-Leaving symbols p t linked stack word =
    let no_borrow : ltb symbols.uservec_addr symbols.trampoline_text ≡ false =
      ground (arith, linked.above) in
    let vec : ltb (trampoline + (symbols.uservec_addr - symbols.trampoline_text)) word_mod ≡ true =
      ground (arith, linked.above, linked.inside) in
    let fits : ltb (p.stack + 8192) word_mod ≡ true = ground arith in
    let s = t.hart.sstatus in
    let s1 = bit_and s 4294967293 in
    let s2 = bit_and s1 4294967039 in
    let e1 = sie_clear s word in
    let e2 = spp_clear s1 (omega (arith, e1)) in
    let e3 = spie_set s2 in
    (
      record t {
        hart = record t.hart { sstatus = bit_or s2 32 };
        stvec = trampoline + (symbols.uservec_addr - symbols.trampoline_text);
        sepc = p.trapframe.epc;
      },
      rw (no_borrow, vec, fits) refl,
      record {
        interrupts_off = omega (arith, e1, e2, e3);
        interrupts_after = omega (arith, e1, e2, e3);
        user_mode = omega (arith, e1, e2, e3);
        depth = refl;
        vector = refl;
        sepc = refl;
        satp = refl;
        timer = refl;
      },
    )
