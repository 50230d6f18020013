-- ===== src/Process/Blank.antt =====
-- What a slot without a process looks like, spelled out.
use rust_baremetal.Prelude.{ap, arith, ℕ, ◌+◌, ◌-◌, ◌*◌, ◌≡◌, false, none}
use rust_baremetal.Process.{Process, Context, Trapframe, Uvm, unused, new, kstack}

abbrev pub no_context : Context
no_context = record {
  ra = 0;
  sp = 0;
  s0 = 0;
  s1 = 0;
  s2 = 0;
  s3 = 0;
  s4 = 0;
  s5 = 0;
  s6 = 0;
  s7 = 0;
  s8 = 0;
  s9 = 0;
  s10 = 0;
  s11 = 0;
}

abbrev pub no_trapframe : Trapframe
no_trapframe = record {
  kernel_satp = 0;
  kernel_sp = 0;
  trap_handler = 0;
  epc = 0;
  hartid = 0;
  ra = 0;
  sp = 0;
  gp = 0;
  tp = 0;
  t0 = 0;
  t1 = 0;
  t2 = 0;
  s0 = 0;
  s1 = 0;
  a0 = 0;
  a1 = 0;
  a2 = 0;
  a3 = 0;
  a4 = 0;
  a5 = 0;
  a6 = 0;
  a7 = 0;
  s2 = 0;
  s3 = 0;
  s4 = 0;
  s5 = 0;
  s6 = 0;
  s7 = 0;
  s8 = 0;
  s9 = 0;
  s10 = 0;
  s11 = 0;
  t3 = 0;
  t4 = 0;
  t5 = 0;
  t6 = 0;
}

-- Where the stack of slot `n` begins: two pages, and a guard page below, down from the trampoline.
abbrev pub stack_of : ℕ → ℕ
stack_of n = 0xffffe000 - (n + 1) * 12288 + 4096

-- The slot `n`, unused.
abbrev pub blank : ℕ → Uvm → Process
blank n uvm = record {
  id = n;
  pid = none;
  state = unused;
  stack = stack_of n;
  parent = none;
  pagetable = uvm;
  context = no_context;
  xstatus = 0;
  sleep_channel = none;
  trapframe = no_trapframe;
  lock = false;
  quants = 0;
}

pub kstack_lem : (n : ℕ) → kstack n ≡ stack_of n
unfolding kstack
kstack_lem n = omega arith

pub new-blank : (n : ℕ) (uvm : Uvm) → new n uvm ≡ blank n uvm
unfolding new kstack
new-blank n uvm = ap (λ x. record (blank n uvm) { stack = x }) (kstack_lem n)

-- A slot that was given back: its index, its kernel stack, its lock and its count of quants stay.
abbrev pub given_back : Process → Uvm → Process
given_back p uvm = record (blank p.id uvm) { stack = p.stack; lock = p.lock; quants = p.quants }
