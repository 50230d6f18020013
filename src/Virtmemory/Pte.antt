-- ===== src/Virtmemory/Pte.antt =====
-- The words of kernel/src/virtmemory.rs: constants, page table entries, `SATP`, and the split of a
-- virtual address.
pub mod Codec
pub mod Words
use rust_baremetal.Prelude.{
  ℕ, zero, suc, ◌+◌, ◌-◌, Bool, true, false, Option, none, some, bit_and, bit_or, leb,
  if◌then◌else◌,
}
use rust_baremetal.Prelude.Word.{◌<<◌, ◌>>◌, bit, word_mod}

abbrev pub page_size : ℕ
page_size = 4096

abbrev pub kernel_start : ℕ
kernel_start = 0x80200000

abbrev pub ram_end : ℕ
ram_end = kernel_start + 65011712

abbrev pub user_start : ℕ
user_start = 0x10000

abbrev pub uart : ℕ
uart = 0x10000000

abbrev pub virt_end : ℕ
virt_end = 0xffffffff - page_size + 1

abbrev pub trampoline : ℕ
trampoline = virt_end - page_size

abbrev pub trapframe : ℕ
trapframe = trampoline - page_size

abbrev pub pte_r : ℕ
pte_r = 0b10

abbrev pub pte_w : ℕ
pte_w = 0b100

abbrev pub pte_x : ℕ
pte_x = 0b1000

abbrev pub pte_u : ℕ
pte_u = 0b10000

pub record Pte : Type 0 where
  pub pa : ℕ
  pub ppn : ℕ
  pub ppn1 : ℕ
  pub ppn0 : ℕ
  pub rsw : ℕ
  pub d : Bool
  pub a : Bool
  pub g : Bool
  pub u : Bool
  pub x : Bool
  pub w : Bool
  pub r : Bool
  pub v : Bool
  pub perm : ℕ

-- `Pte::from`
pub from_word : ℕ → Pte
from_word pte = record {
  pa = bit_and pte 0b11111111111111111111110000000000 << 2;
  ppn = bit_and pte 0b11111111111111111111110000000000 >> 10;
  ppn1 = bit_and pte 0b11111111111100000000000000000000 >> 20;
  ppn0 = bit_and pte 0b00000000000011111111110000000000 >> 10;
  rsw = bit_and pte 0b00000000000000000000001100000000 >> 8;
  d = leb 1 (bit_and pte 0b00000000000000000000000010000000);
  a = leb 1 (bit_and pte 0b00000000000000000000000001000000);
  g = leb 1 (bit_and pte 0b00000000000000000000000000100000);
  u = leb 1 (bit_and pte 0b00000000000000000000000000010000);
  x = leb 1 (bit_and pte 0b00000000000000000000000000001000);
  w = leb 1 (bit_and pte 0b00000000000000000000000000000100);
  r = leb 1 (bit_and pte 0b00000000000000000000000000000010);
  v = leb 1 (bit_and pte 0b00000000000000000000000000000001);
  perm = bit_and pte 0b11110;
}

infixl 55 ◌∣∣◌
abbrev ◌∣∣◌ : ℕ → ℕ → ℕ
x ∣∣ y = bit_or x y

-- `usize::from(Pte)`
pub to_word : Pte → ℕ
to_word val =
    val.ppn << 10
    ∣∣ val.rsw << 8
    ∣∣ bit val.d << 7
    ∣∣ bit val.a << 6
    ∣∣ bit val.g << 5
    ∣∣ bit val.u << 4
    ∣∣ bit val.x << 3
    ∣∣ bit val.w << 2
    ∣∣ bit val.r << 1
    ∣∣ bit val.v

-- `Pte::from_addr`; `!mask` on 32 bits is `0xffffffff - mask`.
pub from_addr : ℕ → Pte
from_addr pa =
    let mask = (1 << 12) - 1 in let pte = bit_and pa (word_mod - 1 - mask) >> 2 in from_word pte

-- The entry that `walk` stores for a new second-level table.
pub table_entry : ℕ → ℕ
table_entry new_page = to_word (record (from_addr new_page) { v = true })

-- The entry that `map` stores for a frame.
pub leaf_entry : ℕ → ℕ → ℕ
leaf_entry paddr perm = bit_or (to_word (record (from_addr paddr) { v = true })) perm

pub record Satp : Type 0 where
  pub mode : ℕ
  pub asid : ℕ
  pub ppn : ℕ

-- `usize::from(SATP)`
pub satp_word : Satp → ℕ
satp_word val =
    let satp : ℕ = 0 in
    let satp = bit_or satp (val.mode << 31) in
    let satp = bit_or satp (val.asid << 22) in bit_or satp val.ppn

pub record Va : Type 0 where
  pub vpn1 : ℕ
  pub vpn0 : ℕ

-- `VA::from`
pub va_from : ℕ → Va
va_from val = record {
  vpn1 = bit_and val 0b11111111110000000000000000000000 >> 22;
  vpn0 = bit_and val 0b00000000001111111111000000000000 >> 12;
}

-- `VA::vpn`
unfoldable pub vpn : Va → ℕ → Option ℕ
vpn va zero = some va.vpn0
vpn va (suc zero) = some va.vpn1
vpn va (suc (suc level)) = none

pub record Pa : Type 0 where
  pub ppn1 : ℕ
  pub ppn0 : ℕ
  pub offset : ℕ

-- `usize::from(PA)`
pub pa_word : Pa → ℕ
pa_word val = let ppn1 = val.ppn1 << 22 in let ppn0 = val.ppn0 << 12 in ppn1 ∣∣ ppn0 ∣∣ val.offset
