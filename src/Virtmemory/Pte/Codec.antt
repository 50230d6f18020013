-- ===== src/Virtmemory/Pte/Codec.antt =====
-- What the fields of an entry, of a virtual address and of `satp` are, as arithmetic.
use rust_baremetal.Prelude.{
  ℕ, ◌≤◌, ◌+◌, ◌*◌, ◌/◌, ◌%◌, ◌^◌, ◌<◌, ◌≡◌, ap, arith, Bool, true, false, bit_and, leb,
}
use rust_baremetal.Prelude.Word.{bit, bit_le, word_mod, ◌<<◌}
use rust_baremetal.Prelude.Bits.{bit_and_field, bit_or_add, bit_or_above_one}
use rust_baremetal.Virtmemory.Pte.{
  Pte, from_word, to_word, from_addr, table_entry, va_from, leaf_entry, ◌∣∣◌,
}
use native.Mathlib.Nat.{one-le-pow}

-- Bit `k` of a word.
abbrev pub bit_at : ℕ → ℕ → Bool
bit_at k x = leb 1 (x / 2 ^ k % 2)

flag : (k x : ℕ) → leb 1 (bit_and x (1 * 2 ^ k)) ≡ bit_at k x
flag k x = ground (arith, bit_and_field 1 k x, one-le-pow k 2)

-- Every field of a decoded entry.
pub record IsDecoded (n : ℕ) (p : Pte) : Type 0 where
  pub pa : p.pa ≡ n / 1024 * 4096 % word_mod
  pub ppn : p.ppn ≡ n / 1024
  pub ppn1 : p.ppn1 ≡ n / 2 ^ 20
  pub ppn0 : p.ppn0 ≡ n / 1024 % 1024
  pub rsw : p.rsw ≡ n / 256 % 4
  pub d : p.d ≡ bit_at 7 n
  pub a : p.a ≡ bit_at 6 n
  pub g : p.g ≡ bit_at 5 n
  pub u : p.u ≡ bit_at 4 n
  pub x : p.x ≡ bit_at 3 n
  pub w : p.w ≡ bit_at 2 n
  pub r : p.r ≡ bit_at 1 n
  pub v : p.v ≡ bit_at 0 n
  pub perm : p.perm ≡ n / 2 % 16 * 2

pub from_word-IsDecoded : (x : ℕ) → x < word_mod → IsDecoded x (from_word x)
unfolding from_word
from_word-IsDecoded n h = record {
  pa = omega (arith, bit_and_field 22 10 n);
  ppn = omega (arith, bit_and_field 22 10 n);
  ppn1 = omega (arith, bit_and_field 12 20 n);
  ppn0 = omega (arith, bit_and_field 10 10 n);
  rsw = omega (arith, bit_and_field 2 8 n);
  d = flag 7 n;
  a = flag 6 n;
  g = flag 5 n;
  u = flag 4 n;
  x = flag 3 n;
  w = flag 2 n;
  r = flag 1 n;
  v = flag 0 n;
  perm = omega (arith, bit_and_field 4 1 n);
}

-- The chain of `|` over fields that do not overlap is a sum.
or_chain :
    (p s d a g u x w r v : ℕ)
    → p % 2 ^ 10 ≡ 0
    → s ≤ 3
    → d ≤ 1
    → a ≤ 1
    → g ≤ 1
    → u ≤ 1
    → x ≤ 1
    → w ≤ 1
    → r ≤ 1
    → v ≤ 1
    → p ∣∣ s << 8 ∣∣ d << 7 ∣∣ a << 6 ∣∣ g << 5 ∣∣ u << 4 ∣∣ x << 3 ∣∣ w << 2 ∣∣ r << 1 ∣∣ v
      ≡ p + s * 256 + d * 128 + a * 64 + g * 32 + u * 16 + x * 8 + w * 4 + r * 2 + v
or_chain p s d a g u x w r v hp hs hd ha hg hu hx hw hr hv =
    let s1 = p + (s << 8) in
    let s2 = s1 + (d << 7) in
    let s3 = s2 + (a << 6) in
    let s4 = s3 + (g << 5) in
    let s5 = s4 + (u << 4) in
    let s6 = s5 + (x << 3) in
    let s7 = s6 + (w << 2) in
    let s8 = s7 + (r << 1) in
    rw
      (
        bit_or_add 10 p (s << 8) hp (omega arith),
        bit_or_add 8 s1 (d << 7) (omega arith) (omega arith),
        bit_or_add 7 s2 (a << 6) (omega arith) (omega arith),
        bit_or_add 6 s3 (g << 5) (omega arith) (omega arith),
        bit_or_add 5 s4 (u << 4) (omega arith) (omega arith),
        bit_or_add 4 s5 (x << 3) (omega arith) (omega arith),
        bit_or_add 3 s6 (w << 2) (omega arith) (omega arith),
        bit_or_add 2 s7 (r << 1) (omega arith) (omega arith),
        bit_or_add 1 s8 v (omega arith) (omega arith),
      )
      (omega arith)

pub to_word_sum :
    (p : Pte)
    → p.rsw < 4
    → to_word p
      ≡ p.ppn % 2 ^ 22 * 1024
        + p.rsw * 256
        + bit p.d * 128
        + bit p.a * 64
        + bit p.g * 32
        + bit p.u * 16
        + bit p.x * 8
        + bit p.w * 4
        + bit p.r * 2
        + bit p.v
unfolding to_word
to_word_sum p h =
    rw
      (or_chain (p.ppn << 10) p.rsw (bit p.d) (bit p.a) (bit p.g) (bit p.u) (bit p.x) (bit p.w)
        (bit p.r) (bit p.v) (omega arith) (omega arith) (bit_le _) (bit_le _) (bit_le _) (bit_le _)
        (bit_le _) (bit_le _) (bit_le _) (bit_le _))
      (omega arith)

bit_of_bit_at : (k x : ℕ) → bit (bit_at k x) ≡ x / 2 ^ k % 2
bit_of_bit_at k x = ground arith

-- Decoding a 32-bit entry and encoding it again gives the entry back.
pub to_word-from_word : (n : ℕ) → n < word_mod → to_word (from_word n) ≡ n
to_word-from_word n h =
    let decoded = from_word-IsDecoded n h in
    rw (to_word_sum (from_word n) (omega (arith, decoded.rsw))) (
      rw
        (
          decoded.ppn, decoded.rsw, decoded.d, decoded.a, decoded.g, decoded.u, decoded.x,
          decoded.w, decoded.r, decoded.v,
        )
        (omega (
          arith,
          bit_of_bit_at 7 n,
          bit_of_bit_at 6 n,
          bit_of_bit_at 5 n,
          bit_of_bit_at 4 n,
          bit_of_bit_at 3 n,
          bit_of_bit_at 2 n,
          bit_of_bit_at 1 n,
          bit_of_bit_at 0 n,
        )))

from_addr_lem : (pa : ℕ) → pa < word_mod → from_addr pa ≡ from_word (pa / 4096 * 1024)
unfolding from_addr
from_addr_lem pa h = ap from_word (omega (arith, bit_and_field 20 12 pa))

-- The page's frame number above ten flags, of which `v` alone is set.
from_addr_sum :
    (pa : ℕ) → pa < word_mod → to_word (record (from_addr pa) { v = true }) ≡ pa / 4096 * 1024 + 1
from_addr_sum pa h =
    let n = pa / 4096 * 1024 in
    let decoded = from_word-IsDecoded n (omega arith) in
    rw
      (
        from_addr_lem pa h,
        to_word_sum (record (from_word n) { v = true }) (omega (arith, decoded.rsw)),
      )
      (rw
        (
          decoded.ppn, decoded.rsw, decoded.d, decoded.a, decoded.g, decoded.u, decoded.x,
          decoded.w, decoded.r,
        )
        (omega (
          arith,
          bit_of_bit_at 7 n,
          bit_of_bit_at 6 n,
          bit_of_bit_at 5 n,
          bit_of_bit_at 4 n,
          bit_of_bit_at 3 n,
          bit_of_bit_at 2 n,
          bit_of_bit_at 1 n,
        )))

pub table_entry_sum : (page : ℕ) → page < word_mod → table_entry page ≡ page / 4096 * 1024 + 1
unfolding table_entry
table_entry_sum page h = from_addr_sum page h

-- The permissions that `map` is given: the bits 1 to 4.
abbrev pub IsPerm : ℕ → Type 0
IsPerm perm = (perm < 32) × (perm % 2 ≡ 0)

pub leaf_entry_sum :
    (paddr perm : ℕ)
    → paddr < word_mod
    → IsPerm perm
    → leaf_entry paddr perm ≡ paddr / 4096 * 1024 + 1 + perm
unfolding leaf_entry
leaf_entry_sum paddr perm h p =
    rw (from_addr_sum paddr h)
      (bit_or_above_one 9 (paddr / 4096 * 1024 + 1) perm (omega arith) (omega arith) (omega arith))

-- A decoded table entry is valid, no leaf, and points at the page that it was made from.
pub record IsTable (p : Pte) (page : ℕ) : Type 0 where
  pub v : p.v ≡ true
  pub r : p.r ≡ false
  pub w : p.w ≡ false
  pub x : p.x ≡ false
  pub ppn : p.ppn ≡ page / 4096

pub table_entry-IsTable : (page : ℕ) → page < word_mod → IsTable (from_word (table_entry page)) page
table_entry-IsTable page h =
    let n = page / 4096 * 1024 + 1 in
    let decoded = from_word-IsDecoded n (omega arith) in
    rw (table_entry_sum page h) (record {
      v = ground (arith, decoded);
      r = ground (arith, decoded);
      w = ground (arith, decoded);
      x = ground (arith, decoded);
      ppn = omega (arith, decoded.ppn);
    })

-- A decoded leaf has the frame and the permissions that `map` was given, and no other flag.
pub record IsLeaf (p : Pte) (paddr perms : ℕ) : Type 0 where
  pub v : p.v ≡ true
  pub r : p.r ≡ bit_at 1 perms
  pub w : p.w ≡ bit_at 2 perms
  pub x : p.x ≡ bit_at 3 perms
  pub u : p.u ≡ bit_at 4 perms
  pub ppn : p.ppn ≡ paddr / 4096
  pub pa : p.pa ≡ paddr / 4096 * 4096
  pub perm : p.perm ≡ perms

pub leaf_entry-IsLeaf :
    (paddr perms : ℕ)
    → paddr < word_mod
    → IsPerm perms
    → IsLeaf (from_word (leaf_entry paddr perms)) paddr perms
leaf_entry-IsLeaf paddr perms h p =
    let n = paddr / 4096 * 1024 + 1 + perms in
    let decoded = from_word-IsDecoded n (omega arith) in
    rw (leaf_entry_sum paddr perms h p) (record {
      v = ground (arith, decoded);
      r = ground (arith, decoded);
      w = ground (arith, decoded);
      x = ground (arith, decoded);
      u = ground (arith, decoded);
      ppn = omega (arith, decoded.ppn);
      pa = omega (arith, decoded.pa);
      perm = omega (arith, decoded.perm);
    })

-- The two indices of a virtual address.
pub va_from_fields :
    (va : ℕ)
    → va < word_mod
    → ((va_from va).vpn1 ≡ va / 4194304) × ((va_from va).vpn0 ≡ va / 4096 % 1024)
unfolding va_from
va_from_fields va h = (omega (arith, bit_and_field 10 22 va), omega (arith, bit_and_field 10 12 va))
