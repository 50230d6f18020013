-- ===== src/Virtmemory/UserSpace.antt =====
-- A machine with an address space of one user page.
use native.Mathlib.Decide.{ℕ_discrete}
use rust_baremetal.Prelude.{
  ℕ, ◌+◌, ◌*◌, ◌/◌, ◌%◌, ◌≤◌, ◌<◌, ◌≡◌, ◌≢◌, ◌∙◌, refl, sym, ap, arith, false, ltb,
}
use rust_baremetal.Machine.{Machine}
use rust_baremetal.Machine.Bitmap.{bitmap}
use rust_baremetal.Machine.Frames.{IsPage}
use rust_baremetal.Machine.Memory.{read_word, read-write_apart, write_word}
use rust_baremetal.Virtmemory.PageTable.View.{entry, slot}
use rust_baremetal.Virtmemory.PageTable.New.{Shows-zero}
use rust_baremetal.Virtmemory.PageTable.Map.{Shows, put}
use rust_baremetal.Virtmemory.PageTable.Grow.{
  with_table, grown-IsTree, same_entry, new_entry, lookup-grown,
}
use rust_baremetal.Virtmemory.PageTable.Store.{stored-IsTree, lookup-stored}
use rust_baremetal.Virtmemory.PageTable.Clear.{IsOwned}

-- The last three pages of the heap are held.
abbrev pub bare : Machine bitmap
unfolding bitmap
bare = record {
  mem = λ a. 0;
  heap = λ i. ltb i 13;
  hart = record { sstatus = 2; interrupt_off_stack = 0; interrupt_prev_state = false };
}

bare-IsPage : (i : ℕ) → 13 ≤ i → i < 16 → IsPage bitmap bare.heap (0x80300000 + i * 4096)
unfolding bitmap
bare-IsPage i lo hi = record {
  aligned = omega arith;
  above = omega arith;
  below = omega arith;
  held = λ a h. ground arith;
}

pub bare-Shows : Shows bitmap 0x8030f000 (λ _. 0) bare
unfolding bitmap
bare-Shows =
    Shows-zero bitmap bare 0x8030f000 (bare-IsPage 15 (omega arith) (omega arith))
      (λ i h. unfold read_word in refl)

pub bare_entry : (i : ℕ) → entry bare.mem 0x8030f000 i ≡ 0
unfolding bitmap read_word
bare_entry i = refl

-- With a table of the second level for the first 4 MiB.
abbrev pub tabled : Machine bitmap
tabled = record bare { mem = with_table bare.mem 0x8030f000 0 0x8030e000 }

bare_no_table : (i : ℕ) → entry bare.mem 0x8030f000 i % 2 ≢ 1
bare_no_table i e = omega (arith, bare_entry i, e)

second : IsPage bitmap bare.heap 0x8030e000
second = bare-IsPage 14 (omega arith) (omega arith)

tabled_entry : (i : ℕ) → i < 1024 → entry tabled.mem 0x8030f000 i % 2 ≡ 1 → i ≡ 0
tabled_entry i h v = elim (ℕ_discrete i 0) [
  | yes e ↦ e
  | no ne ↦ absurd (
      bare_no_table i (
        rw
          (sym (
            same_entry bitmap bare-Shows.tree 0 0x8030e000 (omega arith) (bare_no_table 0) second
              (omega arith) (λ j h v. absurd (bare_no_table j v)) i h ne))
          v))
]

tabled-Shows : Shows bitmap 0x8030f000 (λ _. 0) tabled
tabled-Shows = record {
  tree =
      grown-IsTree bitmap bare-Shows.tree 0 0x8030e000 (omega arith) (bare_no_table 0) second
        (omega arith) (λ j h v. absurd (bare_no_table j v));
  view = λ va h.
      lookup-grown bitmap bare-Shows.tree 0 0x8030e000 (omega arith) (bare_no_table 0) second
        (omega arith) (λ j h v. absurd (bare_no_table j v)) va h
      ∙ bare-Shows.view va h;
}

first : entry tabled.mem 0x8030f000 (0x10000 / 4194304) ≡ 0x200c3801
first =
    new_entry bitmap bare-Shows.tree 0 0x8030e000 (omega arith) (bare_no_table 0) second
      (omega arith) (λ j h v. absurd (bare_no_table j v))

-- With a page of the user at 0x10000.
abbrev pub user_space : Machine bitmap
user_space = record tabled { mem = write_word tabled.mem 0x8030e040 0x200c3417 }

pub user_space-Shows : Shows bitmap 0x8030f000 (put (λ _. 0) 0x10000 0x200c3417) user_space
user_space-Shows =
    let leaf : slot tabled.mem 0x8030f000 0x10000 ≡ 0x8030e040 = rw first refl in
    let valid : entry tabled.mem 0x8030f000 (0x10000 / 4194304) % 2 ≡ 1 = rw first refl in
    rw (sym leaf) record {
      tree = stored-IsTree bitmap tabled-Shows.tree 0x10000 (omega arith) valid _ (omega arith);
      view = λ va h.
          lookup-stored bitmap tabled-Shows.tree 0x10000 (omega arith) valid 0x200c3417
            (omega arith) va h
          ∙ rw (tabled-Shows.view va h) refl;
    }

pub user_page-IsOwned : IsOwned bitmap user_space 0x8030f000 0x200c3417
user_page-IsOwned = record {
  page = bare-IsPage 13 (omega arith) (omega arith);
  not_root = omega arith;
  not_table = λ i h v e.
      let same =
        read-write_apart tabled.mem 0x8030e040 (0x8030f000 + 4 * i) 0x200c3417 (omega arith) in
      let zeroth = tabled_entry i h (rw (sym same) v) in
      omega (arith, same, ap (λ j. entry tabled.mem 0x8030f000 j) zeroth, first, e);
}
