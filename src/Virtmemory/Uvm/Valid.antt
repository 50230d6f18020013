-- ===== src/Virtmemory/Uvm/Valid.antt =====
-- When an address space is well formed: its tree is, and the user's pages from `begin` on belong to
-- it alone.
use rust_baremetal.Prelude.{ℕ, ◌+◌, ◌*◌, ◌/◌, ◌%◌, ◌≤◌, ◌<◌, ◌≡◌, ◌≢◌, ◌∙◌, sym, ap, arith, true}
use native.Mathlib.Decide.{ℕ_discrete}
use rust_baremetal.Machine.{Machine}
use rust_baremetal.Machine.Heap.{HeapAllocator, InPage}
use rust_baremetal.Machine.Frames.{IsPage, Keeps, Fresh, Fresh-apart, Freed}
use rust_baremetal.Process.{Uvm}
use rust_baremetal.Virtmemory.PageTable.View.{
  entry, target, IsTree, Keeps-IsTree, Keeps-lookup, Keeps-word,
}
use rust_baremetal.Virtmemory.PageTable.Map.{Shows}
use rust_baremetal.Virtmemory.PageTable.Kept.{PageKept, Freed-PageKept, kept-IsTree, kept-lookup}
use rust_baremetal.Virtmemory.PageTable.Clear.{IsOwned, is_user_leaf}
use rust_baremetal.Virtmemory.PageTable.Unmap.{Owned}
use rust_baremetal.Virtmemory.PageTable.Spares.{Spares, Spares-IsOwned, Keeps-Spares, held_outside}

-- The first address that is not the program's: the page of the trapframe.
abbrev pub user_end : ℕ
user_end = 4294955008

-- The entries of the program's pages, from the first one on.
abbrev pub words : (ℕ → ℕ) → ℕ → ℕ
words f k = f (65536 + k * 4096)

-- `f` is what the address space translates to.
pub record IsSpace (H : HeapAllocator) (f : ℕ → ℕ) (m : Machine H) (uvm : Uvm) : Type 0 where
  pub shows : Shows H uvm.root f m
  pub begin : uvm.begin ≡ 65536
  pub whole : uvm.size % 4096 ≡ 0
  pub bound : 65536 + uvm.size ≤ user_end
  pub owned : Owned H true m uvm.root (words f) (uvm.size / 4096)
  pub above : (va : ℕ) → 65536 + uvm.size ≤ va → va < user_end → f va % 2 ≡ 0

module _ (H : HeapAllocator) {root : ℕ} where
  pub Spares-Owned :
      {s u : Machine H} {ws : ℕ → ℕ} {n : ℕ}
      → Spares H root s u
      → Owned H true s root ws n
      → Owned H true u root ws n
  Spares-Owned spares own = record {
    owned = λ k h g. Spares-IsOwned H spares (own.owned k h g);
    distinct = own.distinct;
  }

  -- One more entry.
  pub Owned-snoc :
      {s : Machine H} {ws : ℕ → ℕ} (n : ℕ)
      → Owned H true s root ws n
      → (is_user_leaf (ws n) ≡ true → IsOwned H s root (ws n))
      → ((k : ℕ)
          → k < n
          → is_user_leaf (ws k) ≡ true
          → is_user_leaf (ws n) ≡ true
          → target (ws k) ≢ target (ws n))
      → Owned H true s root ws (n + 1)
  Owned-snoc {s} {ws} n own last apart = record {
    owned = λ k h g. elim (ℕ_discrete k n) [
      | yes e ↦ rw e (last (rw e at g))
      | no ne ↦ own.owned k (omega arith) g
    ];
    distinct = λ k j hk hj gk gj e. elim (ℕ_discrete k n) [
      | yes ek ↦ elim (ℕ_discrete j n) [
        | yes ej ↦ ek ∙ sym ej
        | no nj ↦
            absurd (apart j (omega arith) gj (rw ek at gk) (sym e ∙ ap (λ x. target (ws x)) ek))
      ]
      | no nk ↦ elim (ℕ_discrete j n) [
        | yes ej ↦ absurd (apart k (omega arith) gk (rw ej at gj) (e ∙ ap (λ x. target (ws x)) ej))
        | no nj ↦ own.distinct k j (omega arith) (omega arith) gk gj e
      ]
    ];
  }

  pub Owned-cong :
      {s : Machine H} {ws : ℕ → ℕ} (vs : ℕ → ℕ) {n : ℕ}
      → ((k : ℕ) → k < n → vs k ≡ ws k)
      → Owned H true s root ws n
      → Owned H true s root vs n
  Owned-cong vs same own = record {
    owned = λ k h. rw (same k h) (own.owned k h);
    distinct = λ k j hk hj. rw (same k hk, same j hj) (own.distinct k j hk hj);
  }

  -- A page that was free belongs to nobody.
  pub Fresh-IsOwned :
      {s t : Machine H} {p : ℕ} (w : ℕ)
      → IsTree H s root
      → Fresh H s t p
      → target w ≡ p
      → IsOwned H t root w
  Fresh-IsOwned {s} {t} {p} w tree fresh e =
      let same : (i : ℕ) → i < 1024 → entry t.mem root i ≡ entry s.mem root i =
        λ i h. Keeps-word H fresh.keeps (root + 4 * i) tree.root_page (omega arith) (omega arith) in
      record {
        page = rw e fresh.page;
        not_root = rw e (Fresh-apart H fresh tree.root_page);
        not_table = λ i h. rw (same i h, e) λ v. Fresh-apart H fresh (tree.page i h v);
      }

  pub Keeps-Shows :
      {f : ℕ → ℕ} {s t : Machine H} → Keeps H s t → Shows H root f s → Shows H root f t
  Keeps-Shows keeps shows = record {
    tree = Keeps-IsTree H keeps shows.tree;
    view = λ va h. Keeps-lookup H keeps shows.tree va h ∙ shows.view va h;
  }

  -- A page that is no part of the tree is given back.
  pub Freed-Shows :
      {f : ℕ → ℕ} {s t : Machine H} {w : ℕ}
      → IsOwned H s root w
      → Freed H s t (target w)
      → Shows H root f s
      → Shows H root f t
  Freed-Shows {s} {t} {w} own freed shows =
      let tree = shows.tree in
      let al : target w % 4096 ≡ 0 = omega arith in
      let root_kept = Freed-PageKept H freed al tree.root_page own.not_root in
      let tables_kept : (i : ℕ)
          → i < 1024
          → entry s.mem root i % 2 ≡ 1
          → PageKept H s t (target (entry s.mem root i)) =
        λ i h v. Freed-PageKept H freed al (tree.page i h v) (own.not_table i h v) in
      record {
        tree = kept-IsTree H tree root_kept tables_kept;
        view = λ va h. kept-lookup H tree root_kept tables_kept va h ∙ shows.view va h;
      }

  -- A page that was free before and is given back again was never there.
  pub Freed-Spares :
      {s u t : Machine H} (p : ℕ)
      → IsPage H u.heap root
      → root ≢ p
      → p % 4096 ≡ 0
      → ((a : ℕ) → InPage p a → H.is_free s.heap a ≡ true)
      → Spares H root s u
      → Freed H u t p
      → Spares H root s t
  Freed-Spares {s} {u} {t} p page ne al was_free spares freed =
      let root_kept = Freed-PageKept H freed al page ne in
      let same : (i : ℕ) → i < 1024 → entry t.mem root i ≡ entry u.mem root i =
        λ i h. root_kept.word (root + 4 * i) (omega arith) (omega arith) in
      record {
        held = λ a h. freed.free_else a (held_outside H s p a was_free h) ∙ spares.held a h;
        mem = λ a h off.
            freed.mem_else a (held_outside H s p a was_free h) (spares.held a h)
            ∙ spares.mem a h off;
        tables = λ i h. rw (same i h) (spares.tables i h);
      }

-- What keeps all that is held keeps the address space.
pub Keeps-IsSpace :
    (H : HeapAllocator) {f : ℕ → ℕ} {s t : Machine H} {uvm : Uvm}
    → Keeps H s t
    → IsSpace H f s uvm
    → IsSpace H f t uvm
Keeps-IsSpace H keeps space = record {
  shows = Keeps-Shows H keeps space.shows;
  begin = space.begin;
  whole = space.whole;
  bound = space.bound;
  owned = Spares-Owned H (Keeps-Spares H space.shows.tree.root_page keeps) space.owned;
  above = space.above;
}
