-- ===== src/Machine/Bitmap.antt =====
-- A heap that meets the laws of `HeapAllocator`: sixteen pages, each marked free or not.
use Prim.Native.Nat.{◌-◌}
use rust_baremetal.Prelude.{
  ℕ, zero, suc, ◌+◌, ◌*◌, ◌/◌, ◌%◌, ◌≤◌, ◌<◌, ◌≡◌, refl, ap, arith, Bool, true, false, ◌&&◌, Option,
  none, some, ltb, leb, ◌==◌, if◌then◌else◌,
}
use rust_baremetal.Machine.Memory.{Mem}
use rust_baremetal.Machine.Heap.{HeapAllocator, InPage, OutsidePage}

abbrev pub base : ℕ
base = 0x80300000

abbrev pub Marks : Type 0
Marks = ℕ → Bool

-- The last free page of the first `n`.
pub find : ℕ → Marks → Option ℕ
find zero f = none
find (suc n) f = if f n then some n else find n f

pub mark : Marks → ℕ → Bool → Marks
mark f i b j = if j == i then b else f j

pub free_at : Marks → ℕ → Bool
free_at f a = leb base a && ltb a (base + 65536) && f ((a - base) / 4096)

pub alloc_page : Option ℕ → Marks → Mem → Option ℕ × Marks × Mem
alloc_page none f m = (none, f, m)
alloc_page (some i) f m = (some (base + i * 4096), mark f i false, m)

pub find-lt : (n i : ℕ) (f : Marks) → find n f ≡ some i → (i < n) × (f i ≡ true)
unfolding find
find-lt zero i f e = cc
find-lt (suc n) i f e = ground (arith, find-lt n i f)

pub alloc_page-some :
    (o : Option ℕ) (f : Marks) (m : Mem) (p : ℕ)
    → ((i : ℕ) → o ≡ some i → (i < 16) × (f i ≡ true))
    → (alloc_page o f m).0 ≡ some p
    → (p % 4096 ≡ 0)
      × (base ≤ p)
      × (p + 4096 ≤ base + 65536)
      × ((a : ℕ) → InPage p a → free_at f a ≡ true)
      × ((a : ℕ) → InPage p a → free_at (alloc_page o f m).1 a ≡ false)
      × ((a : ℕ) → OutsidePage p a → free_at (alloc_page o f m).1 a ≡ free_at f a)
unfolding alloc_page free_at mark
alloc_page-some none f m p ok e = cc
alloc_page-some (some i) f m p ok e =
    let bound = ok i refl in
    (
      ground (arith, bound),
      ground (arith, bound),
      ground (arith, bound),
      λ a h. ground (arith, bound),
      λ a h. ground (arith, bound),
      λ a h. ground (arith, bound),
    )

pub dealloc_page : ℕ → Marks → Marks
unfolding mark
dealloc_page p f = mark f ((p - base) / 4096) true

pub dealloc_page-lem :
    (f : Marks) (p : ℕ)
    → p % 4096 ≡ 0
    → base ≤ p
    → p + 4096 ≤ base + 65536
    → ((a : ℕ) → InPage p a → free_at (dealloc_page p f) a ≡ true)
      × ((a : ℕ) → OutsidePage p a → free_at (dealloc_page p f) a ≡ free_at f a)
unfolding dealloc_page free_at
dealloc_page-lem f p al lo hi = (λ a h. ground arith, λ a h. ground arith)

pub alloc_page-none :
    (o : Option ℕ) (f : Marks) (m : Mem)
    → (alloc_page o f m).0 ≡ none
    → (a : ℕ) → free_at (alloc_page o f m).1 a ≡ free_at f a
unfolding alloc_page
alloc_page-none none f m e a = refl
alloc_page-none (some i) f m e a = cc

pub alloc_page-mem : (o : Option ℕ) (f : Marks) (m : Mem) → (alloc_page o f m).2 ≡ m
unfolding alloc_page
alloc_page-mem none f m = refl
alloc_page-mem (some i) f m = refl

unfoldable pub bitmap : HeapAllocator
unfolding find alloc_page dealloc_page free_at
bitmap = record {
  State = Marks;
  lo = base;
  hi = base + 65536;
  inner_alloc = λ layout f m. alloc_page (find 16 f) f m;
  inner_dealloc = λ p layout f m. (dealloc_page p f, m);
  is_free = free_at;
  lo_pos = omega arith;
  hi_le = omega arith;
  alloc-some = λ f m p e. alloc_page-some (find 16 f) f m p (λ i. find-lt 16 i f) e;
  alloc-none = λ f m. alloc_page-none (find 16 f) f m;
  alloc-mem = λ f m a h. ap (λ (g : Mem). g a) (alloc_page-mem (find 16 f) f m);
  dealloc-page = λ f m p al lo hi held.
      let laws = dealloc_page-lem f p al lo hi in (laws.0, laws.1, λ a h k. refl);
}
