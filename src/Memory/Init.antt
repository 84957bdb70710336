-- ===== src/Memory/Init.antt =====
-- `check_sorted` and `init_memory`.
use l_ost.Common.{
  ℕ, zero, suc, ◌+◌, ◌-◌, ◌*◌, ◌/◌, ◌^◌, ◌≤◌, ◌<◌, ◌≡◌, ◌≢◌, refl, ◌∙◌, ◌↔◌, ◌⊎◌, inl, inr, false,
  some, arith, ℕ_discrete, dec_lt, Bool-cases,
}
use l_ost.Memory.{
  MmapEntry, PageEntry, Memory, page_size, max_pages, withheld_entry, available_entry, limit,
  check_sorted_from, check_sorted, scan_limits, next_ent, init_page, init_pages, withheld,
  init_memory,
}
use mathlib.Core.Path.{subst}

-- Entry `i` of the map begins at or behind the end of the entry before it.
abbrev pub InOrder : (ℕ → MmapEntry) → ℕ → Type 0
InOrder mmap i = limit (mmap (i - 1)) ≤ (mmap i).base_low

check_sorted_from-zero :
    (mmap : ℕ → MmapEntry) (n i : ℕ)
    → 0 < i
    → check_sorted_from mmap n i ≡ 0
    → (j : ℕ) → i ≤ j
    → j < i + n
    → InOrder mmap j
unfolding check_sorted_from
check_sorted_from-zero mmap zero i pos h j lo hi = absurd (omega arith)
check_sorted_from-zero mmap (suc n) i pos h j lo hi =
    elim (dec_lt (mmap i).base_low (limit (mmap (i - 1)))) [
      | yes lt ↦ absurd (ground arith)
      | no ge ↦ elim (ℕ_discrete i j) [
        | yes e ↦ rw (← e) (omega arith)
        | no ne ↦
            check_sorted_from-zero mmap n (i + 1) (omega arith) (ground arith) j (omega arith)
              (omega arith)
      ]
    ]

check_sorted_from-InOrder :
    (mmap : ℕ → MmapEntry) (n i : ℕ)
    → ((j : ℕ) → i ≤ j → j < i + n → InOrder mmap j)
    → check_sorted_from mmap n i ≡ 0
unfolding check_sorted_from
check_sorted_from-InOrder mmap zero i h = refl
check_sorted_from-InOrder mmap (suc n) i h =
    let here : InOrder mmap i = h i (omega arith) (omega arith) in
    ground
      (arith, check_sorted_from-InOrder mmap n (i + 1) λ j lo hi. h j (omega arith) (omega arith))

-- `check_sorted` accepts a map exactly when each entry but the first and the last begins at or
-- behind the end of the entry before it. The last entry is never compared.
pub check_sorted_iff :
    (mmap : ℕ → MmapEntry) (mmap_entries : ℕ)
    → (check_sorted mmap mmap_entries ≡ 0)
      ↔ ((j : ℕ) → 1 ≤ j → j + 1 < mmap_entries → InOrder mmap j)
unfolding check_sorted
check_sorted_iff mmap n = (
  λ h j lo hi. check_sorted_from-zero mmap (n - 1 - 1) 1 (omega arith) h j lo (omega arith),
  λ h. check_sorted_from-InOrder mmap (n - 1 - 1) 1 λ j lo hi. h j lo (omega arith),
)

-- What the second loop has written for page `k` of a table of `size` entries.
abbrev pub Initialised : ℕ → ℕ → PageEntry → Type 0
Initialised size k e =
    (e ≡ withheld_entry) ⊎ ((e ≡ available_entry) × (0x100000 + 2 * size ≤ k * page_size))

pub init_page-size :
    (mmap : ℕ → MmapEntry) (i ent : ℕ) (s : Memory)
    → (init_page mmap i ent s).page_table_size ≡ s.page_table_size
unfolding init_page
init_page-size mmap i ent s = ground arith

init_page-ne :
    (mmap : ℕ → MmapEntry) (i ent : ℕ) (s : Memory) (k : ℕ)
    → i ≢ k
    → (init_page mmap i ent s).page_table k ≡ s.page_table k
unfolding init_page
init_page-ne mmap i ent s k h = ground arith

-- A page that is not withheld lies behind the page table.
withheld-false :
    (mmap : ℕ → MmapEntry) (size i ent : ℕ)
    → size ≤ max_pages
    → withheld mmap size i ent ≡ false
    → 0x100000 + 2 * size ≤ i * page_size
unfolding withheld
withheld-false mmap size i ent small h = ground arith

init_page-Initialised :
    (mmap : ℕ → MmapEntry) (i ent : ℕ) (s : Memory)
    → s.page_table_size ≤ max_pages
    → Initialised s.page_table_size i ((init_page mmap i ent s).page_table i)
unfolding init_page
init_page-Initialised mmap i ent s small =
    elim (Bool-cases (withheld mmap s.page_table_size i ent)) [
      | inl w ↦ inl (ground arith)
      | inr a ↦ inr (ground arith, withheld-false mmap s.page_table_size i ent small a)
    ]

pub init_pages-size :
    (mmap : ℕ → MmapEntry) (n i ent : ℕ) (s : Memory)
    → (init_pages mmap n i ent s).page_table_size ≡ s.page_table_size
unfolding init_pages
init_pages-size mmap zero i ent s = refl
init_pages-size mmap (suc n) i ent s =
    init_pages-size mmap n (i + 1) (next_ent mmap i ent) (init_page mmap i ent s)
    ∙ init_page-size mmap i ent s

pub init_pages-outside :
    (mmap : ℕ → MmapEntry) (n i ent : ℕ) (s : Memory) (k : ℕ)
    → k < i
    → (init_pages mmap n i ent s).page_table k ≡ s.page_table k
unfolding init_pages
init_pages-outside mmap zero i ent s k h = refl
init_pages-outside mmap (suc n) i ent s k h =
    init_pages-outside mmap n (i + 1) (next_ent mmap i ent) (init_page mmap i ent s) k (omega arith)
    ∙ init_page-ne mmap i ent s k (omega arith)

init_pages-Initialised :
    (mmap : ℕ → MmapEntry) (n i ent : ℕ) (s : Memory) (k : ℕ)
    → s.page_table_size ≤ max_pages
    → i ≤ k
    → k < i + n
    → Initialised s.page_table_size k ((init_pages mmap n i ent s).page_table k)
unfolding init_pages
init_pages-Initialised mmap zero i ent s k small lo hi = absurd (omega arith)
init_pages-Initialised mmap (suc n) i ent s k small lo hi =
    let size = init_page-size mmap i ent s in
    elim (ℕ_discrete i k) [
      | yes e ↦
          rw
            (init_pages-outside mmap n (i + 1) (next_ent mmap i ent) (init_page mmap i ent s) k
              (omega arith))
            (subst (λ j. Initialised s.page_table_size j ((init_page mmap i ent s).page_table j)) e
              (init_page-Initialised mmap i ent s small))
      | no ne ↦
          subst
            (λ z. Initialised z k (
              (init_pages mmap n (i + 1) (next_ent mmap i ent) (init_page mmap i ent s)).page_table
                k))
            size
            (init_pages-Initialised mmap n (i + 1) (next_ent mmap i ent) (init_page mmap i ent s) k
              (omega arith) (omega arith) (omega arith))
    ]

scan_limits-lt :
    (mmap : ℕ → MmapEntry) (n i : ℕ) (s : Memory)
    → s.max_address < 2 ^ 32
    → (scan_limits mmap n i s).max_address < 2 ^ 32
unfolding scan_limits
scan_limits-lt mmap zero i s h = h
scan_limits-lt mmap (suc n) i s h = scan_limits-lt mmap n (i + 1) _ (ground arith)

-- `init_memory`, when it comes back, has set every entry of the table, to the withheld or to the
-- available pattern. What it makes available lies behind the page table, which stands at 1 MiB.
pub init_memory-Initialised :
    (mmap : ℕ → MmapEntry) (mmap_entries : ℕ) (s s' : Memory)
    → s.max_address < 2 ^ 32
    → init_memory mmap mmap_entries s ≡ some s'
    → (s'.page_table_size ≤ max_pages)
      × ((k : ℕ) → k < s'.page_table_size → Initialised s'.page_table_size k (s'.page_table k))
unfolding init_memory
init_memory-Initialised mmap n s s' top e =
    let scanned = scan_limits mmap n 0 s in
    let pages = scanned.max_address / page_size in
    let start : Memory = record scanned { page_table_size = pages } in
    let done : init_pages mmap pages 0 0 start ≡ s' = ground arith in
    let small : pages ≤ max_pages = omega (arith, scan_limits-lt mmap n 0 s top) in
    let size = init_pages-size mmap pages 0 0 start in
    rw (← done, size)
      (
        small,
        λ k h. init_pages-Initialised mmap pages 0 0 start k small (omega arith) (omega arith),
      )
