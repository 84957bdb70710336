-- ===== src/Memory/Filling.antt =====
-- Allocations of kernel/memory/mmanager.c one behind the other, from a table with nothing freed.
use l_ost.Common.{
  ℕ, zero, suc, ◌+◌, ◌-◌, ◌*◌, ◌/◌, ◌^◌, ◌≤◌, ◌<◌, ◌≡◌, refl, sym, ap, ◌∙◌, inl, inr, true, false,
  some, arith, ℕ_discrete, dec_lt, ltb, ◌==◌, if◌then◌else◌, Bool-cases, u32, slt,
}
use l_ost.Memory.{
  MmapEntry, PageEntry, Memory, Table, page_size, first_page, max_pages, available_entry,
  withheld_entry, limit, check_free_from, check_free, stops_at, allocate, next_ent, last_max,
  withheld, init_page, init_pages, init_memory, scan_limits, check_sorted, check_sorted_from,
}
use l_ost.Memory.Pages.{stops_at-used}
use l_ost.Memory.Init.{init_page-size, init_pages-outside, init_pages-size}
use mathlib.Core.Path.{subst}
use l_ost.Memory.Alloc.{Outcome, failed, placed, allocate-Outcome}

-- From 1 MiB up to page `f` every page is in use, and from `f` on every one is available.
pub record Filled (m : Memory) (f : ℕ) : Type 0 where
  pub small : m.page_table_size ≤ max_pages
  pub from : first_page ≤ f
  pub below : (k : ℕ) → first_page ≤ k → k < f → (m.page_table k).used ≡ true
  pub above : (k : ℕ) → f ≤ k → k < m.page_table_size → m.page_table k ≡ available_entry

check_free_from-available :
    (t : Table) (n i : ℕ)
    → ((k : ℕ) → i ≤ k → k < i + n → t k ≡ available_entry)
    → check_free_from t n i ≡ true
unfolding check_free_from
check_free_from-available t zero i all = refl
check_free_from-available t (suc n) i all =
    let here = all i (omega arith) (omega arith) in
    let rest =
      check_free_from-available t n (i + 1) (λ k lo hi. all k (omega arith) (omega arith)) in
    rw (check_free_from, here) rest

-- The search stops at the first available page.
stops_at-Filled :
    (m : Memory) (f size : ℕ)
    → Filled m f
    → 1 ≤ size
    → f + size ≤ m.page_table_size
    → stops_at m.page_table size f ≡ true
unfolding stops_at check_free
stops_at-Filled m f size filled some_pages fits =
    let here = filled.above f (omega arith) (omega arith) in
    let free =
      check_free_from-available m.page_table (size - f) f
        (λ k lo hi. filled.above k lo (omega (arith, fits, hi, lo))) in
    rw (stops_at, check_free, free, here) refl

-- What an allocation makes of such a table.
abbrev pub Next : (size : ℕ) (m : Memory) (f : ℕ) (r : ℕ × Memory) → Type 0
Next size m f r =
    (r.0 ≡ f * page_size) × (r.1.page_table_size ≡ m.page_table_size) × Filled r.1 (f + size)

Next-Outcome :
    (size permissions pid : ℕ) (m : Memory) (f : ℕ) (r : ℕ × Memory)
    → Filled m f
    → 1 ≤ size
    → f + size ≤ m.page_table_size
    → Outcome size permissions pid m r
    → Next size m f r
Next-Outcome size permissions pid m f r filled some_pages fits (failed none_stops) =
    let stops = stops_at-Filled m f size filled some_pages fits in
    let never = none_stops f filled.from (omega arith) in absurd (cc (stops, never))
Next-Outcome size permissions pid m f r filled some_pages fits
      (placed i t from below stops first block same marked) =
    let (unused, usable, light) = stops_at-used m.page_table size i stops in
    let lower : f ≤ i = elim (dec_lt i f) [
      | yes before ↦ let used = filled.below i from before in absurd (cc (used, unused))
      | no behind ↦ omega arith
    ] in
    let upper : i ≤ f = elim (dec_lt f i) [
      | yes passed ↦
          let never = first f filled.from passed in
          let here = stops_at-Filled m f size filled some_pages fits in absurd (cc (never, here))
      | no reached ↦ omega arith
    ] in
    let here : i ≡ f = omega arith in
    let small = filled.small in
    (
      omega (arith, here, small),
      refl,
      record {
        small = small;
        from = omega (arith, filled.from);
        below = λ k lo hi. elim (dec_lt k f) [
          | yes before ↦ ap (λ e. e.used) (same k (inl (omega arith))) ∙ filled.below k lo before
          | no behind ↦
              let at : i + (k - i) ≡ k = omega arith in
              ap (λ e. e.used) (ap t (sym at) ∙ block.entries (k - i) (omega arith))
        ];
        above = λ k lo hi. same k (inr (omega arith)) ∙ filled.above k (omega arith) hi;
      },
    )

-- An allocation takes exactly the first available pages, where they are enough.
pub allocate-Filled :
    (size permissions pid : ℕ) (m : Memory) (f : ℕ)
    → Filled m f
    → 1 ≤ size
    → f + size ≤ m.page_table_size
    → Next size m f (allocate size permissions pid m)
allocate-Filled size permissions pid m f filled some_pages fits =
    Next-Outcome size permissions pid m f (allocate size permissions pid m) filled some_pages fits
      (allocate-Outcome size permissions pid m)

-- What `init_memory` writes for page `k` of a map with one usable region from 0 on.
abbrev one_region_entry : (page_table_size k : ℕ) → PageEntry
one_region_entry page_table_size k =
    if ltb (k * page_size) (0x100000 + page_table_size * 2) then withheld_entry else available_entry

-- A map whose first region is usable and goes from 0 to `top`.
pub record OneRegion (mmap : ℕ → MmapEntry) (top : ℕ) : Type 0 where
  pub base : (mmap 0).base_low ≡ 0
  pub usable : (mmap 0).region_type ≡ 1
  pub end : limit (mmap 0) ≡ top
  pub signed : top < 2 ^ 31

init_page-one :
    (mmap : ℕ → MmapEntry) (top i : ℕ) (s : Memory)
    → OneRegion mmap top
    → (i + 1) * page_size ≤ top
    → s.page_table_size ≤ max_pages
    → (next_ent mmap i 0 ≡ 0)
      × ((init_page mmap i 0 s).page_table i ≡ one_region_entry s.page_table_size i)
unfolding next_ent init_page withheld last_max
init_page-one mmap top i s o inside small =
    let inside' : slt (i * page_size) top ≡ true = ground (arith, o.signed) in
    let stays : next_ent mmap i 0 ≡ 0 = rw (next_ent, o.end, inside') refl in
    let same : (i == i) ≡ true = ground arith in
    let zeroth : ltb (i * page_size) 0 ≡ false = ground arith in
    let exact : u32 (0x100000 + s.page_table_size * 2) ≡ 0x100000 + s.page_table_size * 2 =
      omega (arith, small) in
    (
      stays,
      elim (Bool-cases (ltb (i * page_size) (0x100000 + s.page_table_size * 2))) [
        | inl low ↦ rw (init_page, withheld, stays, o.base, o.usable, zeroth, exact, low, same) refl
        | inr high ↦
            rw (init_page, withheld, stays, o.base, o.usable, zeroth, exact, high, same) refl
      ],
    )

init_pages-one :
    (mmap : ℕ → MmapEntry) (top n i : ℕ) (s : Memory) (k : ℕ)
    → OneRegion mmap top
    → (i + n) * page_size ≤ top
    → s.page_table_size ≤ max_pages
    → i ≤ k
    → k < i + n
    → (init_pages mmap n i 0 s).page_table k ≡ one_region_entry s.page_table_size k
unfolding init_pages
init_pages-one mmap top zero i s k o inside small lo hi = absurd (omega arith)
init_pages-one mmap top (suc n) i s k o inside small lo hi =
    let (stays, here) = init_page-one mmap top i s o (omega arith) small in
    let size = init_page-size mmap i 0 s in
    elim (ℕ_discrete i k) [
      | yes e ↦
          rw
            (
              init_pages,
              stays,
              init_pages-outside mmap n (i + 1) 0 (init_page mmap i 0 s) k (omega arith),
            )
            (subst (λ j. (init_page mmap i 0 s).page_table j ≡ one_region_entry s.page_table_size j)
              e here)
      | no ne ↦
          rw (init_pages, stays)
            (subst
              (λ z.
                (init_pages mmap n (i + 1) 0 (init_page mmap i 0 s)).page_table k
                ≡ one_region_entry z k)
              size
              (init_pages-one mmap top n (i + 1) (init_page mmap i 0 s) k o (omega arith)
                (omega (arith, size)) (omega arith) (omega arith)))
    ]

-- On one usable region from 0 on, below 8 MiB, `init_memory` makes available what lies behind the
-- page table, which takes one page.
pub init_memory-Filled :
    (mmap : ℕ → MmapEntry) (top : ℕ) (s : Memory)
    → OneRegion mmap top
    → s.max_address ≤ top
    → 257 ≤ top / page_size
    → top / page_size ≤ 0x800
    → (m : Memory) × (init_memory mmap 1 s ≡ some m)
      × (m.page_table_size ≡ top / page_size)
      × Filled m 257
unfolding init_memory scan_limits check_sorted check_sorted_from
init_memory-Filled mmap top s o max enough table =
    let highest : (if ltb s.max_address top then top else s.max_address) ≡ top =
      ground (arith, max) in
    let start : Memory = record s {
      max_address = top;
      total_usable = u32 (top + 2 ^ 32 - 256);
      page_table_size = top / page_size;
    } in
    let entry = λ (k : ℕ) (hi : k < top / page_size).
      init_pages-one mmap top (top / page_size) 0 start k o (omega arith) (omega (arith, table))
        (omega arith) (omega (arith, hi)) in
    let size = init_pages-size mmap (top / page_size) 0 0 start in
    (
      init_pages mmap (top / page_size) 0 0 start,
      rw (init_memory, scan_limits, check_sorted, check_sorted_from, o.end, highest) refl,
      size,
      record {
        small = omega (arith, size, table);
        from = omega arith;
        below = λ k lo hi.
            let first : ltb (k * page_size) (0x100000 + top / page_size * 2) ≡ true =
              ground (arith, enough, hi) in
            let kept : one_region_entry (top / page_size) k ≡ withheld_entry = rw first refl in
            ap (λ e. e.used) (entry k (omega (arith, enough, hi)) ∙ kept);
        above = λ k lo hi.
            let behind : ltb (k * page_size) (0x100000 + top / page_size * 2) ≡ false =
              ground (arith, table, lo) in
            entry k (omega (arith, size, hi)) ∙ rw behind refl;
      },
    )
