-- ===== src/Memory/Pages.antt =====
-- `kmalloc`, `kumalloc` and `kfree` together.
use l_ost.Common.{
  ℕ, ◌+◌, ◌-◌, ◌*◌, ◌/◌, ◌≤◌, ◌<◌, ◌≡◌, ◌≢◌, ap, ◌∙◌, ◌⊎◌, inl, inr, true, false, Option, some,
  arith, dec_lt, u32,
}
use l_ost.Memory.{
  Memory, Table, PageEntry, page_size, first_page, max_pages, empty_entry, block_entry, weight,
  stops_at, allocate, kmalloc, kumalloc, kfree, get_used_pages, check_free,
}
use l_ost.Memory.Search.{check_free_iff}
use l_ost.Memory.Alloc.{
  IsBlock, SameOutside, Placed, allocate-Placed, Outcome, failed, placed, allocate-Outcome,
}
use l_ost.Memory.Count.{count_used-mark_from}
use l_ost.Memory.Free.{clear_from-outside, clear_from-inside, kfree-block, clear_from}

-- Freeing what `kumalloc` returned comes back, zeroes exactly the pages of that block, and leaves
-- every other entry and the rest of the memory as they were before the allocation. The block has
-- at least one page, and neither it nor the table exceeds the address space.
pub kfree-kumalloc :
    (size perms pid : ℕ) (s : Memory)
    → 0 < size
    → size ≤ max_pages
    → s.page_table_size ≤ max_pages
    → (kumalloc size perms pid s).0 ≢ 0
    → let (addr, s') = kumalloc size perms pid s in
      (t : Table) × (kfree addr s' ≡ some (record s { page_table = t }))
      × SameOutside size (addr / page_size) s.page_table t
      × ((k : ℕ) → addr / page_size ≤ k → k < addr / page_size + size → t k ≡ empty_entry)
unfolding kumalloc
kfree-kumalloc size perms pid s pos small table ok =
    let p : Placed size perms pid s (allocate size perms pid s) =
      allocate-Placed size perms pid s table ok in
    let r = allocate size perms pid s in
    let t = clear_from size p.page r.1.page_table in
    let at : r.0 / page_size ≡ p.page = omega (arith, p.address) in
    (
      t,
      kfree-block size perms pid p.page 0 r.0 r.1 p.block small pos (omega arith)
          ∙ ap {B = Option Memory} (λ (m : Memory). some (record m { page_table = t })) p.rest,
      λ k out.
          let out' : (k < p.page) ⊎ (p.page + size ≤ k) = rw at at out in
          clear_from-outside size p.page r.1.page_table k out' ∙ p.same k out',
      λ k lo hi. clear_from-inside size p.page r.1.page_table k (omega arith) (omega arith),
    )

pub stops_at-used :
    (t : Table) (size i : ℕ)
    → stops_at t size i ≡ true
    → ((t i).used ≡ false) × ((t i).unusable ≡ false) × (weight (t i) ≡ 0)
unfolding stops_at
stops_at-used t size i h =
    let free : ((t i).used ≡ false) × ((t i).unusable ≡ false) = ground arith in
    (free.0, free.1, rw free.0)

stops_at-true :
    (t : Table) (size i : ℕ)
    → (t i).used ≡ false
    → (t i).unusable ≡ false
    → check_free t i size ≡ true
    → stops_at t size i ≡ true
unfolding stops_at
stops_at-true t size i u v c = rw (u, v, c)

stops_at-false : (t : Table) (size i : ℕ) → (t i).used ≡ true → stops_at t size i ≡ false
unfolding stops_at
stops_at-false t size i u = rw u

-- A successful `kumalloc` whose block lies inside the table, on pages that did not count as used,
-- raises the number of used pages by the size of the block.
pub get_used_pages-kumalloc :
    (size perms pid : ℕ) (s : Memory)
    → s.page_table_size ≤ max_pages
    → (kumalloc size perms pid s).0 ≢ 0
    → (kumalloc size perms pid s).0 / page_size + size ≤ s.page_table_size
    → ((j : ℕ)
        → j < size
        → weight (s.page_table ((kumalloc size perms pid s).0 / page_size + j)) ≡ 0)
    → get_used_pages (kumalloc size perms pid s).1 ≡ get_used_pages s + size
unfolding kumalloc get_used_pages
get_used_pages-kumalloc size perms pid s table ok inside clear =
    let p : Placed size perms pid s (allocate size perms pid s) =
      allocate-Placed size perms pid s table ok in
    let r = allocate size perms pid s in
    let at : r.0 / page_size ≡ p.page = omega (arith, p.address) in
    let sized : r.1.page_table_size ≡ s.page_table_size =
      ap (λ (m : Memory). m.page_table_size) p.rest in
    rw (p.marked, sized)
      (count_used-mark_from size perms pid p.page size 0 s.page_table s.page_table_size 0
        (omega arith) (omega (arith, inside, at))
        λ k lo hi.
          ap (λ j. weight (s.page_table j)) {x = k} {y = r.0 / page_size + (k - p.page)}
            (omega (arith, lo, at))
          ∙ clear (k - p.page) (omega arith))

-- A successful `kmalloc` of one page takes a page that was not in use and makes it used: every
-- other entry is as before, the address is that of a page of the table at or above 1 MiB, and the
-- number of used pages grows by one. The table does not exceed the address space.
pub kmalloc-page :
    (permissions : ℕ) (s : Memory)
    → s.page_table_size ≤ max_pages
    → (kmalloc 1 permissions s).0 ≢ 0
    → let (addr, s') = kmalloc 1 permissions s in
      ((s.page_table (addr / page_size)).used ≡ false)
      × ((s'.page_table (addr / page_size)).used ≡ true)
      × (first_page ≤ addr / page_size)
      × (addr / page_size < s.page_table_size)
      × ((k : ℕ) → k ≢ addr / page_size → s'.page_table k ≡ s.page_table k)
      × (get_used_pages s' ≡ get_used_pages s + 1)
unfolding kmalloc kumalloc
kmalloc-page permissions s table ok =
    let p : Placed 1 permissions 0 s (allocate 1 permissions 0 s) =
      allocate-Placed 1 permissions 0 s table ok in
    let r = allocate 1 permissions 0 s in
    let at : r.0 / page_size ≡ p.page = omega (arith, p.address) in
    let first : r.1.page_table p.page ≡ block_entry 1 permissions 0 0 =
      ground (arith, p.block.entries 0) in
    let was = stops_at-used s.page_table 1 p.page p.stops in
    (
      rw at was.0,
      rw at (ap (λ (e : PageEntry). e.used) first),
      omega (arith, p.from),
      omega (arith, p.below),
      λ k ne.
          p.same k
            (elim (dec_lt k p.page) [ yes lt ↦ inl lt | no ge ↦ inr (omega (arith, at, ne)) ]),
      get_used_pages-kumalloc 1 permissions 0 s table ok (omega (arith, at, p.below))
          λ j h. ap (λ k. weight (s.page_table k)) {y = p.page} (omega (arith, at)) ∙ was.2,
    )

Outcome-at :
    {size permissions pid : ℕ} {s : Memory} {r : ℕ × Memory} (i : ℕ)
    → Outcome size permissions pid s r
    → first_page ≤ i
    → i < s.page_table_size
    → stops_at s.page_table size i ≡ true
    → ((k : ℕ) → first_page ≤ k → k < i → stops_at s.page_table size k ≡ false)
    → (r.0 ≡ u32 (i * page_size)) × IsBlock size permissions pid i r.1.page_table
Outcome-at i (failed none_stops) lo hi stops before = cc (none_stops i lo hi)
Outcome-at {size} {permissions} {pid} i (placed k t lo' hi' stops' before' block same marked) lo hi
      stops before =
    elim (dec_lt k i) [
      | yes lt ↦ cc (before k lo' lt)
      | no ge ↦ elim (dec_lt i k) [
        | yes lt ↦ cc (before' i lo lt)
        | no ge' ↦ let e : i ≡ k = omega arith in (omega arith, rw e block)
      ]
    ]

-- The pages behind the first of a block are not looked at: when the search stops at page `i`, a
-- block of at most 256 pages overwrites the entry of each page `i + j` of the block, also one that
-- is in use and one that lies behind the end of the table.
pub kumalloc-overwrites :
    (size perms pid i j : ℕ) (s : Memory)
    → s.page_table_size ≤ max_pages
    → size ≤ first_page
    → first_page ≤ i
    → i < s.page_table_size
    → (s.page_table i).used ≡ false
    → (s.page_table i).unusable ≡ false
    → ((k : ℕ) → first_page ≤ k → k < i → (s.page_table k).used ≡ true)
    → j < size
    → ((kumalloc size perms pid s).0 ≡ i * page_size)
      × ((kumalloc size perms pid s).1.page_table (i + j) ≡ block_entry size perms pid j)
unfolding kumalloc
kumalloc-overwrites size perms pid i j s table small lo hi free usable busy h =
    let checked : check_free s.page_table i size ≡ true =
      (check_free_iff s.page_table i size).1 (λ k lo' hi'. absurd (omega arith)) in
    let at =
      Outcome-at i (allocate-Outcome size perms pid s) lo hi
        (stops_at-true s.page_table size i free usable checked)
        (λ k lo' hi'. stops_at-false s.page_table size k (busy k lo' hi')) in
    (omega (arith, at.0), at.1.entries j h)
