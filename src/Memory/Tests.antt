-- ===== src/Memory/Tests.antt =====
-- The page allocator on a table of 260 pages, and its theorems at that table.
use l_ost.Common.{
  ℕ, zero, suc, ◌+◌, ◌*◌, ◌/◌, ◌≤◌, ◌<◌, ◌≡◌, ◌≢◌, refl, true, false, some, arith, ltb, ◌==◌,
  if◌then◌else◌,
}
use l_ost.Memory.{
  MmapEntry, Memory, Table, page_size, first_page, empty_entry, set_entry, withheld_entry,
  available_entry, block_entry, kfree, kfree_pid, check_sorted_from, check_sorted, scan_limits,
  next_ent, last_max, withheld, init_page, init_pages, init_memory, check_free_from, check_free,
  stops_at, find_pages, mark_from, allocate, kmalloc, kumalloc, get_used_pages,
}
use l_ost.Memory.Alloc.{IsBlock, SameOutside, Outcome, allocate-Outcome}
use l_ost.Memory.Pages.{kfree-kumalloc, kmalloc-page, kumalloc-overwrites}
use l_ost.Memory.Owner.{released, kfree_pid-released}

-- Usable memory up to 0x104000, in one region.
abbrev region : ℕ → MmapEntry
region i = record {
  base_high = 0;
  base_low = 0x104000 * i;
  length_high = 0;
  length_low = if i == 0 then 0x104000 else 0;
  attributes = 0;
  region_type = 1;
}

abbrev cold : Memory
cold = record {
  max_address = 0;
  total_usable = 0;
  page_table_size = 0;
  page_table = λ k. empty_entry;
}

-- Pages 0 to 256 are withheld, pages 257 to 259 are available.
abbrev board_table : Table
board_table k =
    if ltb k 257 then withheld_entry else if ltb k 260 then available_entry else empty_entry

abbrev board : Memory
board = record {
  max_address = 0x104000;
  total_usable = 0;
  page_table_size = 260;
  page_table = board_table;
}

kmalloc_runs : (kmalloc 2 6 board).0 ≡ 257 * 4096
unfolding kmalloc allocate find_pages stops_at check_free check_free_from mark_from
kmalloc_runs = refl

kmalloc_fails : (kmalloc 1 6 (record board { page_table = λ k. withheld_entry })).0 ≡ 0
unfolding kmalloc allocate find_pages stops_at check_free check_free_from mark_from
kmalloc_fails = refl

kmalloc_ok : (kmalloc 1 6 board).0 ≢ 0
unfolding kmalloc allocate find_pages stops_at check_free check_free_from mark_from
kmalloc_ok = omega arith

kumalloc_ok : (kumalloc 2 6 3 board).0 ≢ 0
unfolding kumalloc allocate find_pages stops_at check_free check_free_from mark_from
kumalloc_ok = omega arith

allocate-Outcome_example : Outcome 2 6 3 board (allocate 2 6 3 board)
allocate-Outcome_example = allocate-Outcome 2 6 3 board

kfree-kumalloc_example :
    (t : Table) × (kfree (kumalloc 2 6 3 board).0 (kumalloc 2 6 3 board).1
      ≡ some (record board { page_table = t }))
    × SameOutside 2 ((kumalloc 2 6 3 board).0 / page_size) board_table t
    × ((k : ℕ)
        → (kumalloc 2 6 3 board).0 / page_size ≤ k
        → k < (kumalloc 2 6 3 board).0 / page_size + 2
        → t k ≡ empty_entry)
kfree-kumalloc_example =
    kfree-kumalloc 2 6 3 board (omega arith) (omega arith) (omega arith) kumalloc_ok

init_small : (s' : Memory) × (init_memory region 1 cold ≡ some s')
unfolding init_memory check_sorted check_sorted_from
init_small = (
  init_pages region ((scan_limits region 1 0 cold).max_address / page_size) 0 0
      (record (scan_limits region 1 0 cold) {
        page_table_size = (scan_limits region 1 0 cold).max_address / page_size;
      }),
  refl,
)

kmalloc-page_example :
    let (addr, s') = kmalloc 1 6 board in
    ((board_table (addr / page_size)).used ≡ false)
    × ((s'.page_table (addr / page_size)).used ≡ true)
    × (first_page ≤ addr / page_size)
    × (addr / page_size < 260)
    × ((k : ℕ) → k ≢ addr / page_size → s'.page_table k ≡ board_table k)
    × (get_used_pages s' ≡ get_used_pages board + 1)
kmalloc-page_example = kmalloc-page 6 board (omega arith) kmalloc_ok

-- Page 257 is available and page 258 is in use.
abbrev holed : Memory
holed = record board { page_table = set_entry board_table 258 (block_entry 1 6 7 0) }

holed_busy : (k : ℕ) → first_page ≤ k → k < 257 → (holed.page_table k).used ≡ true
holed_busy k lo hi = ground arith

kumalloc-overwrites_example :
    ((kumalloc 2 6 3 holed).0 ≡ 257 * page_size)
    × ((kumalloc 2 6 3 holed).1.page_table (257 + 1) ≡ block_entry 2 6 3 1)
kumalloc-overwrites_example =
    kumalloc-overwrites 2 6 3 257 1 holed (omega arith) (omega arith) (omega arith) (omega arith)
      refl refl holed_busy (omega arith)

-- A block of two pages, at 258.
abbrev paired : Memory
paired = record board {
  page_table =
      set_entry (set_entry board_table 258 (block_entry 2 6 0 0)) 259 (block_entry 2 6 0 1);
}

paired-IsBlock : IsBlock 2 6 0 258 paired.page_table
paired-IsBlock = record { entries = at }
  where
    at : (j : ℕ) → j < 2 → paired.page_table (258 + j) ≡ block_entry 2 6 0 j
    at zero h = refl
    at (suc zero) h = refl
    at (suc (suc j)) h = absurd (omega arith)

kfree_pid-released_example :
    (t : Table) × (kfree_pid 7 0xffffffff holed ≡ some (record holed { page_table = t }))
    × ((k : ℕ) → t k ≡ released 7 first_page 4 k holed.page_table)
kfree_pid-released_example =
    kfree_pid-released 7 0xffffffff holed (λ k lo hi own. ground arith) (omega arith) (omega arith)
      (omega arith)

init_size : init_small.0.page_table_size < 0xffffffff
unfolding init_small init_pages init_page scan_limits withheld next_ent last_max
init_size = omega arith
