-- ===== src/Memory.antt =====
-- The page allocator: kernel/memory/mmanager.c and the page and map records of mmanager.h.
-- `page_table` is raw memory, so it is a function on all indices: those from `page_table_size` on
-- stand for what lies behind the table. `none` is a run that does not come back or leaves the table.
pub mod Search
pub mod Marks
pub mod Alloc
pub mod Free
pub mod Count
pub mod Pages
pub mod Init
pub mod Owner
pub mod Filling
mod Tests
use l_ost.Common.{
  ℕ, zero, suc, ◌+◌, ◌-◌, ◌*◌, ◌/◌, ◌^◌, Bool, true, false, ◌&&◌, ◌||◌, not, Option, none, some,
  ltb, ◌==◌, if◌then◌else◌, u8, u32, mask, bit_field, slt,
}

-- `mmap_entry_t`.
pub record MmapEntry : Type 0 where
  pub base_high : ℕ
  pub base_low : ℕ
  pub length_high : ℕ
  pub length_low : ℕ
  pub attributes : ℕ
  pub region_type : ℕ

-- `page_entry_t`: a byte and eight one-bit fields.
pub record PageEntry : Type 0 where
  pub pid : ℕ
  pub used : Bool
  pub unusable : Bool
  pub linked_to_next : Bool
  pub linked_to_last : Bool
  pub read : Bool
  pub write : Bool
  pub execute : Bool
  pub reserved : Bool

abbrev pub Table : Type 0
Table = ℕ → PageEntry

-- The file's variables.
pub record Memory : Type 0 where
  pub max_address : ℕ
  pub total_usable : ℕ
  pub page_table_size : ℕ
  pub page_table : Table

abbrev pub page_size : ℕ
page_size = 4096

-- The index of the page at 1 MiB, where every search begins.
abbrev pub first_page : ℕ
first_page = 256

-- The number of pages in a 32-bit address space, which bounds every walk along a block.
abbrev pub max_pages : ℕ
max_pages = 2 ^ 20

-- The positional initialiser `(page_entry_t){a, b, c, d, e, f, g, h}`: eight values for nine
-- fields, in the order of declaration. The last field is zero.
abbrev pub positional : (a b c d e f g h : ℕ) → PageEntry
positional a b c d e f g h = record {
  pid = u8 a;
  used = bit_field b;
  unusable = bit_field c;
  linked_to_next = bit_field d;
  linked_to_last = bit_field e;
  read = bit_field f;
  write = bit_field g;
  execute = bit_field h;
  reserved = false;
}

-- `(page_entry_t){0}`.
abbrev pub empty_entry : PageEntry
empty_entry = positional 0 0 0 0 0 0 0 0

-- What `init_memory` writes for a page that it withholds, and for one that it hands out.
abbrev pub withheld_entry : PageEntry
withheld_entry = positional 1 1 0 0 0 0 0 1

abbrev pub available_entry : PageEntry
available_entry = positional 0 0 0 0 1 1 1 0

-- `page_table[i] = e`.
abbrev pub set_entry : Table → ℕ → PageEntry → Table
set_entry t i e j = if j == i then e else t j

-- `reserve`: the loop runs from the page of the address up to the page of index `pages`.
pub reserve_from : ℕ → ℕ → ℕ → Table → Table
reserve_from permissions zero i t = t
reserve_from permissions (suc n) i t = reserve_from permissions n (i + 1) (
    set_entry t i
      (positional 1 1 0 0 (mask permissions 4) (mask permissions 2) (mask permissions 1) 1))

pub reserve : (address pages permissions : ℕ) → Memory → Memory
unfolding reserve_from
reserve address pages permissions s = record s {
  page_table =
      reserve_from permissions (pages - address / page_size) (address / page_size) s.page_table;
}

-- `base_low + length_low` of an entry, as an `unsigned int`.
abbrev pub limit : MmapEntry → ℕ
limit e = u32 (e.base_low + e.length_low)

-- The loop of `check_sorted`, from index `i` on.
pub check_sorted_from : (ℕ → MmapEntry) → ℕ → ℕ → ℕ
check_sorted_from mmap zero i = 0
check_sorted_from mmap (suc n) i =
    if ltb (mmap i).base_low (limit (mmap (i - 1))) then i else check_sorted_from mmap n (i + 1)

pub check_sorted : (ℕ → MmapEntry) → ℕ → ℕ
unfolding check_sorted_from
check_sorted mmap mmap_entries = check_sorted_from mmap (mmap_entries - 1 - 1) 1

-- The first loop of `init_memory`.
pub scan_limits : (ℕ → MmapEntry) → ℕ → ℕ → Memory → Memory
scan_limits mmap zero i s = s
scan_limits mmap (suc n) i s =
    scan_limits mmap n (i + 1)
      (record s { max_address = top; total_usable = u32 (top + 2 ^ 32 - 256) })
  where
    top : ℕ
    top = if ltb s.max_address (limit (mmap i)) then limit (mmap i) else s.max_address

-- The entry that the second loop looks at for page `i`, after its `current_ent++`.
pub next_ent : (ℕ → MmapEntry) → ℕ → ℕ → ℕ
next_ent mmap i current_ent =
    if slt (i * page_size) (limit (mmap current_ent)) then current_ent else current_ent + 1

-- `last_entry_max_address`, which is computed before `current_ent++`.
pub last_max : (ℕ → MmapEntry) → ℕ → ℕ
last_max mmap current_ent =
    if current_ent == 0 then (mmap current_ent).base_low else limit (mmap current_ent)

-- The condition under which the second loop withholds page `i`.
pub withheld : (ℕ → MmapEntry) → ℕ → ℕ → ℕ → Bool
withheld mmap table_size i current_ent =
    (ltb (i * page_size) (mmap (next_ent mmap i current_ent)).base_low
      && slt (last_max mmap current_ent) (i * page_size))
    || ltb (i * page_size) (u32 (0x100000 + table_size * 2))
    || not ((mmap (next_ent mmap i current_ent)).region_type == 1)

-- One round of the second loop of `init_memory`.
pub init_page : (ℕ → MmapEntry) → ℕ → ℕ → Memory → Memory
init_page mmap i current_ent s =
    if withheld mmap s.page_table_size i current_ent
    then record s {
      page_table = set_entry s.page_table i withheld_entry;
      total_usable = u32 (s.total_usable + 2 ^ 32 - page_size);
    }
    else record s { page_table = set_entry s.page_table i available_entry }

-- The second loop, from page `i` on.
pub init_pages : (ℕ → MmapEntry) → ℕ → ℕ → ℕ → Memory → Memory
init_pages mmap zero i current_ent s = s
init_pages mmap (suc n) i current_ent s =
    init_pages mmap n (i + 1) (next_ent mmap i current_ent) (init_page mmap i current_ent s)

-- `none`: `sort_mmap` loops for ever on a map that `check_sorted` rejects.
pub init_memory : (ℕ → MmapEntry) → ℕ → Memory → Option Memory
init_memory mmap mmap_entries s =
    let scanned = scan_limits mmap mmap_entries 0 s in
    let pages = scanned.max_address / page_size in
    if check_sorted mmap mmap_entries == 0
    then some (init_pages mmap pages 0 0 (record scanned { page_table_size = pages }))
    else none

-- The loop of `check_free`, from index `i` on.
unfoldable pub check_free_from : Table → ℕ → ℕ → Bool
check_free_from t zero i = true
check_free_from t (suc n) i =
    if (t i).used || (t i).unusable || (t i).reserved then false else check_free_from t n (i + 1)

-- Its condition `i + start < start + size` is `i < size`, with `i` starting at `start`.
unfoldable pub check_free : Table → ℕ → ℕ → Bool
unfolding check_free_from
check_free t start size = check_free_from t (size - start) start

-- The condition under which the search of `kmalloc` stops at page `i`.
unfoldable pub stops_at : Table → ℕ → ℕ → Bool
unfolding check_free
stops_at t size i = not (t i).used && not (t i).unusable && check_free t i size

-- The outer loop of `kmalloc` and `kumalloc`, from page `i` on.
unfoldable pub find_pages : Table → ℕ → ℕ → ℕ → Option ℕ
find_pages t size zero i = none
find_pages t size (suc n) i = if stops_at t size i then some i else find_pages t size n (i + 1)

-- The entry that is written for page `j` of a block of `size`.
abbrev pub block_entry : (size permissions pid j : ℕ) → PageEntry
block_entry size permissions pid j = record {
  pid = u8 pid;
  used = true;
  unusable = false;
  linked_to_next = ltb j (size - 1);
  linked_to_last = ltb 0 j;
  read = bit_field (mask permissions 4);
  write = bit_field (mask permissions 2);
  execute = bit_field (mask permissions 1);
  reserved = false;
}

-- The inner loop: block page `j` is page `i + j`.
unfoldable pub mark_from : (size permissions pid i : ℕ) → ℕ → ℕ → Table → Table
mark_from size permissions pid i zero j t = t
mark_from size permissions pid i (suc n) j t =
    mark_from size permissions pid i n (j + 1)
      (set_entry t (i + j) (block_entry size permissions pid j))

-- The body of `kmalloc` and `kumalloc`, which differ in the owner. The result is an address, and
-- 0 where the search fails. A negative `size` acts as 0.
unfoldable pub allocate : (size permissions pid : ℕ) → Memory → ℕ × Memory
unfolding stops_at find_pages mark_from
allocate size permissions pid s =
    elim (find_pages s.page_table size (s.page_table_size - first_page) first_page) [
      | none ↦ (0, s)
      | some i ↦ (
        u32 (i * page_size),
        record s { page_table = mark_from size permissions pid i size 0 s.page_table },
      )
    ]

unfoldable pub kmalloc : (size permissions : ℕ) → Memory → ℕ × Memory
kmalloc size permissions = allocate size permissions 0

unfoldable pub kumalloc : (size_pgs perms pid : ℕ) → Memory → ℕ × Memory
kumalloc size_pgs perms pid = allocate size_pgs perms pid

-- `while(page_table[i].linked_to_last) i--;`. `none`: the walk leaves the table at its start.
pub find_head : Table → ℕ → Option ℕ
find_head t zero = if (t zero).linked_to_last then none else some zero
find_head t (suc i) = if (t (suc i)).linked_to_last then find_head t i else some (suc i)

-- The `do … while(last.linked_to_next)` of `kfree`.
pub free_from : ℕ → ℕ → Table → Option Table
free_from zero i t = none
free_from (suc fuel) i t =
    let rest = free_from fuel (i + 1) (set_entry t i empty_entry) in
    if (t i).linked_to_next then rest else some (set_entry t i empty_entry)

-- `kfree` with a bound on the length of the block.
pub free_block : (fuel ptr : ℕ) → Memory → Option Memory
free_block fuel ptr s = elim (find_head s.page_table (ptr / page_size)) [
  | none ↦ none
  | some i ↦ elim (free_from fuel i s.page_table) [
    | none ↦ none
    | some t ↦ some (record s { page_table = t })
  ]
]

unfoldable pub kfree : ℕ → Memory → Option Memory
kfree ptr s = free_block max_pages ptr s

-- What one entry adds to the count of `get_used_pages`.
abbrev pub weight : PageEntry → ℕ
weight e = if e.used && not (e.unusable || e.reserved) then 1 else 0

-- The loop of `get_used_pages`, from page `i` on.
pub count_used : Table → ℕ → ℕ → ℕ
count_used t zero i = 0
count_used t (suc n) i = weight (t i) + count_used t n (i + 1)

unfoldable pub get_used_pages : Memory → ℕ
unfolding count_used
get_used_pages s = count_used s.page_table s.page_table_size 0

unfoldable pub get_free_pages : Memory → ℕ
unfolding get_used_pages
get_free_pages s = u32 (s.page_table_size + 2 ^ 32 - get_used_pages s)

-- One round of `kfree_pid` before its second test: `num_allocated` and the memory afterwards.
pub free_owned : (pid i num_allocated : ℕ) → Memory → Option (ℕ × Memory)
unfolding kfree
free_owned pid i num_allocated s =
    if (s.page_table i).pid == pid
    then elim (kfree (u32 (i * page_size)) s) [
      | none ↦ none
      | some s' ↦ some (u32 (num_allocated + 2 ^ 32 - 1), s')
    ]
    else some (num_allocated, s)

pub kfree_pid_from : (pid : ℕ) → ℕ → (i num_allocated : ℕ) → Memory → Option Memory
kfree_pid_from pid zero i num_allocated s = some s
kfree_pid_from pid (suc n) i num_allocated s = elim (free_owned pid i num_allocated s) [
  | none ↦ none
  | some (left, s') ↦ elim (left == 0) [
    | true ↦ some s'
    | false ↦ kfree_pid_from pid n (i + 1) left s'
  ]
]

unfoldable pub kfree_pid : (pid num_allocated : ℕ) → Memory → Option Memory
unfolding free_owned kfree_pid_from
kfree_pid pid num_allocated s =
    kfree_pid_from pid (s.page_table_size - first_page) first_page num_allocated s
