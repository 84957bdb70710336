-- ===== src/Memory/Alloc.antt =====
-- What `kmalloc` and `kumalloc` promise.
use l_ost.Common.{
  ℕ, ◌+◌, ◌-◌, ◌*◌, ◌≤◌, ◌<◌, ◌≡◌, ◌≢◌, refl, ◌⊎◌, inl, inr, true, false, arith, Option-cases, u32,
}
use l_ost.Memory.{
  Memory, Table, page_size, first_page, max_pages, block_entry, stops_at, find_pages, mark_from,
  allocate,
}
use l_ost.Memory.Search.{Found, find_pages-some, find_pages-none}
use l_ost.Memory.Marks.{mark_from-outside, mark_from-inside}

-- Pages `i` to `i + size - 1` of `t` are one block: linked, owned by `pid`.
pub record IsBlock (size permissions pid i : ℕ) (t : Table) : Type 0 where
  pub entries : (j : ℕ) → j < size → t (i + j) ≡ block_entry size permissions pid j

-- Outside the pages `i` to `i + size - 1` the two tables agree.
abbrev pub SameOutside : (size i : ℕ) → Table → Table → Type 0
SameOutside size i t t' = (k : ℕ) → (k < i) ⊎ (i + size ≤ k) → t' k ≡ t k

-- The outcome of an allocation: a block at the first page where the search stops, or nothing.
pub data Outcome (size permissions pid : ℕ) (s : Memory) : ℕ × Memory → Type 0 where
  failed :
      ((j : ℕ) → first_page ≤ j → j < s.page_table_size → stops_at s.page_table size j ≡ false)
      → Outcome size permissions pid s (0, s)
  placed :
      (i : ℕ) (t : Table)
      → first_page ≤ i
      → i < s.page_table_size
      → stops_at s.page_table size i ≡ true
      → ((j : ℕ) → first_page ≤ j → j < i → stops_at s.page_table size j ≡ false)
      → IsBlock size permissions pid i t
      → SameOutside size i s.page_table t
      → t ≡ mark_from size permissions pid i size 0 s.page_table
      → Outcome size permissions pid s (u32 (i * page_size), record s { page_table = t })

mark_from-SameOutside :
    (size permissions pid i : ℕ) (t : Table)
    → SameOutside size i t (mark_from size permissions pid i size 0 t)
mark_from-SameOutside size permissions pid i t k (inl h) =
    (mark_from-outside size permissions pid i size 0 t k).0 (omega arith)
mark_from-SameOutside size permissions pid i t k (inr h) =
    (mark_from-outside size permissions pid i size 0 t k).1 (omega arith)

-- An allocation either fails with the null pointer and an unchanged memory, where the search stops
-- at no page of the table from 1 MiB on, or it returns the address of the first page at which the
-- search stops, links that page and those behind it into one block, and changes no other entry.
pub allocate-Outcome :
    (size permissions pid : ℕ) (s : Memory)
    → Outcome size permissions pid s (allocate size permissions pid s)
unfolding allocate
allocate-Outcome size permissions pid s =
    elim (Option-cases (find_pages s.page_table size (s.page_table_size - first_page) first_page)) [
      | inl e ↦
          rw (e, allocate)
            (failed λ j lo hi. find_pages-none s.page_table size _ first_page e j lo (omega arith))
      | inr (i, e) ↦
          let f : Found s.page_table size first_page (s.page_table_size - first_page) i =
            find_pages-some s.page_table size _ first_page i e in
          let lo = f.from in
          let hi = f.below in
          rw (e, allocate)
            (placed i (mark_from size permissions pid i size 0 s.page_table) lo (omega arith)
              f.stops f.first
              (record {
                entries = λ j h.
                    mark_from-inside size permissions pid i size 0 _ j (omega arith) (omega arith);
              })
              (mark_from-SameOutside size permissions pid i s.page_table) refl)
    ]

-- A successful allocation `r`: the block stands at the page of the address.
pub record Placed (size permissions pid : ℕ) (s : Memory) (r : ℕ × Memory) : Type 0 where
  pub page : ℕ
  pub address : r.0 ≡ page * page_size
  pub from : first_page ≤ page
  pub below : page < s.page_table_size
  pub stops : stops_at s.page_table size page ≡ true
  pub first : (j : ℕ) → first_page ≤ j → j < page → stops_at s.page_table size j ≡ false
  pub block : IsBlock size permissions pid page r.1.page_table
  pub same : SameOutside size page s.page_table r.1.page_table
  pub marked : r.1.page_table ≡ mark_from size permissions pid page size 0 s.page_table
  pub rest : r.1 ≡ record s { page_table = r.1.page_table }

Outcome-Placed :
    {size permissions pid : ℕ} {s : Memory} {r : ℕ × Memory}
    → Outcome size permissions pid s r
    → s.page_table_size ≤ max_pages
    → r.0 ≢ 0
    → Placed size permissions pid s r
Outcome-Placed (failed h) small ok = absurd (ok refl)
Outcome-Placed (placed i t lo hi stops first block same marked) small ok = record {
  page = i;
  address = omega arith;
  from = lo;
  below = hi;
  stops = stops;
  first = first;
  block = block;
  same = same;
  marked = marked;
  rest = refl;
}

pub allocate-Placed :
    (size permissions pid : ℕ) (s : Memory)
    → s.page_table_size ≤ max_pages
    → (allocate size permissions pid s).0 ≢ 0
    → Placed size permissions pid s (allocate size permissions pid s)
allocate-Placed size permissions pid s = Outcome-Placed (allocate-Outcome size permissions pid s)
