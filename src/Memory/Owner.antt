-- ===== src/Memory/Owner.antt =====
-- `kfree_pid`: what the end of a process gives back.
use l_ost.Common.{
  ℕ, zero, suc, ◌+◌, ◌-◌, ◌*◌, ◌/◌, ◌^◌, ◌≤◌, ◌<◌, ◌≡◌, ◌≢◌, refl, ◌∙◌, inl, inr, true, false, ◌&&◌,
  some, arith, ℕ_discrete, ltb, leb, ◌==◌, if◌then◌else◌, u32,
}
use l_ost.Memory.{
  MmapEntry, PageEntry, Memory, Table, page_size, first_page, max_pages, empty_entry, set_entry,
  find_head, free_from, free_block, kfree, free_owned, kfree_pid_from, kfree_pid, init_memory,
}
use l_ost.Memory.Init.{init_memory-Initialised}

-- A block of one page, as its own bits tell.
abbrev pub IsSingle : PageEntry → Type 0
IsSingle e = (e.linked_to_next ≡ false) × (e.linked_to_last ≡ false)

find_head-IsSingle : (t : Table) (i : ℕ) → (t i).linked_to_last ≡ false → find_head t i ≡ some i
unfolding find_head
find_head-IsSingle t zero h = rw h
find_head-IsSingle t (suc i) h = rw h

free_block-IsSingle :
    (fuel i ptr : ℕ) (s : Memory)
    → IsSingle (s.page_table i)
    → ptr / page_size ≡ i
    → free_block (suc fuel) ptr s
      ≡ some (record s { page_table = set_entry s.page_table i empty_entry })
unfolding free_block free_from
free_block-IsSingle fuel i ptr s single e =
    rw (e, free_block, find_head-IsSingle s.page_table i single.1, free_block, single.0)

kfree-IsSingle :
    (i : ℕ) (s : Memory)
    → IsSingle (s.page_table i)
    → i < max_pages
    → kfree (u32 (i * page_size)) s
      ≡ some (record s { page_table = set_entry s.page_table i empty_entry })
unfolding kfree
kfree-IsSingle i s single h = free_block-IsSingle (max_pages - 1) i _ s single (omega arith)

-- The entry of page `k` after the pages of `pid` from `i` up to `i + n` are given back.
abbrev pub released : (pid i n k : ℕ) → Table → PageEntry
released pid i n k t = if leb i k && ltb k (i + n) && (t k).pid == pid then empty_entry else t k

free_owned-own :
    (pid i num : ℕ) (s : Memory)
    → (s.page_table i).pid ≡ pid
    → IsSingle (s.page_table i)
    → i < max_pages
    → 0 < num
    → num < 2 ^ 32
    → free_owned pid i num s
      ≡ some (num - 1, record s { page_table = set_entry s.page_table i empty_entry })
unfolding free_owned
free_owned-own pid i num s own single h pos wide =
    let test : ((s.page_table i).pid == pid) ≡ true = ground arith in
    let left : u32 (num + 2 ^ 32 - 1) ≡ num - 1 = omega arith in
    rw (test, free_owned, kfree-IsSingle i s single h, left)

free_owned-other :
    (pid i num : ℕ) (s : Memory)
    → (s.page_table i).pid ≢ pid
    → free_owned pid i num s ≡ some (num, s)
unfolding free_owned
free_owned-other pid i num s other =
    let test : ((s.page_table i).pid == pid) ≡ false = ground arith in rw (test, free_owned)

kfree_pid_from-released :
    (pid n i num : ℕ) (s : Memory)
    → ((k : ℕ) → i ≤ k → k < i + n → (s.page_table k).pid ≡ pid → IsSingle (s.page_table k))
    → i + n ≤ max_pages
    → n < num
    → num < 2 ^ 32
    → (t : Table) × (kfree_pid_from pid n i num s ≡ some (record s { page_table = t }))
      × ((k : ℕ) → t k ≡ released pid i n k s.page_table)
unfolding kfree_pid_from
kfree_pid_from-released pid zero i num s single small more wide =
    (s.page_table, refl, λ k. ground arith)
kfree_pid_from-released pid (suc n) i num s single small more wide =
    elim (ℕ_discrete (s.page_table i).pid pid) [
      | yes own ↦
          let s' : Memory = record s { page_table = set_entry s.page_table i empty_entry } in
          let step =
            free_owned-own pid i num s own (single i (omega arith) (omega arith) own) (omega arith)
              (omega arith) wide in
          let more' : (num - 1 == 0) ≡ false = ground arith in
          let (t, run, at) =
            kfree_pid_from-released pid n (i + 1) (num - 1) s'
              (λ k lo hi e. ground (arith, single k (omega arith) (omega arith))) (omega arith)
              (omega arith) (omega arith) in
          (t, rw (step, kfree_pid_from, more', kfree_pid_from) run, λ k. at k ∙ ground arith)
      | no other ↦
          let more' : (num == 0) ≡ false = ground arith in
          let (t, run, at) =
            kfree_pid_from-released pid n (i + 1) num s
              (λ k lo hi e. single k (omega arith) (omega arith) e) (omega arith) (omega arith)
              wide in
          (
            t,
            rw (free_owned-other pid i num s other, kfree_pid_from, more', kfree_pid_from) run,
            λ k. at k ∙ ground arith,
          )
    ]

-- When every page of `pid` in the table from 1 MiB on is a block of its own, and `num_allocated` is not reached,
-- `kfree_pid` comes back, zeroes exactly the entries of those pages, and changes no other entry.
pub kfree_pid-released :
    (pid num_allocated : ℕ) (s : Memory)
    → ((k : ℕ)
        → first_page ≤ k
        → k < s.page_table_size
        → (s.page_table k).pid ≡ pid
        → IsSingle (s.page_table k))
    → s.page_table_size ≤ max_pages
    → s.page_table_size < num_allocated
    → num_allocated < 2 ^ 32
    → (t : Table) × (kfree_pid pid num_allocated s ≡ some (record s { page_table = t }))
      × ((k : ℕ) → t k ≡ released pid first_page (s.page_table_size - first_page) k s.page_table)
unfolding kfree_pid
kfree_pid-released pid num s single small more wide =
    kfree_pid_from-released pid (s.page_table_size - first_page) first_page num s
      (λ k lo hi. single k lo (omega arith)) (omega arith) (omega arith) wide

-- The entries that `init_memory` withholds carry the process number 1, so the end of process 1 gives
-- them back: afterwards no page of the table from 1 MiB on is in use, the page table's own included.
pub kfree_pid-init_memory :
    (num_allocated : ℕ) (mmap : ℕ → MmapEntry) (mmap_entries : ℕ) (s s' : Memory)
    → s.max_address < 2 ^ 32
    → init_memory mmap mmap_entries s ≡ some s'
    → s'.page_table_size < num_allocated
    → num_allocated < 2 ^ 32
    → (t : Table) × (kfree_pid 1 num_allocated s' ≡ some (record s' { page_table = t }))
      × ((k : ℕ) → first_page ≤ k → k < s'.page_table_size → (t k).used ≡ false)
kfree_pid-init_memory num mmap n s s' top e more wide =
    let (small, done) = init_memory-Initialised mmap n s s' top e in
    let (t, run, at) =
      kfree_pid-released 1 num s'
        (λ k lo hi own. elim (done k hi) [ inl w ↦ ground arith | inr a ↦ ground (arith, a.0) ])
        small more wide in
    (
      t,
      run,
      λ k lo hi. elim (done k hi) [
        | inl w ↦ ground (arith, at k)
        | inr a ↦ ground (arith, at k, a.0)
      ],
    )
