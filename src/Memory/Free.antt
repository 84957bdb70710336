-- ===== src/Memory/Free.antt =====
-- What `kfree` does to a block.
use l_ost.Common.{
  ℕ, zero, suc, ◌+◌, ◌-◌, ◌/◌, ◌≤◌, ◌<◌, ◌≡◌, refl, ◌∙◌, ◌⊎◌, inl, inr, ap, true, false, some,
  arith, ℕ_discrete, ltb,
}
use l_ost.Memory.{
  Memory, Table, page_size, max_pages, empty_entry, set_entry, find_head, free_from, free_block,
  kfree,
}
use l_ost.Memory.Alloc.{IsBlock}

-- The table after `n` entries from index `i` on are zeroed.
unfoldable pub clear_from : ℕ → ℕ → Table → Table
clear_from zero i t = t
clear_from (suc n) i t = clear_from n (i + 1) (set_entry t i empty_entry)

pub clear_from-outside :
    (n i : ℕ) (t : Table) (k : ℕ) → (k < i) ⊎ (i + n ≤ k) → clear_from n i t k ≡ t k
unfolding clear_from
clear_from-outside zero i t k h = refl
clear_from-outside (suc n) i t k (inl h) =
    clear_from-outside n (i + 1) (set_entry t i empty_entry) k (inl (omega arith)) ∙ ground arith
clear_from-outside (suc n) i t k (inr h) =
    clear_from-outside n (i + 1) (set_entry t i empty_entry) k (inr (omega arith)) ∙ ground arith

pub clear_from-inside :
    (n i : ℕ) (t : Table) (k : ℕ) → i ≤ k → k < i + n → clear_from n i t k ≡ empty_entry
unfolding clear_from
clear_from-inside zero i t k lo hi = absurd (omega arith)
clear_from-inside (suc n) i t k lo hi = elim (ℕ_discrete i k) [
  | yes e ↦
      clear_from-outside n (i + 1) (set_entry t i empty_entry) k (inl (omega arith)) ∙ ground arith
  | no ne ↦ clear_from-inside n (i + 1) (set_entry t i empty_entry) k (omega arith) (omega arith)
]

-- The `n` entries from index `i` on are linked forwards, and the last of them to nothing.
abbrev Chain : ℕ → ℕ → Table → Type 0
Chain n i t = (j : ℕ) → j < n → (t (i + j)).linked_to_next ≡ ltb j (n - 1)

free_from-Chain :
    (fuel n i : ℕ) (t : Table)
    → 0 < n
    → n ≤ fuel
    → Chain n i t
    → free_from fuel i t ≡ some (clear_from n i t)
unfolding free_from clear_from
free_from-Chain zero n i t pos enough c = absurd (omega arith)
free_from-Chain (suc fuel) zero i t pos enough c = absurd (omega arith)
free_from-Chain (suc fuel) (suc zero) i t pos enough c =
    let last : (t i).linked_to_next ≡ false = ground (arith, c 0) in rw last
free_from-Chain (suc fuel) (suc (suc n)) i t pos enough c =
    let more : (t i).linked_to_next ≡ true = ground (arith, c 0) in
    rw more (
      free_from-Chain fuel (suc n) (i + 1) (set_entry t i empty_entry) (omega arith) (omega arith)
        λ j h. ground (arith, c (j + 1)))

find_head-block :
    (size permissions pid i : ℕ) (t : Table)
    → IsBlock size permissions pid i t
    → (n k : ℕ) → n ≡ i + k
    → k < size
    → find_head t n ≡ some i
unfolding find_head
find_head-block size permissions pid i t b zero k e h = ground (arith, b.entries 0)
find_head-block size permissions pid i t b (suc n) zero e h = ground (arith, b.entries 0)
find_head-block size permissions pid i t b (suc n) (suc k) e h =
    ground (arith, b.entries (suc k), find_head-block size permissions pid i t b n k)

block-Chain :
    (size permissions pid i : ℕ) (t : Table) → IsBlock size permissions pid i t → Chain size i t
block-Chain size permissions pid i t b j h = ap (λ e. e.linked_to_next) (b.entries j h)

free_block-block :
    (fuel size permissions pid i k ptr : ℕ) (s : Memory)
    → IsBlock size permissions pid i s.page_table
    → size ≤ fuel
    → k < size
    → ptr / page_size ≡ i + k
    → free_block fuel ptr s ≡ some (record s { page_table = clear_from size i s.page_table })
unfolding free_block
free_block-block fuel size permissions pid i k ptr s b small h e = rw (
  find_head-block size permissions pid i s.page_table b (ptr / page_size) k e h,
  free_block,
  free_from-Chain fuel size i s.page_table (omega arith) small
      (block-Chain size permissions pid i s.page_table b),
)

-- `kfree` of any address inside a block of at most `max_pages` pages comes back, zeroes every entry
-- of that block, from its first page to its last, and changes no other entry.
pub kfree-block :
    (size permissions pid i k ptr : ℕ) (s : Memory)
    → IsBlock size permissions pid i s.page_table
    → size ≤ max_pages
    → k < size
    → ptr / page_size ≡ i + k
    → kfree ptr s ≡ some (record s { page_table = clear_from size i s.page_table })
unfolding kfree
kfree-block = free_block-block max_pages
