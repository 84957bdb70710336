-- ===== src/Memory/Count.antt =====
-- The page counts of `get_used_pages` and `get_free_pages`.
use l_ost.Common.{ℕ, zero, suc, ◌+◌, ◌^◌, ◌≤◌, ◌<◌, ◌≡◌, ◌≢◌, refl, sym, ◌∙◌, ap, arith, ℕ_discrete}
use l_ost.Memory.{
  Memory, Table, PageEntry, block_entry, set_entry, weight, count_used, get_used_pages,
  get_free_pages, mark_from,
}

pub count_used-le : (t : Table) (n i : ℕ) → count_used t n i ≤ n
unfolding count_used
count_used-le t zero i = omega arith
count_used-le t (suc n) i = ground (arith, count_used-le t n (i + 1))

-- Tables that weigh the same at every index count the same.
pub count_used-congr :
    (t u : Table) (n i : ℕ)
    → ((k : ℕ) → i ≤ k → k < i + n → weight (t k) ≡ weight (u k))
    → count_used t n i ≡ count_used u n i
unfolding count_used
count_used-congr t u zero i h = refl
count_used-congr t u (suc n) i h = omega (
  arith,
  h i (omega arith) (omega arith),
  count_used-congr t u n (i + 1) λ k lo hi. h k (omega arith) (omega arith),
)

weight-set_entry_self : (t : Table) (e : PageEntry) (k : ℕ) → weight (set_entry t k e k) ≡ weight e
weight-set_entry_self t e k = ap weight {x = set_entry t k e k} {y = e} (ground arith)

weight-set_entry_ne :
    (t : Table) (e : PageEntry) (k j : ℕ) → k ≢ j → weight (set_entry t k e j) ≡ weight (t j)
weight-set_entry_ne t e k j h = ap weight {x = set_entry t k e j} {y = t j} (ground arith)

-- A write inside the counted range changes the count by the difference of the weights.
pub count_used-set_entry :
    (t : Table) (e : PageEntry) (k n i : ℕ)
    → i ≤ k
    → k < i + n
    → count_used (set_entry t k e) n i + weight (t k) ≡ count_used t n i + weight e
unfolding count_used
count_used-set_entry t e k zero i lo hi = absurd (omega arith)
count_used-set_entry t e k (suc n) i lo hi = elim (ℕ_discrete i k) [
  | yes p ↦
      let same : count_used (set_entry t k e) n (i + 1) ≡ count_used t n (i + 1) =
        count_used-congr (set_entry t k e) t n (i + 1)
          (λ j lo' hi'. weight-set_entry_ne t e k j (omega arith)) in
      let here : weight (set_entry t k e i) ≡ weight e =
        ap (λ j. weight (set_entry t k e j)) p ∙ weight-set_entry_self t e k in
      let there : weight (t i) ≡ weight (t k) = ap (λ j. weight (t j)) p in
      omega (arith, same, here, there)
  | no ne ↦ omega (
    arith,
    weight-set_entry_ne t e k i (λ p. ne (sym p)),
    count_used-set_entry t e k n (i + 1) (omega arith) (omega arith),
  )
]

-- Marking `m` pages that did not count, inside the counted range, adds `m`.
pub count_used-mark_from :
    (size permissions pid i m j : ℕ) (t : Table) (n a : ℕ)
    → a ≤ i + j
    → i + j + m ≤ a + n
    → ((k : ℕ) → i + j ≤ k → k < i + j + m → weight (t k) ≡ 0)
    → count_used (mark_from size permissions pid i m j t) n a ≡ count_used t n a + m
unfolding mark_from
count_used-mark_from size permissions pid i zero j t n a lo hi clear = omega arith
count_used-mark_from size permissions pid i (suc m) j t n a lo hi clear =
    let entry = block_entry size permissions pid j in
    omega (
      arith,
      clear (i + j) (omega arith) (omega arith),
      count_used-set_entry t entry (i + j) n a (omega arith) (omega arith),
      count_used-mark_from size permissions pid i m (j + 1) (set_entry t (i + j) entry) n a
          (omega arith) (omega arith)
          λ k lo' hi'.
            weight-set_entry_ne t entry (i + j) k (omega arith)
            ∙ clear k (omega arith) (omega arith),
    )

-- Used and free pages make up the table, and neither count exceeds it.
pub used-add-free :
    (s : Memory)
    → s.page_table_size < 2 ^ 32
    → (get_used_pages s + get_free_pages s ≡ s.page_table_size)
      × (get_used_pages s ≤ s.page_table_size)
unfolding get_free_pages get_used_pages
used-add-free s h =
    let le = count_used-le s.page_table s.page_table_size 0 in (omega (arith, le), le)
