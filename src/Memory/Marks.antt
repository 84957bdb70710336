-- ===== src/Memory/Marks.antt =====
-- What the marking loop of `kmalloc` and `kumalloc` leaves in the table.
use l_ost.Common.{ℕ, zero, suc, ◌+◌, ◌≤◌, ◌<◌, ◌≡◌, refl, ◌∙◌, arith, ℕ_discrete}
use l_ost.Memory.{Table, block_entry, set_entry, mark_from}

module _ (size permissions pid i : ℕ) where
  pub mark_from-outside :
      (n j : ℕ) (t : Table) (k : ℕ)
      → (k < i + j → mark_from size permissions pid i n j t k ≡ t k)
        × (i + j + n ≤ k → mark_from size permissions pid i n j t k ≡ t k)
  unfolding mark_from
  mark_from-outside zero j t k = (λ h. refl, λ h. refl)
  mark_from-outside (suc n) j t k =
      let rest =
        mark_from-outside n (j + 1) (set_entry t (i + j) (block_entry size permissions pid j)) k in
      (λ h. rest.0 (omega arith) ∙ ground arith, λ h. rest.1 (omega arith) ∙ ground arith)

  pub mark_from-inside :
      (n j : ℕ) (t : Table) (k : ℕ)
      → j ≤ k
      → k < j + n
      → mark_from size permissions pid i n j t (i + k) ≡ block_entry size permissions pid k
  unfolding mark_from
  mark_from-inside zero j t k lo hi = absurd (omega arith)
  mark_from-inside (suc n) j t k lo hi = elim (ℕ_discrete j k) [
    | yes e ↦
        (mark_from-outside n (j + 1) (set_entry t (i + j) (block_entry size permissions pid j))
            (i + k)).0
          (omega arith)
        ∙ rw (← e) (ground arith)
    | no ne ↦
        mark_from-inside n (j + 1) (set_entry t (i + j) (block_entry size permissions pid j)) k
          (omega arith) (omega arith)
  ]
