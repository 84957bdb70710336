-- ===== src/Text/Copy.antt =====
-- `kmemcpy` and `kmemset`.
use l_ost.Common.{
  ℕ, zero, suc, ◌+◌, ◌*◌, ◌/◌, ◌≤◌, ◌<◌, ◌≡◌, refl, ◌∙◌, ◌⊎◌, inl, inr, arith, ℕ_discrete, u8,
}
use l_ost.Text.{Bytes, store, memcpy_from, kmemcpy, memset_from, kmemset}

memcpy_from-outside :
    (s d n i : ℕ) (m : Bytes) (a : ℕ)
    → (a < d + i) ⊎ (d + i + n ≤ a)
    → memcpy_from s d n i m a ≡ m a
unfolding memcpy_from
memcpy_from-outside s d zero i m a h = refl
memcpy_from-outside s d (suc n) i m a (inl h) =
    memcpy_from-outside s d n (i + 1) (store m (d + i) (m (s + i))) a (inl (omega arith))
    ∙ ground arith
memcpy_from-outside s d (suc n) i m a (inr h) =
    memcpy_from-outside s d n (i + 1) (store m (d + i) (m (s + i))) a (inr (omega arith))
    ∙ ground arith

-- Going forwards, the loop reads a byte before it writes it if the target does not begin inside
-- the source.
memcpy_from-inside :
    (s d n i : ℕ) (m : Bytes) (k : ℕ)
    → (d ≤ s) ⊎ (s + i + n ≤ d + i)
    → i ≤ k
    → k < i + n
    → memcpy_from s d n i m (d + k) ≡ m (s + k)
unfolding memcpy_from
memcpy_from-inside s d zero i m k apart lo hi = absurd (omega arith)
memcpy_from-inside s d (suc n) i m k apart lo hi = elim (ℕ_discrete i k) [
  | yes e ↦
      memcpy_from-outside s d n (i + 1) (store m (d + i) (m (s + i))) (d + k) (inl (omega arith))
      ∙ rw (← e) (ground arith)
  | no ne ↦
      memcpy_from-inside s d n (i + 1) (store m (d + i) (m (s + i))) k
        (elim apart [ inl h ↦ inl h | inr h ↦ inr (omega arith) ]) (omega arith) (omega arith)
      ∙ ground arith
]

-- `kmemcpy` copies its range and writes nowhere else, when the target begins at or before the
-- source or at or behind its end; the two may overlap in the first case.
pub kmemcpy_lem :
    (s d bytes : ℕ) (m : Bytes)
    → (d ≤ s) ⊎ (s + bytes ≤ d)
    → ((k : ℕ) → k < bytes → kmemcpy s d bytes m (d + k) ≡ m (s + k))
      × ((a : ℕ) → (a < d) ⊎ (d + bytes ≤ a) → kmemcpy s d bytes m a ≡ m a)
unfolding kmemcpy
kmemcpy_lem s d bytes m apart = (
  λ k h.
      memcpy_from-inside s d bytes 0 m k (elim apart [ inl e ↦ inl e | inr e ↦ inr (omega arith) ])
        (omega arith) (omega arith),
  λ a h.
      memcpy_from-outside s d bytes 0 m a
        (elim h [ inl e ↦ inl (omega arith) | inr e ↦ inr (omega arith) ]),
)

memset_from-outside :
    (d val n i : ℕ) (m : Bytes) (a : ℕ)
    → (a < d + 2 * i) ⊎ (d + 2 * (i + n) ≤ a)
    → memset_from d val n i m a ≡ m a
unfolding memset_from
memset_from-outside d val zero i m a h = refl
memset_from-outside d val (suc n) i m a h =
    memset_from-outside d val n (i + 1)
      (store (store m (d + 2 * i) (u8 val)) (d + 2 * i + 1) (u8 (val / 256))) a
      (elim h [ inl e ↦ inl (omega arith) | inr e ↦ inr (omega arith) ])
    ∙ ground arith

memset_from-inside :
    (d val n i : ℕ) (m : Bytes) (k : ℕ)
    → i ≤ k
    → k < i + n
    → (memset_from d val n i m (d + 2 * k) ≡ u8 val)
      × (memset_from d val n i m (d + 2 * k + 1) ≡ u8 (val / 256))
unfolding memset_from
memset_from-inside d val zero i m k lo hi = absurd (omega arith)
memset_from-inside d val (suc n) i m k lo hi =
    let m' : Bytes = store (store m (d + 2 * i) (u8 val)) (d + 2 * i + 1) (u8 (val / 256)) in
    elim (ℕ_discrete i k) [
      | yes e ↦ (
        memset_from-outside d val n (i + 1) m' (d + 2 * k) (inl (omega arith)) ∙ ground arith,
        memset_from-outside d val n (i + 1) m' (d + 2 * k + 1) (inl (omega arith)) ∙ ground arith,
      )
      | no ne ↦ memset_from-inside d val n (i + 1) m' k (omega arith) (omega arith)
    ]

-- `kmemset` fills `bytes / 2` shorts with the low sixteen bits of `val`, low byte first, and writes
-- nowhere else; the last byte of an odd count keeps its value.
pub kmemset_lem :
    (d bytes val : ℕ) (m : Bytes)
    → ((k : ℕ)
        → k < bytes / 2
        → (kmemset d bytes val m (d + 2 * k) ≡ u8 val)
          × (kmemset d bytes val m (d + 2 * k + 1) ≡ u8 (val / 256)))
      × ((a : ℕ) → (a < d) ⊎ (d + 2 * (bytes / 2) ≤ a) → kmemset d bytes val m a ≡ m a)
unfolding kmemset
kmemset_lem d bytes val m = (
  λ k h. memset_from-inside d val (bytes / 2) 0 m k (omega arith) (omega arith),
  λ a h.
      memset_from-outside d val (bytes / 2) 0 m a
        (elim h [ inl e ↦ inl (omega arith) | inr e ↦ inr (omega arith) ]),
)
