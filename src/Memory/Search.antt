-- ===== src/Memory/Search.antt =====
-- What the searches of `check_free`, `kmalloc` and `kumalloc` find.
use l_ost.Common.{
  ℕ, zero, suc, ◌+◌, ◌-◌, ◌≤◌, ◌<◌, ◌≡◌, refl, ◌↔◌, inl, inr, true, false, none, some, arith,
  Bool-cases, ℕ_discrete,
}
use l_ost.Memory.{PageEntry, Table, check_free_from, check_free, stops_at, find_pages}

-- The three bits by which `check_free` judges an entry are clear.
pub record IsFree (e : PageEntry) : Type 0 where
  pub not_used : e.used ≡ false
  pub not_unusable : e.unusable ≡ false
  pub not_reserved : e.reserved ≡ false

check_free_from_sound :
    (t : Table) (n i j : ℕ) → check_free_from t n i ≡ true → i ≤ j → j < i + n → IsFree (t j)
unfolding check_free_from
check_free_from_sound t zero i j h lo hi = absurd (omega arith)
check_free_from_sound t (suc n) i j h lo hi = elim (ℕ_discrete i j) [
  | yes e ↦ rw (← e) (ground arith)
  | no ne ↦ check_free_from_sound t n (i + 1) j (ground arith) (omega arith) (omega arith)
]

check_free_from_complete :
    (t : Table) (n i : ℕ)
    → ((j : ℕ) → i ≤ j → j < i + n → IsFree (t j))
    → check_free_from t n i ≡ true
unfolding check_free_from
check_free_from_complete t zero i h = refl
check_free_from_complete t (suc n) i h =
    let here : IsFree (t i) = h i (omega arith) (omega arith) in
    ground
      (arith, here, check_free_from_complete t n (i + 1) λ j lo hi. h j (omega arith) (omega arith))

-- `check_free` accepts exactly when every page from index `start` up to index `size` is free: its
-- second argument is used as the end of the range, not as its length.
pub check_free_iff :
    (t : Table) (start size : ℕ)
    → (check_free t start size ≡ true) ↔ ((j : ℕ) → start ≤ j → j < size → IsFree (t j))
unfolding check_free
check_free_iff t start size = (
  λ h j lo hi. check_free_from_sound t (size - start) start j h lo (omega arith),
  λ h. check_free_from_complete t (size - start) start λ j lo hi. h j lo (omega arith),
)

-- `find_pages` returns the first page in its range at which the search stops.
pub record Found (t : Table) (size i n k : ℕ) : Type 0 where
  pub from : i ≤ k
  pub below : k < i + n
  pub stops : stops_at t size k ≡ true
  pub first : (j : ℕ) → i ≤ j → j < k → stops_at t size j ≡ false

pub find_pages-some :
    (t : Table) (size n i k : ℕ) → find_pages t size n i ≡ some k → Found t size i n k
unfolding find_pages
find_pages-some t size zero i k h = cc
find_pages-some t size (suc n) i k h = elim (Bool-cases (stops_at t size i)) [
  | inl now ↦
      let e : i ≡ k = ground arith in
      rw (← e) (record {
        from = omega arith;
        below = omega arith;
        stops = now;
        first = λ j lo hi. absurd (omega arith);
      })
  | inr later ↦
      let rec : Found t size (i + 1) n k = find_pages-some t size n (i + 1) k (ground arith) in
      record {
        from = omega arith;
        below = omega arith;
        stops = rec.stops;
        first = λ j lo hi. elim (ℕ_discrete i j) [
          | yes e ↦ rw (← e) later
          | no ne ↦ rec.first j (omega arith) hi
        ];
      }
]

pub find_pages-none :
    (t : Table) (size n i : ℕ)
    → find_pages t size n i ≡ none
    → (j : ℕ) → i ≤ j
    → j < i + n
    → stops_at t size j ≡ false
unfolding find_pages
find_pages-none t size zero i h j lo hi = absurd (omega arith)
find_pages-none t size (suc n) i h j lo hi = elim (Bool-cases (stops_at t size i)) [
  | inl now ↦ ground arith
  | inr later ↦ elim (ℕ_discrete i j) [
    | yes e ↦ rw (← e) later
    | no ne ↦ find_pages-none t size n (i + 1) (ground arith) j (omega arith) (omega arith)
  ]
]
