-- ===== src/Storage/Table.antt =====
-- The tables of kernel/drivers/storage.c: the first free entry and the number of entries.
use l_ost.Common.{
  ℕ, zero, suc, ◌+◌, ◌-◌, ◌^◌, ◌≤◌, ◌<◌, ◌≡◌, ◌≢◌, refl, ◌∙◌, inl, inr, true, false, Option, none,
  some, arith, ℕ_discrete, ◌==◌, if◌then◌else◌, Bool-cases,
}
use l_ost.Storage.{
  Filesystem, Storage, max_entries, is_some, count_from, free_from_index, get_fs_count, register_fs,
}

-- What a search for a free entry in `[i, i + n)` finds.
pub data Free {A : Type 0} (t : ℕ → Option A) (n i : ℕ) : Option ℕ → Type 0 where
  full : ((j : ℕ) → i ≤ j → j < i + n → is_some (t j) ≡ true) → Free t n i none
  at :
      (k : ℕ)
      → i ≤ k
      → k < i + n
      → is_some (t k) ≡ false
      → ((j : ℕ) → i ≤ j → j < k → is_some (t j) ≡ true)
      → Free t n i (some k)

Free-skip :
    {A : Type 0} (n i : ℕ) (t : ℕ → Option A) (r : Option ℕ)
    → is_some (t i) ≡ true
    → Free t n (i + 1) r
    → Free t (suc n) i r
Free-skip n i t _ taken (full all) = full λ j lo hi. elim (ℕ_discrete i j) [
  | yes e ↦ rw (← e) taken
  | no ne ↦ all j (omega arith) (omega arith)
]
Free-skip n i t _ taken (at k lo hi free skipped) =
    at k (omega arith) (omega arith) free λ j lo' hi'. elim (ℕ_discrete i j) [
      | yes e ↦ rw (← e) taken
      | no ne ↦ skipped j (omega arith) (omega arith)
    ]

pub free_from_index-Free :
    {A : Type 0} (n i : ℕ) (t : ℕ → Option A) → Free t n i (free_from_index n i t)
unfolding free_from_index
free_from_index-Free zero i t = full λ j lo hi. absurd (omega arith)
free_from_index-Free (suc n) i t = elim (Bool-cases (is_some (t i))) [
  | inl taken ↦
      rw taken
        (Free-skip n i t (free_from_index n (i + 1) t) taken (free_from_index-Free n (i + 1) t))
  | inr free ↦ rw free (at i (omega arith) (omega arith) free λ j lo hi. absurd (omega arith))
]

-- Filling a free entry adds one to the count.
count_from-same :
    {A : Type 0} (n i c : ℕ) (t t' : ℕ → Option A)
    → ((j : ℕ) → i ≤ j → j < i + n → is_some (t' j) ≡ is_some (t j))
    → count_from n i c t' ≡ count_from n i c t
unfolding count_from
count_from-same zero i c t t' same = refl
count_from-same (suc n) i c t t' same = rw (same i (omega arith) (omega arith)) (
    count_from-same n (i + 1) (if is_some (t i) then c + 1 else c) t t'
      λ j lo hi. same j (omega arith) (omega arith))

count_from-suc :
    {A : Type 0} (n i c : ℕ) (t : ℕ → Option A) → count_from n i (c + 1) t ≡ count_from n i c t + 1
unfolding count_from
count_from-suc zero i c t = refl
count_from-suc (suc n) i c t = elim (Bool-cases (is_some (t i))) [
  | inl e ↦ rw e (count_from-suc n (i + 1) (c + 1) t)
  | inr e ↦ rw e (count_from-suc n (i + 1) c t)
]

count_from-fill :
    {A : Type 0} (n i c k : ℕ) (t t' : ℕ → Option A)
    → i ≤ k
    → k < i + n
    → is_some (t k) ≡ false
    → is_some (t' k) ≡ true
    → ((j : ℕ) → j ≢ k → is_some (t' j) ≡ is_some (t j))
    → count_from n i c t' ≡ count_from n i c t + 1
unfolding count_from
count_from-fill zero i c k t t' lo hi free filled same = absurd (omega arith)
count_from-fill (suc n) i c k t t' lo hi free filled same = elim (ℕ_discrete i k) [
  | yes e ↦
      rw (e, free, filled)
        (count_from-same n (k + 1) (c + 1) t t' (λ j lo' hi'. same j (λ f. omega arith))
          ∙ count_from-suc n (k + 1) c t)
  | no ne ↦ rw (same i ne) (
      count_from-fill n (i + 1) (if is_some (t i) then c + 1 else c) k t t' (omega arith)
        (omega arith) free filled same)
]

-- What `register_fs` does.
pub data Mounted (filesystem : Filesystem) (s : Storage) : ℕ × Storage → Type 0 where
  refused :
      ((j : ℕ) → j < max_entries → is_some (s.filesystems j) ≡ true)
      → Mounted filesystem s (2 ^ 32 - 1, s)
  mounted :
      (k : ℕ) (s' : Storage)
      → k < max_entries
      → is_some (s.filesystems k) ≡ false
      → ((j : ℕ) → j < k → is_some (s.filesystems j) ≡ true)
      → s'.filesystems k ≡ some (record filesystem { mount_id = k })
      → ((j : ℕ) → j ≢ k → s'.filesystems j ≡ s.filesystems j)
      → get_fs_count s' ≡ get_fs_count s + 1
      → Mounted filesystem s (0, s')

fill-Mounted :
    (filesystem : Filesystem) (s : Storage) (r : Option ℕ)
    → free_from_index max_entries 0 s.filesystems ≡ r
    → Free s.filesystems max_entries 0 r
    → Mounted filesystem s (register_fs filesystem s)
unfolding register_fs is_some get_fs_count
fill-Mounted filesystem s none run (full all) =
    rw (run, register_fs) (refused λ j hi. all j (omega arith) (omega arith))
fill-Mounted filesystem s (some k) run (at _ lo hi free skipped) =
    let here : (k == k) ≡ true = ground arith in
    let other : (j : ℕ) → j ≢ k → (j == k) ≡ false = λ j ne. ground arith in
    let t : ℕ → Option Filesystem =
      λ j. if j == k then some (record filesystem { mount_id = k }) else s.filesystems j in
    rw (run, register_fs)
      (mounted k (record s { filesystems = t }) (omega arith) free
        (λ j below. skipped j (omega arith) below) (rw here refl) (λ j ne. rw (other j ne) refl)
        (count_from-fill max_entries 0 0 k s.filesystems t lo hi free (rw here refl)
          (λ j ne. rw (other j ne) refl)))

-- register_fs either finds all 26 entries taken, returns -1 and changes nothing, or puts the
-- filesystem, with the index as its mountID, at the first free index, changes no other entry,
-- returns 0, and the count of filesystems grows by one.
pub register_fs-Mounted :
    (filesystem : Filesystem) (s : Storage) → Mounted filesystem s (register_fs filesystem s)
register_fs-Mounted filesystem s =
    fill-Mounted filesystem s (free_from_index max_entries 0 s.filesystems) refl
      (free_from_index-Free max_entries 0 s.filesystems)
