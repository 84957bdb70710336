-- ===== src/Fat/Chains.antt =====
-- The search for a free cluster in kernel/filesystems/fat.c, on clusters that are all cached.
use l_ost.Common.{ℕ, ◌+◌, ◌≤◌, ◌<◌, ◌≡◌, ◌≢◌}
use l_ost.Storage.Detect.{long_at}
use l_ost.Fat.{Volume, Disk, cache_entry}

-- What the search over `n` clusters from `i` on returns, where `last` stands for a failure.
pub data Found (link : ℕ → ℕ) (n i last : ℕ) : ℕ → Type 0 where
  full : ((j : ℕ) → i ≤ j → j < i + n → link j ≢ 0) → Found link n i last last
  free :
      (c : ℕ)
      → i ≤ c
      → c < i + n
      → link c ≡ 0
      → ((j : ℕ) → i ≤ j → j < c → link j ≢ 0)
      → Found link n i last c

-- The link of a cached cluster.
abbrev pub link_of : Volume → Disk → ℕ → ℕ
link_of v d c = long_at d.memory (cache_entry c v)
