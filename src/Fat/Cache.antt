-- ===== src/Fat/Cache.antt =====
-- The cached entries of the allocation table in kernel/filesystems/fat.c as a function from clusters.
use l_ost.Common.{
  ℕ, ◌+◌, ◌-◌, ◌*◌, ◌^◌, ◌≤◌, ◌<◌, ◌≡◌, ◌≢◌, refl, ◌⊎◌, inl, inr, false, Option, some, arith, ◌==◌,
}
use l_ost.Text.{Bytes}
use l_ost.Storage.{Drive}
use l_ost.Storage.Detect.{long_at}
use l_ost.Fat.{
  Volume, Disk, store_long, cache_base, outside_cache, cache_entry, get_next_cluster32,
  set_next_cluster32, linked,
}

pub long_at-store_long : (m : Bytes) (a v : ℕ) → v < 2 ^ 32 → long_at (store_long m a v) a ≡ v
unfolding store_long
long_at-store_long m a v wide = ground arith

pub long_at-store_long_ne :
    (m : Bytes) (a b v : ℕ) → (b + 4 ≤ a) ⊎ (a + 4 ≤ b) → long_at (store_long m a v) b ≡ long_at m b
unfolding store_long
long_at-store_long_ne m a b v (inl before) = ground arith
long_at-store_long_ne m a b v (inr behind) = ground arith

-- Clusters in the cached range, whose entries lie within the address space, on a volume whose sector size
-- is not 0.
pub record Cached (v : Volume) (cluster : ℕ) : Type 0 where
  pub sector : v.sector_size_bytes ≢ 0
  pub from : cache_base v ≤ cluster
  pub to : cluster ≤ cache_base v + v.cached_clusters_size
  pub range : cache_base v + v.cached_clusters_size < 2 ^ 32
  pub place : v.fat_cache + 4 * (v.cached_clusters_size + 1) ≤ 2 ^ 32

Cached-inside : (v : Volume) (cluster : ℕ) → Cached v cluster → outside_cache cluster v ≡ false
unfolding outside_cache
Cached-inside v cluster h = ground (arith, h.from, h.to, h.range)

pub Cached-cache_entry :
    (v : Volume) (cluster : ℕ)
    → Cached v cluster
    → cache_entry cluster v ≡ v.fat_cache + 4 * (cluster - cache_base v)
unfolding cache_entry
Cached-cache_entry v cluster h = omega (arith, h.from, h.to, h.range, h.place)

module _ (ata_read : (buffer : ℕ) → Drive → (sectors start : ℕ) → Bytes → Option (ℕ × Bytes))
    (ata_write : (buffer : ℕ) → Drive → (sectors start : ℕ) → Bytes → Option Bytes) where
  pub get_next-Cached :
      (cluster : ℕ) (v : Volume) (d : Disk)
      → Cached v cluster
      → get_next_cluster32 ata_read ata_write cluster v d
        ≡ some (long_at d.memory (cache_entry cluster v), (v, d))
  unfolding get_next_cluster32
  get_next-Cached cluster v d h =
      let divides : (v.sector_size_bytes == 0) ≡ false = ground (arith, h.sector) in
      rw (get_next_cluster32, divides, Cached-inside v cluster h) refl

  pub set_next-Cached :
      (cluster next : ℕ) (v : Volume) (d : Disk)
      → Cached v cluster
      → set_next_cluster32 ata_read ata_write cluster next v d
        ≡ some (
          v,
          record d { memory = store_long d.memory (cache_entry cluster v) (linked cluster next) },
        )
  unfolding set_next_cluster32
  set_next-Cached cluster next v d h =
      let divides : (v.sector_size_bytes == 0) ≡ false = ground (arith, h.sector) in
      rw (set_next_cluster32, divides, Cached-inside v cluster h) refl
