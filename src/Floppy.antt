-- ===== src/Floppy.antt =====
-- The place of a sector on a floppy disk: `lba_to_chs` of kernel/drivers/floppy.c.
pub mod Dma
pub mod Driver
pub mod Commands
pub mod Bounds
pub mod Reading
pub mod Starting
mod Tests
use l_ost.Common.{
  ℕ, zero, suc, ◌+◌, ◌-◌, ◌*◌, ◌/◌, ◌%◌, ◌^◌, ◌≤◌, ◌<◌, ◌≡◌, ◌≢◌, refl, sym, ap, ◌∙◌, ◌↔◌, ◌⊎◌, inl,
  inr, Bool, true, false, ◌&&◌, ◌||◌, not, Option, none, some, List, [], ◌∷◌, ◌++◌, arith,
  ℕ_discrete, dec_lt, ltb, leb, ◌==◌, if◌then◌else◌, Bool-cases, Option-cases, length, u8, u16, u32,
  mask, bit_field, slt, promote,
}

-- `lba_to_chs`, for a sector number that is not negative: the cylinder, the head and the sector.
unfoldable pub lba_to_chs : (lba : ℕ) → ℕ × (ℕ × ℕ)
lba_to_chs lba = (lba / 36, (lba % 36 / 18, lba % 36 % 18 + 1))

-- Where a cylinder, a head and a sector stand on a disk of two heads and eighteen sectors a track.
pub chs_to_lba : ℕ × (ℕ × ℕ) → ℕ
chs_to_lba place = (place.0 * 2 + place.1.0) * 18 + (place.1.1 - 1)

-- For a sector number below 2880 the cylinder is below 80, the head below 2, the sector from 1 to
-- 18, and they are the place of that number on a disk of two heads and eighteen sectors a track.
pub lba_to_chs-place :
    (lba : ℕ)
    → lba < 2880
    → ((lba_to_chs lba).0 < 80)
      × ((lba_to_chs lba).1.0 < 2)
      × (1 ≤ (lba_to_chs lba).1.1)
      × ((lba_to_chs lba).1.1 ≤ 18)
      × (chs_to_lba (lba_to_chs lba) ≡ lba)
unfolding lba_to_chs chs_to_lba
lba_to_chs-place lba hi = (omega arith, omega arith, omega arith, omega arith, omega arith)
