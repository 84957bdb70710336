-- ===== src/Floppy/Dma.antt =====
-- The channel of the floppy disk: kernel/drivers/dma.c.
use l_ost.Common.{ℕ, ◌+◌, ◌/◌, ◌%◌, List, [], ◌∷◌, ltb, if◌then◌else◌, mask}
use l_ost.Memory.{Memory, kmalloc}

-- `mask_dma`: the port and the byte that it writes.
pub mask_dma : (mask channel : ℕ) → ℕ × ℕ
mask_dma mask channel = (10 + (if ltb 3 channel then 0xc0 else 0), mask)

-- The writes of `init_floppy_dma` for its buffer.
unfoldable pub channel_writes : (ptr : ℕ) → List (ℕ × ℕ)
channel_writes ptr =
    (10, 6)
    ∷ (12, 0xff)
    ∷ (4, ptr % 256)
    ∷ (4, ptr / 256 % 256)
    ∷ (12, 0xff)
    ∷ (5, 0xff)
    ∷ (5, 0x23)
    ∷ (0x81, ptr / 65536 % 256)
    ∷ (10, 2)
    ∷ []

-- `init_floppy_dma`: the pointer, the memory, and the writes.
unfoldable pub init_floppy_dma : Memory → ℕ × (Memory × List (ℕ × ℕ))
init_floppy_dma memory = let (ptr, taken) = kmalloc 4 6 memory in (ptr, (taken, channel_writes ptr))
