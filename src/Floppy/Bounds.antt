-- ===== src/Floppy/Bounds.antt =====
-- Where the floppy's transfers go that `init_floppy_dma` of kernel/drivers/dma.c sets up.
use l_ost.Common.{
  ℕ, ◌+◌, ◌-◌, ◌*◌, ◌/◌, ◌%◌, ◌^◌, ◌≤◌, ◌<◌, ◌≡◌, ◌≢◌, sym, ap, ◌∙◌, Bool, false, not, List, [],
  ◌∷◌, arith, ◌==◌, if◌then◌else◌,
}
use l_ost.Memory.{Memory, max_pages, page_size, block_entry, kmalloc}
use l_ost.Memory.Alloc.{allocate-Placed}
use l_ost.Floppy.Dma.{channel_writes, init_floppy_dma}

-- Channel 2 as its controller documents it: bytes of an address or a count come in pairs, the low one
-- first, and a write to port 12 starts a pair.
pub record Channel : Type 0 where
  pub high_next : Bool
  pub address : ℕ
  pub count : ℕ
  pub page : ℕ

-- A byte of a pair that comes in.
abbrev pub half : (high_next : Bool) (word value : ℕ) → ℕ
half high_next word value = if high_next then word % 256 + 256 * value else word / 256 * 256 + value

unfoldable pub take_in : ℕ × ℕ → Channel → Channel
take_in (port, value) c =
    if port == 12
    then record c { high_next = false }
    else if port == 4
    then record c { high_next = not c.high_next; address = half c.high_next c.address value }
    else if port == 5
    then record c { high_next = not c.high_next; count = half c.high_next c.count value }
    else if port == 0x81
    then record c { page = value }
    else c

unfoldable pub programmed : List (ℕ × ℕ) → Channel → Channel
programmed [] c = c
programmed (w ∷ ws) c = programmed ws (take_in w c)

channel_writes-programmed :
    (ptr : ℕ) (c : Channel)
    → ptr < 2 ^ 24
    → let c' = programmed (channel_writes ptr) c in
      (c'.page * 65536 + c'.address ≡ ptr) × (c'.count + 1 ≡ 18 * 512)
unfolding programmed take_in channel_writes
channel_writes-programmed ptr c small = (omega (arith, small), omega arith)

channel_writes-address :
    (ptr : ℕ) (c : Channel) → (programmed (channel_writes ptr) c).address < 65536
unfolding programmed take_in channel_writes
channel_writes-address ptr c = omega arith

-- Where byte `i` of a transfer goes: the page stays, and the address wraps at 64 KiB.
unfoldable pub transfer_place : Channel → (i : ℕ) → ℕ
transfer_place c i = c.page * 65536 + (c.address + i) % 65536

-- Where `init_floppy_dma` gets its pages below 16 MiB, the channel afterwards stands at their address
-- and counts the bytes of one track, whatever it held before. Every byte of such a transfer then lies
-- in a page of the block that kmalloc marked for it, if the track does not cross a boundary of 64 KiB,
-- at which the channel wraps; and if it does, the byte at the boundary goes below the block.
pub init_floppy_dma-inside :
    (memory : Memory) (c : Channel)
    → memory.page_table_size ≤ max_pages
    → (init_floppy_dma memory).0 ≢ 0
    → (init_floppy_dma memory).0 < 2 ^ 24
    → let (ptr, (taken, writes)) = init_floppy_dma memory in
      let c' = programmed writes c in
      (c'.page * 65536 + c'.address ≡ ptr)
      × (c'.count + 1 ≡ 18 * 512)
      × (ptr % 65536 + 18 * 512 ≤ 65536
          → (i : ℕ) → i < c'.count + 1
          → (j : ℕ) × (j < 4)
            × (taken.page_table (transfer_place c' i / page_size) ≡ block_entry 4 6 0 j))
      × (65536 < ptr % 65536 + 18 * 512 → transfer_place c' (65536 - ptr % 65536) < ptr)
unfolding init_floppy_dma kmalloc transfer_place
init_floppy_dma-inside memory c small given low =
    let placed = allocate-Placed 4 6 0 memory small given in
    let ptr = (kmalloc 4 6 memory).0 in
    let (address, count) = channel_writes-programmed ptr c low in
    let start = placed.address in
    let c' = programmed (channel_writes ptr) c in
    let low_half : c'.address < 65536 = channel_writes-address ptr c in
    (
      address,
      count,
      λ flat i hi.
          let a = c'.page * 65536 + (c'.address + i) % 65536 in
          let place : a ≡ ptr + i = omega (arith, flat, hi, count, address, low_half) in
          let page : placed.page + (a / page_size - placed.page) ≡ a / page_size =
            omega (arith, start, place) in
          let near : a / page_size - placed.page < 4 = omega (arith, start, place, hi, count) in
          (
            a / page_size - placed.page,
            near,
            ap (kmalloc 4 6 memory).1.page_table (sym page)
                ∙ placed.block.entries (a / page_size - placed.page) near,
          ),
      λ crosses. omega (arith, crosses, address, low_half),
    )
