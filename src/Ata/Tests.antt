-- ===== src/Ata/Tests.antt =====
-- A drive that is always ready, and the theorem at it.
use l_ost.Common.{ℕ, ◌+◌, ◌≡◌, refl, false, some}
use l_ost.Ata.{AtaDrive, Machine, ata_read}
use l_ost.Ata.Chunks.{Ready, ata_read-nothing}

abbrev inb : ℕ → ℕ → ℕ × ℕ
inb port d = (0x40, d)

abbrev inw : ℕ → ℕ → ℕ × ℕ
inw port d = (d, d + 1)

abbrev outb : ℕ → ℕ → ℕ → ℕ
outb port value d = d

abbrev primary : AtaDrive
primary = record { base_port = 0x1f0; slave = false; lba48 = false }

abbrev idle : Machine ℕ
idle = record {
  device = 0;
  clock = record { ticks = 0; seconds = 0; secs_start = 0; ticks_start = 0 };
}

primary-Ready : Ready inb inw outb (λ d. 0) primary
unfolding Ready
primary-Ready d = refl

ata_read-nothing_example :
    (s' : Machine ℕ) × (ata_read inb inw outb (λ d. 0) 3 1000 primary 512 64 (λ a. 7) idle
      ≡ some (1000, ((λ a. 7), s')))
ata_read-nothing_example =
    ata_read-nothing inb inw outb (λ d. 0) 2 1000 512 64 primary (λ a. 7) idle primary-Ready refl
      refl
