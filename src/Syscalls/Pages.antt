-- ===== src/Syscalls/Pages.antt =====
-- Memory that a process asks for and gives back by the calls of kernel/cpu/idt.c.
use l_ost.Common.{ℕ, ◌+◌, ◌/◌}
use l_ost.Memory.{Memory, kumalloc}
use l_ost.Scheduler.{get_pid}
use l_ost.Scheduler.Fork.{Kernel}

-- The kernel with another page table.
abbrev pub with_pages : Kernel → Memory → Kernel
with_pages k m = record k { scheduler = record k.scheduler { memory = m } }

-- What `kumalloc` gives a process that asks for a number of bytes.
abbrev pub granted : (size : ℕ) → Kernel → ℕ × Memory
granted size k = kumalloc (size / 4096 + 1) 6 (get_pid k.scheduler) k.scheduler.memory
