-- ===== src/Lib.antt =====
-- Chao's OS, a small kernel for the i386 with its own C library: a verification library over models
-- of its code, translated function by function.
--
-- The parts, and how they interact. `list.h` is the ring of list heads that tasks and waiting lists
-- hang in; `map.c` is the hash table of tasks; `pmm.c` hands out physical page frames as a buddy
-- system, with the powers of two of `math.c`; `kmm.c` cuts its pages into slices for small requests;
-- `vmm.c` maps virtual addresses and takes its page tables from `pmm.c`; the
-- descriptor tables and `isr_handler` lead interrupts to the handlers of the clock
-- (`timer.c`) and the keyboard (`keyboard.c`); `tty.c` is the text console and `terminal.c` the graphic
-- one; `task.c` makes and ends tasks, and `sync.h` and `queue.h` let them wait for one another; `libc`
-- formats output and moves memory.
--
-- Which module models which file (paths from the repository's root):
-- - Links: kernel/include/klib/list.h. A store of `next` and `prev` fields by address; `Ring` is the
--   shape that the operations keep. `_list_add` and `_list_del` are list_add_between and
--   list_del_between.
-- - HashMap: kernel/kernel/klib/map.c, kernel/include/klib/map.h. `_map_find` is map_find_index, with
--   UINT32_MAX for an absent key. map_insert and map_rehash call one another, so map_insert takes a
--   bound on the depth of these calls and one on the steps of each probe; the loops of the code have no
--   bound, and an outcome `none` is a probe that has not ended.
-- - Printf: libc/stdio/printf.c, libc/stdio/puts.c. Printf holds the conversions, Printf.Format the loop.
--   The loop has as much fuel as the format has bytes, and one more; that is enough, since each round
--   takes a byte. `putchar` is taken to return its argument, as it does.
-- - Math: kernel/kernel/math.c. power_of_2 looks at 32 digits; 0 has none that is set, and the code does
--   not return for it.
-- - Buddy: kernel/kernel/pmm.c, kernel/include/kernel/pmm.h; Buddy.Init is `init_normal_mem_zone`.
--   `buddy_system_get_frame_page_block` is get_block and `buddy_system_free_frame_page_block` is
--   free_block; their loops are find_level, split and merge, on the number of levels that are left.
--   Buddy.Lists has the sequences that the free lists stand for, and Buddy.Report the functions that print.
-- - Vmm: kernel/kernel/vmm.c, kernel/include/kernel/vmm.h, over the zone of Buddy.
-- - Boot: kernel/kernel/kernel.c, the page tables of kernel_main_init; Boot.Start has init_schedule of
--   kernel/kernel/schedule.c and init_vbe of kernel/kernel/vbe.c, which call several parts.
-- - Descriptors: kernel/arch/i386/gdt.c, kernel/arch/i386/idt.c, kernel/kernel/interrupt.c.
-- - Timer: kernel/kernel/timer.c; the timers are a list, and for unregister_timer a store of `next` fields.
-- - Keyboard: kernel/kernel/keyboard.c, kernel/include/io/keyboard.h.
-- - Tty: kernel/arch/i386/tty.c, kernel/arch/i386/vga.h. Strings: libc/string.
-- - Schedule: kernel/kernel/schedule.c, over the ring of Links; the variable `_next_task` is `upcoming`.
-- - Kmm: kernel/kernel/kmm.c, kernel/include/kernel/kmm.h, over the zone of Buddy. Kmm has the page of
--   slices and the lists of a manager, Kmm.Heap init_kmm and kmalloc, Kmm.Release kfree. kmalloc_helper
--   has a bound on the managers that it visits; one more than there are managers is enough. Kmm.Moves has
--   the three plain lists that the array of allocators stands for.
-- - Sync: kernel/include/kernel/sync.h. Queue: kernel/include/klib/queue.h. A waiting loop is one
--   function for a round, which also says whether it was the last one. The statements of mutex_acquire are
--   functions of their own as well, and Sync.Exclusion has them as the steps of all tasks, with clock
--   interrupts between them; the rounds of the queue are taken without interrupts.
-- - Tasks: kernel/kernel/task.c, kernel/include/kernel/task.h, over Kmm, HashMap, Links and Schedule.
-- - Terminal: kernel/kernel/terminal.c, kernel/kernel/vbe.c, over a frame buffer of bytes.
-- - Prelude: Boolean tests, lists indexed by numbers, and the laws of `&`, `|`, `^` and shifts.
--
-- A `uint32_t` is a natural number below 2 ^ 32, with the wrap-around of each operation written out
-- where the code can reach it. Pointers to frames are indices, other pointers are addresses.
--
-- Not modelled: port instructions and assembler, the order of the calls in kernel_main, and the texts
-- around the numbers that show_memory_map and print_free_buddy_blocks print. What the ports return is an
-- argument of the functions that use it, and so is what kmalloc returns outside Tasks and Boot.Start.
pub mod Prelude
pub mod Boot
pub mod Links
pub mod HashMap
pub mod Printf
pub mod Math
pub mod Buddy
pub mod Keyboard
pub mod Timer
pub mod Strings
pub mod Tty
pub mod Vmm
pub mod Kmm
pub mod Descriptors
pub mod Schedule
pub mod Sync
pub mod Queue
pub mod Tasks
pub mod Terminal
