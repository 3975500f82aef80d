-- ===== src/Lib.antt =====
-- The simple kernel for i386: its memory management, its terminal and its device set-up.
--
-- The parts and where they are modelled. Paths are those of the repository.
--
-- Pmm: the physical page allocator of kernel/arch/i386/mem.c (`get_page`, `free_page`,
-- `get_page_state`). The state `struct managed_memory` is the record `ManagedMemory`; the bytes
-- behind its `bitmap` pointer are a list, and an access outside of it is `none`. The address of a
-- page is a number below 2 ^ 32.
--
-- Paging: `get_physaddr`, `map_page` and `unmap_page` of the same file. `Paging.Mmu` is the i386's
-- two-level translation over the words of page frames. The code reaches the directory and the
-- tables through the directory's last entry, at 0xFFFFF000 and 0xFFC00000, and so does the model:
-- each access is translated, and `none` is a page fault. The record `Vm` holds the frames, the
-- frame of the directory and the allocator, from which `map_page` takes pages for new tables. A
-- translation always reads the tables, so the TLB and its flushes are not modelled.
--
-- Heap: `init_heap`, `kmalloc`, `kcalloc`, `krealloc`, `kpagealloc` and `kfree` of the same file,
-- with `struct heap_area` as two words in byte memory (Heap.Header). `init_heap` is in Heap.Init
-- and `kpagealloc` in Heap.Paged, whose children follow a call: the search, the header in front
-- of the pages, the header behind them, and the whole. Heap.Layout gives the abstract view, a
-- list of blocks that tile the heap. Heap.Client is about sequences of allocations and writes,
-- Heap.Boundary and Heap.Kept about the bytes that `kfree` leaves alone, Heap.Resize about
-- `krealloc`, and Heap.Stale about an area whose `prev` field names the wrong area. The heap asks
-- paging for pages through the interface `Pager`, which Paging.Supply fills with the functions of
-- Paging and Pmm. Memory is a flat array of bytes by virtual address that page mapping does not
-- change. An access to the bytes of an area faults where the pager's `is_mapped` denies one of
-- them (`reaches`): in `kcalloc`, in `krealloc` and in a client's writes. `kfree` faults where it
-- writes through `NULL`. The headers of the areas are taken to be mapped. The loops run on fuel:
-- 2 ^ 26 rounds for the areas, of which there are fewer than the heap's 2 ^ 29 bytes divided by
-- the 8 of a header, and 2 ^ 20 rounds for the pages, of which the address space has no more.
--
-- Early: the set-up of the page allocator in kernel/arch/i386/early_pmm_init.c. The memory map of
-- the boot loader is the list of its entries in order; the linker's symbols are the record
-- `KernelImage`. Early.Cut is about `sanitize_available`, Early.Release about the loops that clear
-- the bitmap, Early.Configured about `init_frame_allocator`, whose endless loop on a wrong magic
-- number is the result `hangs`, and Early.Handed about the calls of `get_page` that follow.
--
-- Late: `late_pmm_init` of mem.c, which hands that allocator to Paging and maps its bitmap.
--
-- Memory: bytes and 32-bit little endian words, with `memset`, `memcpy`, `memmove` and `memcmp` of
-- libc/string.
--
-- Strings: `strlen`, `strcpy` and `strcmp` of libc/string, on fuel of 2 ^ 32 rounds, one for each
-- address.
--
-- Print: `terminal_writestring`, `iprint` and libc's `putchar`, on Tty. `iprint` has 20 rounds, one
-- for each digit of a number of 64 bits.
--
-- Printf: `printf` and `puts` of libc/stdio on Print, with the types of its arguments in
-- Printf.Types and Printf.Fitting. A string argument is the list of its bytes; a round takes a byte of the format at
-- least, so the format's length is fuel enough.
--
-- Interrupts: the handlers of kernel/arch/i386/interrupts/interrupts.c and the vectors that lead to
-- them (interrupts/isr_wrappers.S), on Print, Ports and Pic. A handler that ends in an endless loop
-- is the result `hangs`.
--
-- Tty: kernel/arch/i386/tty.c and vga.h. The four static variables are the record `Terminal`, the
-- VGA buffer a function from the index of a cell to its 16 bits.
--
-- Gdt, Idt: the tables that kernel/arch/i386/gdt.c and interrupts/idt.c build, as lists of records;
-- the assembly that loads them is not modelled, and the addresses of the interrupt wrappers are a
-- parameter.
--
-- Ports, Pic, Pci: kernel/arch/i386/iobasics.c, pic.c and pci.c. The port instructions are a
-- parameter, `PortIo`; what is assumed of the devices is stated by `MaskRegisters`,
-- `Pic.Start.Controllers` (the initialisation as a state machine) and `Interrupts.Ready.InService`
-- for the 8259A, and by `ConfigSpace` for the PCI configuration mechanism.
--
-- Main: `kernel_main` of kernel/kernel/kernel.c, which starts the other parts in turn and tries
-- them out, on the record `System` of their states. Main.Started is about its first calls, on
-- memory, Main.Devices about those on the terminal, the tables, the interrupt controllers and the
-- heap, and Main.Boots about both; Main.Texts is about the texts that are copied into memory, and
-- Main.Pages, Main.Granted and Main.Areas about the tests of `kpagealloc` and `kmalloc`. The
-- addresses of the string literals are a parameter. A literal that it prints is given to the
-- terminal without a look at memory, one that it copies is read from memory, and the interrupts
-- that may come once it has enabled them are left out. The areas' bytes that it clears, copies to
-- or prints from are looked up in the page tables, and `none` is a fault; the literals are taken
-- to be mapped.
--
-- Stdlib: `abort` of libc/stdlib, on Printf.
--
-- Base has the shared names, words and list lemmas, Bits the lemmas on masks and shifts.
--
-- Not modelled: the boot code and the stack frames of the wrappers, which are assembly.
pub mod Base
pub mod Bits
pub mod Memory
pub mod Ports
pub mod Pmm
pub mod Paging
pub mod Heap
pub mod Tty
pub mod Gdt
pub mod Idt
pub mod Pic
pub mod Pci
pub mod Strings
pub mod Print
pub mod Printf
pub mod Interrupts
pub mod Early
pub mod Late
pub mod Main
pub mod Stdlib
