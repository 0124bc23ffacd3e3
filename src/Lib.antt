-- ===== src/Lib.antt =====
-- Nova-OS, an x86-64 kernel: its memory management, scheduler and locks, its file system with the calls on
-- files, its drivers' registry, and its string functions.
--
-- Parts and files
--   Base        Shared names, 64-bit words, bit operations, lists. `add64`, `sub64` and `mul64` are the
--               operators of `uint64_t` with their wrap-around.
--   Pmm         src/kernel/mem/pmm.c, the allocator of physical frames. The five static variables are
--               the record `Pmm`; `alloc_frame`, `alloc_frames`, `alloc_aligned_frames`, `free_frame`,
--               `free_frames` are the functions `pmm_alloc_frame` and so on, each returning the new
--               record beside its result. Pmm/Boot is `pmm_init` over the memory map of the boot loader.
--               Pmm/Valid has the invariant; Pmm/Frame, Runs, Aligned and Release the behaviour of the
--               operations; Pmm/Owners the runs of calls by several clients.
--   Vmm         The page tables of src/kernel/mem/vmm.c: `getOrAllocTable`, `vmmMapPage`, `vmmMapRange`,
--               `vmmVirtToPhys`, `vmmUnmapPage`. They call the frame allocator, so their state is the
--               allocator's and the entries of all tables, as a function of the table's physical address
--               and the index. Vmm/Tree has the shape of the tables, Vmm/Map the mapping of a page.
--   Vma         The areas of a process in the same file: `vmaCreate`, `vmaDestroy`, `vmaFind` and
--               `validateUserRange`, over the list of the nodes in the order of their links. Vma/Order
--               has the invariant, and Vma/Create, Destroy and Validate the operations.
--   Fault       The page fault handler and the copies from and to user space in the same file, over the areas, the
--               page tables and the bytes of memory together (Fault/Resolved, Fault/Copy). Fault/Grow has the
--               stacks that grow.
--   Sched       The scheduler, src/kernel/sched/sched.c. A `Thread` is a record found under its address;
--               the links of the ready queue and of the sleep queue are its fields, as in the source.
--               Sched/Links has the doubly linked lists, Sched/Queues and Take the two ends of the ready
--               queue, Sched/Schedule the choice of the next thread, Sched/Sleep
--               and Tick the sleeping threads, Sched/Wakeup the wake-up of a
--               thread that has not stopped running yet.
--   String      `memcpy`, `memmove` and `memset` of src/kernel/string/string.c with their loops over words
--               and bytes, on a memory of bytes. String/Copy and String/Fill say what they leave there.
--               String/Compare has the comparisons, on strings as lists of bytes.
--   Mmap        The system calls of src/kernel/syscall/sysmunmap.c and sysmmap.c on the areas, the latter
--               for anonymous memory. Mmap/Place has the search for an address, Mmap/Unmap the errors
--               of `sysMunmap`.
--   Sync        Mutexes and wait queues, src/kernel/sync/sync.h, over `Sched`: the waiters are linked by the
--               field `wait_next` of their threads. Sync/Waiting has these queues, Sync/HandOff what
--               locking and unlocking do to them.
--   Gpt         src/kernel/krdrivers/fs/gpt.c: the partition table with its check sums, read through the
--               parameter for nvme_read (Gpt/Filled). `overrun` where a buffer is left.
--   Heap        src/kernel/mem/heap.c: the size classes and the layout of slabs (Heap/Slab), and the free ranges
--               of virtual pages (Heap/Ranges, Heap/Take), which module.c keeps in the same way. Heap/Kmalloc
--               is `kmalloc`, `kfree` and `krealloc`, as far as a call does not go into another one:
--               Heap/Kmalloc/Placed has the pages with headers beside the free ranges, Valid the blocks
--               in use, Alloc, Free and Resize the operations, Run the runs of calls by several clients.
--   Slots       Tables of pointers that grow by doubling, as the open files, the handles on drivers and
--               the adapters are kept: the first free slot, growth, and the number of taken slots.
--   Files       The calls on open files, src/kernel/syscall/sysfile.c and sysread.c, over the table of a
--               process. `stat` and `read` are the file system's functions, as arguments.
--   Drivers     src/kernel/drivers/driver.c: the list of drivers, their names (Drivers/Match) and the
--               handles of a process (Drivers/Handles).
--   Modules     The loader of kernel modules, src/kernel/modules/module.c, with the kernel's symbols,
--               src/kernel/symbols/krsym.c: Modules/Layout has the places of the sections, Modules/Relocate what
--               the relocations write, Modules/Load is `module_load` and `module_unload` over the free
--               ranges of the modules' addresses, which the code keeps as the heap keeps its own, and
--               Modules/Load/Run the runs of such calls.
--   Nag         src/kernel/nag/nag.c, the registry of graphics adapters.
--   Fat32       src/kernel/krdrivers/fs/fat32/fat32.c over a disk `read lba count`: Fat32/Cache has the allocation
--               table behind its cache of one sector, Fat32/Chain and Contents the chains of clusters,
--               Fat32/Names the names of entries, Fat32/Directory the search in a directory and the walk
--               along a path, Fat32/Mount the boot sector, Fat32/Read the reading of files. Bytes has the
--               numbers of several bytes.
--
-- How the code is modelled
--   A pointer is its number and `NULL` is 0. A bitmap is a function from word and bit. A spin lock
--   surrounds each operation on the areas in the source; the model has the operations as single steps.
--   `kmalloc` enters as its success, a Boolean argument, or as the predicate `heap` of the sizes it grants.
--   The disk is a function, so what it holds does not change during a call; its failures are `none`.
--   Values of type `int` and `int64_t` are their two's complement. The node of a free range of
--   the heap is a block of the heap. Where a call gives addresses back, or uses up a range, the code calls
--   `kmalloc` or `kfree` from within; the operations of Heap/Kmalloc are `none` there. What `vmaDestroy` does to a page of the address
--   space is an argument, a function on the state of the address space.
--
-- Fuel
--   `aligned_loop` has two rounds more than there are frames, since each round starts further up, and
--   `validate_loop` one round more than there are areas, since each round moves to a later area.
--   `place_loop` has one round more than there are areas, since each round moves past one.
--   `wake_loop` takes as many rounds as there are sleeping threads.
--   `count_chain` has two rounds more than the volume has clusters; it stops at the latest one round after
--   it has counted them all. `walk` has one round more than the path has characters, `read_clusters` and
--   `read_loop` one more than there are bytes to read, since each round uses up one at least.
--   `wake_chain` takes as many rounds as there are waiting threads.
--
-- Not modelled
--   The registers and the stacks that a switch of threads exchanges, CR3, PAT and the TLB, which have
--   no counterpart in the state.
--   The spin lock itself, and the order in which several processors reach it.
--   The calls of `kmalloc` and `kfree` from within one of their own, in heap.c: they change the list of
--   ranges that the outer call walks, and may not end.
--   The reading of the tables of a module from the bytes of its image, and what a module's own
--   functions do.
--   The creation of threads and processes, the copy of paths from user space, the
--   NVMe driver and other devices, the boot loader and the user-space libraries.
pub mod Base
pub mod Pmm
pub mod Vma
pub mod Vmm
pub mod Sched
pub mod String
pub mod Mmap
pub mod Fault
pub mod Slots
pub mod Files
pub mod Bytes
pub mod Fat32
pub mod Nag
pub mod Drivers
pub mod Sync
pub mod Gpt
pub mod Heap
pub mod Modules
