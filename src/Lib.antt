-- ===== src/Lib.antt =====
-- EitanOS, a 64-bit hobby kernel (C sources below src/): a model of its parts and their theorems.
--
-- The physical memory manager hands out 4096-byte frames, the page tables of the virtual memory manager
-- and the heaps are made of them, the scheduler switches between processes with page tables and heaps of
-- their own, and the file system, the screen and the program loader are reached by system calls.
--
-- Files:
-- - Base: shared names, Boolean tests, C arrays as lists, 64-bit sums, the monad of faults.
-- - Pmm (src/memory/pmm.c): the bitmap as a list of bytes; an access outside it is `none`. Pmm/Init is
--   `pmm_init` over the loader's memory map. `pmm_get_bitmap` and its size are plain reads of the state.
-- - Gdt (src/gdt.c): the table as a list of bytes, an offset for a pointer into it. Gdt/Encoding is what the
--   processor reads, after its manual.
-- - Scheduler (src/process/process_scheduler.c): a process at every address, the circle of `next` pointers
--   through them. What it calls of the page tables and the heaps is the interface `Machine`, of which nothing is
--   assumed: a call may panic or fail to return, as `allocator_unmap_heap` does for a kernel heap and
--   `vmm_unmap_PML4` may. A walk of the
--   circle needs fuel for every process on it, a tick as many rounds. Turns is the step relation of a tick's loop.
--   `process_code` and the registers of the handler are arguments and results; `cli` and `sti` have no
--   counterpart.
-- - Vmm (src/memory/vmm.c): the words of all tables by pointer and index, over the frames of Pmm. The four
--   levels are one definition each. Loops over pages recurse on the pages that are left; `vmm_are_mapped`
--   has fuel, since its address wraps behind the last page. The shift of `physical_addr`, a field of 40 bits, is cut to 40
--   bits as gcc does. `invlpg` has no counterpart.
-- - Interrupts (src/process/interrupts.c): the descriptors of the interrupt table, the addresses of the
--   handlers as arguments; calls in a row for consecutive vectors are one recursion.
-- - Screen (src/screen.c): the text buffer, its end and the scroll. Glyphs and pixels are output.
-- - Text (src/util/string.c): a `char*` is the list of the bytes from it on, a result that points into it a
--   place in that list, and a read behind the list is `none`. `str_split` gives its loops one unit of fuel
--   more than the string has bytes, which is proved enough. Memory for the tokens is taken for granted, as
--   the code does; `str_concat` is told whether there is memory, and `substr` what the new memory holds.
--   Text/Concats is `strdup` and `str_concats`. `num_to_str` on floating point numbers
--   is not modelled.
-- - Filesystem (src/filesystem.c): the drive is the bytes it holds (Disk); a transfer is whole, and the waits
--   and ports for it have no counterpart, and the count of its sectors is what `ceil` of util.c gives, whose cast to
--   `int` is the least one from 2 ^ 31 on. Table is the table of files in sectors 1 to 20, an empty list where the
--   pointer is null; Space the search for free sectors and `edit_file`; Paths the tests and the cuts of paths;
--   Directories the entries of 64 bytes, `resolve_path` and the changes of a directory; Operations the calls
--   that the kernel offers. An access out of range is `none`, except behind the buffers that callers pass to be read into. `fresh` is what
--   new memory holds, and allocations
--   succeed, since the code does not test them. The recursive deletion has fuel for the depth of the
--   directories, which is proved enough. Directories/Listing and Directories/Walk are what the bytes of
--   directories stand for: lists of names, and a tree of them. `identify_drive` is port input and output; the
--   size of the drive is part of the state. What is printed is not modelled.
-- - Shell (programs/shell/c.c): `join_working_dir` and `parse_path`, which make a path absolute and
--   canonical before it goes to the file system. The string functions are those of Text, of which
--   the program has a copy. The path's memory is the list; writing behind it is `none`.
--   Shell/Command is `parse_command_line`. The parts on the stack are their bytes, so giving their
--   memory back has no counterpart. The first loop has one unit of fuel more than the path's memory
--   has bytes, and so has that over the arguments of a command; both are proved enough.
-- - Allocator (src/memory/allocator.c): headers in a memory that has one at every address, the free
--   list as pointers through it; `Run` tells a value from a panic and from fuel that ran out. A walk of
--   the free list needs one unit of fuel more than the list has blocks. Allocator/Spec is the heap as a
--   list of spans. Kernel and process heaps are kept apart, since they lie at different addresses.
--
-- Not modelled: the identification of the drive, drawing on the screen, the program loader, the dispatch of system calls, the
-- shell's commands and its reading of the keyboard; port input and output in assembler, compiled fonts and
-- programs, the boot loader's own sources.
pub mod Base
pub mod Pmm
pub mod Allocator
pub mod Filesystem
pub mod Gdt
pub mod Interrupts
pub mod Scheduler
pub mod Shell
pub mod Screen
pub mod Text
pub mod Vmm
