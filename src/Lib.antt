-- ===== src/Lib.antt =====
-- TEST OS, a 32-bit kernel for the PC. This library models its string and number functions, and the
-- heap, the threads, the timer, the disks, the files of FAT32, the console, the real-time clock and
-- the keyboard of the kernel.
--
-- Memory is a function from addresses to bytes (`Base.Memory`); a function that writes through a
-- pointer takes a memory and returns the memory behind it, and a returned pointer is an address, 0 for
-- `NULL`. The processor is little-endian, `char` is signed, `uint32_t` and `size_t` have 32 bits, and
-- sums that the code does in them wrap at 2 ^ 32. Addresses inside the string functions are not cut to
-- 32 bits.
--
-- The parts and the files:
-- - `Base`: tests and codes of characters (`Base.Tests`), lists (`Base.Lists`), bits (`Base.Bits`),
--   memory (`Base.Memory`).
-- - `Text`: libraries/text.c, numbers as digits. `Text.Digits` defines what a numeral means.
-- - `Ctype`: libraries/ctype.c, the case of letters.
-- - `Block`: the memory functions of libraries/string.c (memcpy, memmove, memset, memcmp, memchr).
-- - `Cstring`: the string functions of libraries/string.c (strlen, strcmp, strcpy, strncpy, strrchr,
--   strtok with its static state). `Cstring.Holds` says that a string stands in memory.
-- - `Bitmap`: kernel/bitmap.c and include/bitmap.h, the heap. It uses `Block` for clearing the map and
--   for moving a block. `Bitmap.Pages` reads the map as a set of pages, `Bitmap.Scan` and
--   `Bitmap.Mark` treat the loops, `Bitmap.Malloc`, `Bitmap.Wrap`, `Bitmap.Free`, `Bitmap.Realloc`,
--   `Bitmap.Init` and `Bitmap.Report` the operations.
-- - `Thread`: kernel/thread.c and include/thread.h, the four lists of threads, their ids and the
--   scheduler; a call is one step under the lock. `Thread.Chain` is about linked lists, `Thread.State`
--   defines the well-formed states, `Thread.Find`, `Thread.Unlink`, `Thread.Link`, `Thread.Move` and
--   `Thread.Moves` treat the way of a thread from one list to another, `Thread.Switch`,
--   `Thread.Scheduled` and `Thread.After` who runs next, `Thread.Lists` the operations, `Thread.Turns`
--   the turns of the scheduler. `Thread.Start` models the beginning of
--   start_thread, `Thread.Clean` its cleaner, `Thread.Create` thread_create.
-- - `Timer`: kernel/timer.c, on `Thread`: sleeping threads. `Timer.Wake` and `Timer.Due` are about one
--   thread that is woken, `Timer.Poll` about a pass over the suspended ones.
-- - `Disk`: kernel/disk.c and include/disk.h, the list of disks. `Disk.Requests` models the requests to
--   the drivers, which are a parameter; `Disk.Requests.Table` says what each of them needs.
--   `Disk.Register` is about registration and lookup, `Disk.Format` models formatting and checking.
-- - `Fat`: kernel/fat32.c, the file system. The device that `struct disk` points to is an interface,
--   `Device`, with what a device promises. `Fat.Transfer` models reading and writing the bytes of a
--   file; `Fat.Transfer.Pieces` composes the parts of a request, `Fat.Transfer.Placed` says where
--   clusters lie, `Fat.Transfer.Sound` that they lie apart, `Fat.Transfer.Read`, `Fat.Transfer.Write`, `Fat.Transfer.Total` and
--   `Fat.Transfer.Back` are about a whole request. `Fat.Table` models the buffer of the file
--   allocation table; `Fat.Table.View` says what its readers see, `Fat.Table.Entries` is about its
--   words. `Fat.Blocks` models the list of a file's clusters: `Fat.Blocks.Chain` says what a chain
--   is, `Fat.Blocks.Open`, `Fat.Blocks.Extend` and `Fat.Blocks.Truncate` follow, lengthen and cut it.
--   `Fat.Names` models the names of directory entries on the disk, with `strchr` as a parameter,
--   which only names of eight letters and more reach. `Fat.Files` composes opening and reading.
-- - `Console`: kernel/console.c, the text cursor. A call into the video driver (kernel/vbe.c) is a
--   value in the list of what was drawn. `Console.Cells` and `Console.Text` relate the console to a
--   terminal of character cells.
-- - `Rtc`: kernel/rtc.c and include/rtc.h. The clock is a parameter, a sequence of register readings.
--   `Rtc.Clock` is about reading the time, `Rtc.Stamp` about the time stamp of a date.
-- - `Keyboard`: kernel/keyboard.c with the flags of kernel/keymap.h, whose tables are a parameter: the
--   interrupt, the ring of keys (`Keyboard.Ring`) and its reader.
--
-- Loops over a count run on that count. Loops that end at a byte of a string run on fuel and return
-- `none` when it is used up; each theorem about them takes fuel above the length of the string and
-- states the result itself. The loop of `read_rtc` runs on fuel, too: it ends once two readings
-- agree. Loops over a list of threads or disks run on fuel, and each theorem about them takes fuel
-- above the number of the nodes. A chain of clusters is followed on fuel, since the code does not
-- end on one that comes back to itself; a chain with an end takes fuel for as many clusters.
-- `none` of `bitmap_free` and of `disk_register` is a failed assertion, which halts the kernel.
--
-- Not modelled: assembly, the boot loader, ports and page tables, drawing, and (so far) waiting for
-- threads and the list of threads of start_thread, the directories of the file system, its check and
-- format, strchr, printk, busy waiting and commands. A switch of stacks is
-- not modelled either: a call that switches ends with the next thread as the current one. The lock
-- of the heap is held throughout each call, so that a call is one step; the same holds where
-- interrupts are off.
pub mod Base
pub mod Text
pub mod Ctype
pub mod Block
pub mod Cstring
pub mod Bitmap
pub mod Thread
pub mod Timer
pub mod Disk
pub mod Fat
pub mod Console
pub mod Rtc
pub mod Keyboard
