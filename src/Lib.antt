-- ===== src/Lib.antt =====
-- Verification of hazle-os, a 32-bit operating system in C: its FAT32 file system, its drivers, its
-- string library, the heap, the program loader, the system calls, the configuration file and the
-- shell.
--
-- How the parts interact. drivers/ata.c moves sectors through the ports of a disk, drivers/block.c
-- gives them to drivers/fat32. There, bpb.c reads the boot sector and moves whole clusters, fat.c
-- keeps the allocation table behind a one-sector cache, directory.c works on directory entries,
-- file.c on paths and open files, mount.c on the volume and the current directory. All of them use
-- lib/string.c. kernel/exec.c finds a program with the file calls, kernel/elf.c loads it into memory,
-- kernel/syscall.c serves its calls, for which userlib/hazle.c is the other side. kernel/sysconf.c
-- reads the configuration, kernel/heap.c hands out memory. shell/shell.c takes a line from
-- drivers/keyboard.c, shows it with drivers/display.c on drivers/framebuffer.c, and runs it.
--
-- Which file models what.
--   Prelude            names that are shared: Booleans, lists, options, bytes and words, C integers,
--                      texts (Text)
--   Device             the block device as an interface (drivers/block.c): one sector per call, each
--                      with its success, and what the medium holds after it
--   Ports              the ports of the processor as an interface (include/io.h)
--   Libc               lib/string.c; a C string is the list of its characters
--   Fat32              fat32_fs_t, and the static variables of fat.c (Volume)
--   Fat32.Table        drivers/fat32/fat.c: get_fat_entry is fat32_get_fat_entry, and so on
--   Fat32.Bpb          drivers/fat32/bpb.c
--   Fat32.Directory    drivers/fat32/directory.c: Entry has the 32-byte entries, Walk the searches,
--                      Listing fat32_read_dir and the long names
--   Fat32.Path         drivers/fat32/file.c: paths, creation, deletion, renaming
--   Fat32.File         drivers/fat32/file.c: open files; Calls has the calls on descriptors
--   Fat32.Mount        drivers/fat32/mount.c
--   Drivers.Ata        drivers/ata.c; Identify has ata_identify and ata_init
--   Drivers.Block      drivers/block.c
--   Drivers.Keyboard   drivers/keyboard.c
--   Drivers.Vga        drivers/vga.c
--   Drivers.Timer      drivers/timer.c
--   Drivers.Rtc        drivers/rtc.c
--   Drivers.Speaker    drivers/speaker.c
--   Drivers.Framebuffer  drivers/framebuffer.c
--   Drivers.Vesa       drivers/vesa.c
--   Drivers.Display    drivers/display.c
--   Kernel.Heap        kernel/heap.c
--   Kernel.Elf         kernel/elf.c
--   Kernel.System      the state that the calls share: files, screen, keyboard, memory and so on
--   Kernel.Exec        kernel/exec.c
--   Kernel.Syscall     kernel/syscall.c: Files and Console have the calls, Dispatch syscall_handler
--   Kernel.Sysconf     kernel/sysconf.c
--   Shell              shell/shell.c: Line has the editing of a line, Command the built-in commands
--                      and the start of programs, Loop the main loop
--   Userlib            userlib/hazle.c: the string functions, and in Calls the system calls
-- State is passed on explicitly: an operation takes the volume, the keyboard, the screen or the memory
-- and returns it with its result. Numbers are natural numbers, with the wrap at 32 bits written out.
-- A buffer is a function from indices to bytes, so that an access past its end is not an error of the
-- model; the bounds of the code's arrays are part of what is stated where it matters. Clusters go
-- through two arrays of 32768 bytes: on a volume with larger ones the operations on files and
-- directories have the result none, which stands for the write past the array, and the theorems ask
-- for clusters that fit. The loader's memory is one for the file and the segments, with addresses that
-- wrap at 32 bits.
--
-- Parameters. The ports and what is behind them, the medium, the glyphs of the font, and the run of a
-- program that has been loaded are arguments of the definitions that use them.
--
-- Fuel. The loops over clusters take fuel, and their outer option is none when it runs out:
-- free_chain ends with two rounds more than the table has entries, chain_length with one more than
-- the chain has clusters, read_loop with one more than the bytes that are left to read. A circle
-- in a directory's chain keeps its walk from ending, and so no fuel is enough there. The wait for the
-- clock chip ends as soon as the chip's update does, and takes one round more than there are reads
-- before that. The main loop of the shell never ends, and takes the number of its rounds.
--
-- What the theorems on the table ask for: 512-byte sectors and regions of the volume that follow one
-- another without overlap.
-- Where a theorem speaks of a reliable device, no call of it fails. Theorems on the disk driver and on
-- the clock take what the standard of the device says as a record over the ports (Disk, IsDataless,
-- Clock), and a concrete device in the tests fulfils it.
--
-- Not modelled: fb_draw_line, which computes with floating-point numbers; the glyphs, which are data;
-- the programs that are run, and setup_stack_and_call, which nothing calls; the processor's tables (kernel/gdt.c, kernel/idt.c)
-- and the start of the kernel (kernel/kernel.c), which write constants and call the drivers in order;
-- the commands (system/commands), which are programs over the system calls; exit of userlib/hazle.c,
-- which never returns, and its atoi and itoa, which are the text of lib/string.c again.
pub mod Ports
pub mod Shell
pub mod Userlib
pub mod Prelude
pub mod Device
pub mod Libc
pub mod Fat32
pub mod Drivers
pub mod Kernel
