-- ===== src/Lib.antt =====
-- The kernel of WNU: its file system, console, shell, keyboard, block devices, FAT32 mount, network,
-- RTL8139 and SATA drivers, library, heap, PCI search, ELF loader, and the entry that runs them.
--
-- How the parts work together: the keyboard interrupt turns scancodes into characters of the console's
-- input line; the main loop polls the network card, reads a finished line and gives it to the shell;
-- the shell resolves paths and calls the file system; the file system, the shell and printf of the
-- library write to the console. The SATA driver finds its controllers on the PCI bus and registers a
-- block device for each, which gets a file under /dev. The mount command copies the files of a FAT32
-- volume into the file system: fat32_mount reads a block device and calls the file system. The shell's
-- ping and udp commands make the network send frames through the RTL8139 driver, whose receive loop
-- gives it the frames that arrive. _start calls the start of every part in turn and then runs the main
-- loop. The heap and the ELF loader stand alone.
--
-- Which file models which part:
--   Str        the four string helpers of src/fs/vfs.c, which src/shell/shell.c holds a copy of.
--              A C string is the list of its characters before the terminator.
--   Vfs        src/fs/vfs.c, include/wnu/vfs.h. The array `nodes` is a list, a node pointer is an
--              index, file data are a function from an index. wnu_vfs_create_dir is `create_dir`,
--              and so on; `create` is the body that the two creations share. Vfs.Path has the path
--              functions, Vfs.Listing the listing and the tree, as the text that is written.
--              Vfs.Spec has the abstract file system, a map from paths to entries.
--   Console    src/console/console.c, include/wnu/console.h: the cursor, the input line, and in
--              Console.Draw the pixels. The framebuffer is a function from an address.
--   Keyboard   src/drivers/keyboard.c.
--   Shell      src/shell/shell.c. Shell.Resolve is resolve_path; `execute` is wnu_shell_execute, a
--              function per command. What a command writes or asks of the network, SATA and screen
--              code is a list of events.
--   Heap       src/mem/heap.c. A pointer is an index into the array.
--   Pci        src/drivers/pci.c, include/wnu/pci.h. The word behind the two ports is a function of
--              the address that was written.
--   Elf        src/fs/elf.c, include/wnu/elf.h. The header is read from the bytes in place.
--   Block      src/block/block.c, include/wnu/block.h, with strncmp of src/lib/lib.c. A device's read
--              function is a field.
--   Fat32      src/fs/fat32.c. `fat32_mount` and its parts: the walk over the root directory here, the
--              loop over a file's clusters in Fat32.Chain. Fat32.Image is FAT32 in terms of a disk's
--              bytes, without the code. Fat32.Commands puts it into the shell.
--   Net        src/network/net.c. Net has `checksum`, over the list of the bytes that it reads,
--              Net.Frames the frames as lists of bytes, Net.Protocol the static variables, the
--              requests and net_handle_packet. What is sent and printed is a list of events.
--   Rtl8139    src/drivers/rtl8139.c. The card is a record of its ports' functions and its receive ring;
--              Rtl8139.Poll has the receive loop, which calls the network, and the start. Rtl8139.Ring
--              is the card's data sheet on the ring.
--   Sata       src/drivers/sata.c: the search, the block devices and their names. Sata.Command is
--              sata_block_read, Sata.Listing wnu_sata_print_devices. What the controller reads is
--              stated by the offsets of AHCI, not by those of the code.
--   Arch       src/arch/arch.c: the interrupt table and its pointer, the interrupt flag, the set-up of the
--              interrupt controllers, and the keyboard's interrupt, which calls the keyboard handler.
--   Libc       src/lib/lib.c: the functions on memory and strings, over one memory, and in Libc.Printf
--              printf, as the text that it writes to the console.
--   Platform   include/wnu/platform.h: physical addresses and the serial port, over the port
--              instructions, which are parameters.
--   Kernel     src/kernel/main.c: the state of all parts. Kernel.Boot is _start up to its loop, with a
--              panic as `none`; Kernel.Loop is the loop, a step for each call, with the keyboard's
--              interrupt and changes of the network card by itself between the calls. Kernel.Fed has
--              a card into which frames come, Kernel.NoCard none. Kernel.Terminal is what
--              the user sees of it: a line that is typed, a shell, and the place in the loop.
--   Mem, Bits, Prelude   byte arrays, laws of the bit operations, and the names all files share.
--
-- Numbers are naturals. A size_t wraps where the code can reach the wrap: the allocator's sums, the
-- inode counter, the free space of a file, the height of a scrolled screen. Indices into arrays and
-- framebuffer addresses are exact.
--
-- Bounds and fuel: the recursion of tree_walk takes 64 units of fuel, one for each level. A path is
-- shorter than 64 characters and each level makes it longer, so the fuel is enough. Every other loop
-- is structural. `fold_carries` takes 3 units for its tests: a 32-bit sum is below 2^17 after one
-- round and below 2^16 after two. `follow_chain` takes 4097 units, one for a cluster: each round
-- copies a byte at least, and the buffer has 4096. `print_unsigned_base` takes 65 units, one for a
-- digit: a 64-bit value has no more. The receive loop `poll_loop` lasts as long as the card shows
-- frames: its fuel is a parameter. One more than the frames that wait is enough for a card that follows
-- Rtl8139.Ring while no place behind a frame is in the first 16 bytes of the ring; after a place there
-- the code writes 0 to CAPR, and nothing is assumed about the card. Kernel.Runs therefore has two ends
-- for a schedule of the kernel's loop: after the last turn, or inside rtl8139_poll. The wait of
-- `wait_empty` lasts as long as the serial port is busy: its fuel is a parameter too. The waits for a
-- reset and for a disk's command are the source's loops of 1000000 tests.
--
-- fat32_mount is a parameter of Shell: it takes the file system, the device name and the mount point,
-- and gives a file system, its result and the text that it writes. Fat32.Commands fills it. A disk is
-- a function that answers a read, so it does not change while it is mounted; indices into the buffers
-- of fat32_mount are exact, also where a volume makes it read behind them.
--
-- The machine's hardware is a parameter of Kernel, and so are the boot loader's answers and the font
-- file. An interrupt comes between two calls of the loop of _start, not within one, so the console's
-- functions are never entered twice at once. The text of printf goes to the console when the driver's
-- call that wrote it is over. The row of a port in wnu_sata_print_devices, which C leaves
-- undefined, writes nothing; the rows around it are written.
--
-- Not modelled: strerror and abort of src/lib/lib.c; src/arch/arch_irq.asm, which saves registers; hlt
-- of include/wnu/platform.h (cli and sti are the interrupt flag of Arch); include/limine.h, the header
-- of the Limine boot protocol, another project.
pub mod Prelude
pub mod Mem
pub mod Bits
pub mod Heap
pub mod Console
pub mod Str
pub mod Pci
pub mod Shell
pub mod Keyboard
pub mod Elf
pub mod Vfs
pub mod Block
pub mod Net
pub mod Libc
pub mod Fat32
pub mod Rtl8139
pub mod Sata
pub mod Arch
pub mod Platform
pub mod Kernel
