-- ===== src/Lib.antt =====
-- The parts of ORTos that decide what happens to a user's data and to the kernel's tables, as
-- definitions that compute, with the theorems that make them correct.
--
-- The program. The shell, the desktop and the browser sit on top: the browser
-- (src/apps/browser.c) parses what it fetches, and the others call the VFS (src/fs/vfs/vfs.c), which
-- makes paths absolute and hands everything to the storage (src/fs/storage/storage.c). The storage
-- keeps a table of 64 entries, 16 descriptors and a cache of four sectors, and saves the table through
-- a block device. Output goes to a text console (src/kernel/core/print.c).
-- The kernel has a table of 16 processes (src/kernel/process/process.c), a pool of 128 pages
-- (src/kernel/memory/memory.c) and a loader for programs (src/kernel/exec/ora.c). Scan codes are
-- decoded by src/drivers/keyboard/keyboard.c into a ring (include/ui/terminal_input_ring.h). The
-- network layer has tables of interfaces, sockets and firewall rules and checks packets
-- (src/net/config/network_stack.c), builds and reads frames (src/net/ethernet.c), and keeps track of
-- the links (src/drivers/ethernet/network.c).
--
-- The files.
-- - Base: Boolean tests, lists and texts over the native numbers, the search loop that the kernel
--   uses.
-- - Storage: State has the statics; Run how a call returns or fails, with the statics it leaves in
--   both cases; Bytes and Path the helpers on bytes and paths; Disk, Bitmap, Inode and Sync the
--   layers down to the device; Files, Remove, Rename and Content the calls on entries and
--   descriptors, each under the name of its function.
--   Info has the questions (entry information, listing, space) and Check storage_fsck.
-- - Console: the text console of src/kernel/core/print.c, without a graphical backend.
-- - Desktop: src/ui/core/desktop_storage.c, what the desktop sees to at its start.
-- - Shell: Words, Clock, Alias, Paths and Create, the parts of src/apps/shell/shell.c that decide;
--   what a command prints is its outcome.
-- - Vfs: vfs_resolve_path; vfs_readdir stands in Storage/Info.
-- - Browser: Url, Http and Html the parsers of src/apps/browser.c; a document's nodes stand in an
--   array, and a pointer to one is its index.
-- - Process, Kernel (Memory, Ora), Ring, Keyboard: as their sources; Keyboard/Keys has the keys as
--   tables.
-- - Net: Stack has the tables, Packet the checksum and the parsers, Ethernet the frames, Link
--   the links.
-- - The Tests modules apply the theorems at small inputs.
--
-- How the code is translated. A static is a field of a record; a function takes the record and gives
-- the new one beside its result. A pointer into a table is an index, and a null pointer `none`; the
-- tests of pointers that no caller passes as null are left out. A byte is a number below 256; sums
-- of machine integers wrap where they are written with % 2 ^ 64 or % 2 ^ 32. Code outside these
-- files is a parameter: the block device, the clock, the functions of the loader, the address of
-- the page pool, the values that the keyboard's ports give.
--
-- Fuel. `create` calls itself for a missing parent with 64 rounds: each parent is shorter than its
-- child, and a path has fewer than 64 characters. The folding of the checksum has three rounds, of
-- which 32 bits need two. The HTML parser takes a character at least in every round, and has as many
-- rounds as characters; a run whose rounds ran out would give `none`. The loops over a DNS name and
-- over a program's payload take one round for each byte, and every round takes at least one.
--
-- Not modelled: the storage's self-test; the drivers, which are port access; the user interface and
-- the browser's window, which draw; most commands of the shell, which print; the host tools.
pub mod Base
pub mod Browser
pub mod Console
pub mod Desktop
pub mod Kernel
pub mod Keyboard
pub mod Net
pub mod Process
pub mod Ring
pub mod Shell
pub mod Storage
pub mod Vfs
