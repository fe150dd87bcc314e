-- ===== src/Lib.antt =====
-- The KolibriOS hybrid kernel keeps its leaf routines in Rust: rust_kernel/kolibri_utils/src holds
-- one file for each routine or small family of them, and the assembly kernel under kernel/ calls
-- them through trampolines. This library models such routines.
--
-- The parts, each with the files that model it:
--
-- Base: what all parts share. Base.Word has the casts and the wrapping operations of u8, u16,
--   u32 and the signed readings; Base.Bits and Base.Fields the laws of `&`, `|` and `!`; Base.Memory
--   byte memory behind a pointer with little-endian accesses; Base.Bitmap the bit tests and bit
--   stores `bt`, `bts` and `btr` on such a memory; Base.Lists tables; Base.Scan loops that look
--   for the first hit; Base.Flips the laws of `^`; Base.Tests Boolean tests.
-- PhysBitmap models rust_kernel/kolibri_utils/src/phys_bitmap.rs, the allocator of physical pages
--   over the bitmap `sys_pgmap`. Its state is the record PageMap: the bytes of the map, the cursor
--   `page_start`, the limit `page_end` and the counter `pages_free`. The operations alloc_page,
--   alloc_pages, free_page and release_bitmap_page_mode_b take it and return the new one beside the
--   value in EAX. PhysBitmap.Invariant has the well-formedness of a map and what an allocation does,
--   AllocPage, AllocPages and FreePage one operation each, FirstBit the search for a set bit,
--   Accounting the number of free pages, System sequences of calls (a release by number only from the
--   cursor on, which it does not move), Refinement the allocator as a
--   set of free pages. The older release of rust_kernel/kolibri_utils/src/release_bitmap_page.rs is here too.
-- PortArea models rust_kernel/kolibri_utils/src/port_area.rs and set_io_access_rights of
--   rust_kernel/kolibri_utils/src/io_access.rs, the reservation of I/O ports by system call 46. Its
--   state is the record Ports: the table of reservations (a count, then 16-byte entries) and the
--   permission bitmap of the thread. PortArea.Ranges is about runs of the bitmap, Table about the
--   bytes of an entry, Invariant about both together, Reserve and Free about one operation each,
--   System about one call and about a reservation that is freed, Threads about sequences of calls by
--   threads with a bitmap each. r_f_port_area is the entry point with both operations.
-- FsTime models rust_kernel/kolibri_utils/src/time.rs. Calendar and RoundTrip are about
--   fs_calculate_time and fs_time2bdfe, between calendar fields (BdfeTime) and seconds since 2001;
--   FileSystems about the time stamps of NTFS, XFS and ext4, which go through those two; Packed
--   about the 16-bit dates and times of FAT.
-- XfsHash models rust_kernel/kolibri_utils/src/xfs_hash_lookup.rs, the binary search of a
--   directory leaf; XfsHash.Search has its theorems.
-- Strings models rust_kernel/kolibri_utils/src/string.rs and
--   rust_kernel/kolibri_utils/src/memmove.rs, the C string routines and the forward memory move:
--   Length, Scan, Compare, Copy and Move.
-- NtfsUsa models rust_kernel/kolibri_utils/src/ntfs_usa.rs, which puts the last words of the sectors
--   of an NTFS record back in place; NtfsUsa.Restore has its theorems.
-- NtfsMcb models rust_kernel/kolibri_utils/src/ntfs_mcb.rs and
--   rust_kernel/kolibri_utils/src/ntfs_create_mcb.rs, the decoder and the encoder of run list entries:
--   Bytes is about little-endian numbers, Width about their lengths, Decode and RoundTrip about both
--   routines.
-- Geometry models rust_kernel/kolibri_utils/src/geometry.rs: block_clip cuts a rectangle (Rect) by
--   another, and blit_clip a block to be copied (BlitterGeom) by the clips of its source and its
--   destination, which calls block_clip for each. Clip and Blit have the theorems.
-- PidToSlot models rust_kernel/kolibri_utils/src/pid_to_slot.rs, the search of the process table for a
--   thread; AhciSlot models rust_kernel/kolibri_utils/src/ahci_find_cmdslot.rs, the search for a
--   free command slot. Lookup and FirstFree have their theorems.
-- Checksum models rust_kernel/kolibri_utils/src/checksum.rs, the Internet checksum with its register
--   and carry: Words is about one word, Sum and Total about the stages, Inet about both routines.
-- Tcp models rust_kernel/kolibri_utils/src/tcp.rs: Estimators is about the round-trip estimators, Timers
--   about the persist timer.
-- Network models rust_kernel/kolibri_utils/src/ipv4_route.rs (Routes), net_ptr_to_num4.rs and
--   ipv4_find_fragment_slot.rs (Devices) and socket_check.rs (Sockets) of the same directory.
-- Utf models rust_kernel/kolibri_utils/src/utf16_to_8.rs and rust_kernel/kolibri_utils/src/utf8to16.rs:
--   Encode is about the bytes of a unit, Units about one call, Text about strings, Decode and RoundTrip
--   about the decoder.
-- Partition models rust_kernel/kolibri_utils/src/partition.rs: Entries is about entries of a table,
--   Protective about the protective MBR.
-- UserGate models rust_kernel/kolibri_utils/src/userspace.rs and
--   rust_kernel/kolibri_utils/src/fs_operation_safe.rs, the tests of user memory, with Regions about them.
-- ExfatChecksum models rust_kernel/kolibri_utils/src/exfat_checksum.rs, with Field about the field of a
--   set of entries.
-- XfsExtent models rust_kernel/kolibri_utils/src/xfs_extent.rs and
--   rust_kernel/kolibri_utils/src/xfs_get_last_dirblock.rs: Record is about the fields of a record,
--   Transfer about what is written for the caller, LastBlock about directories.
-- XfsNode models rust_kernel/kolibri_utils/src/xfs_node_hash.rs (Descend) and xfs_hashname.rs (Hash) of
--   the same directory.
-- DiskBlocks models xfs_blkrel2sectabs.rs (Xfs), get_inode_location.rs (Ext), fat_get_sector.rs and
--   exfat_get_sector.rs (Fat) of that directory.
-- FatName models rust_kernel/kolibri_utils/src/fat_name.rs, with casefold.rs of the same directory (Case):
--   Digits, Walk and Next are about the numbers of short names, Next.Exhaust about their sequence, Frame
--   about the cells that stay, Legal about long names, Generate about the short name of a long one, and
--   Generate.Plain about a long name that fits into a short one.
-- Window models rust_kernel/kolibri_utils/src/window.rs: Position is about the display, Client about the
--   client area.
-- Device models ahci_port_wait.rs (Wait), get_pg_addr.rs and v86_get_lin_addr.rs (Pages) and
--   usb_td_to_virt.rs (Transfers) of that directory; the device register and the tick counter are
--   parameters.
-- Coff models fix_coff_symbols.rs (Link, with Link.Table about its outcome) and get_coff_sym.rs (Lookup) of that directory; the search of
--   the kernel's exports is a parameter.
-- Each part has a module Examples with runs at concrete inputs.
--
-- How the code is read. Integers are natural numbers with the wrap-around written out; an i32 is its
-- u32 bit pattern, compared after the sign bit is turned. A raw pointer is an offset or address in
-- a Memory, a function from addresses to bytes, and the accesses are those that the routines'
-- safety contracts allow. A routine that changes memory in place returns the new memory; two
-- pointers of a routine stay in one memory where the code lets them overlap. Volatile stores are
-- stores. The `_ptr` wrappers that only call a routine are that routine.
--
-- Loops. A loop on a counter recurses on the counter. Any other loop takes fuel and returns `none`
-- when it runs out. It is given `page_end + 1` rounds for the searches
-- of the page bitmap, whose cursor goes up at each round until it reaches `page_end`; twelve rounds
-- for the months of a year; two for the bytes of a UTF-16 unit; a round for each byte of room and
-- one more for a string of units; one more than the sockets of a list; four for the bytes of a u32;
-- `thread_count + 1` for the slots of threads; eight for the places of a base name; one more than the
-- pages of transfer descriptors; more than the rounds until the deadline of a wait, which the theorem
-- on it asks for; 33 rounds for the binary search, which halves a u32 length; 2^32 rounds, one for
-- each address, for the string loops that stop at a NUL.
--
-- Not modelled: the assembly kernel and the trampolines with their locks, paging and device
-- registers; the exported wrappers of ffi.rs; the test oracles; the tools and build scripts; and the
-- routines in the other files of rust_kernel/kolibri_utils/src. What the processor and the disk do
-- between two calls is outside the model.
pub mod Base
pub mod Strings
pub mod XfsHash
pub mod XfsExtent
pub mod Coff
pub mod Device
pub mod Window
pub mod FatName
pub mod XfsNode
pub mod DiskBlocks
pub mod NtfsUsa
pub mod Geometry
pub mod AhciSlot
pub mod PidToSlot
pub mod NtfsMcb
pub mod Checksum
pub mod Tcp
pub mod Network
pub mod Utf
pub mod Partition
pub mod UserGate
pub mod ExfatChecksum
pub mod PhysBitmap
pub mod PortArea
pub mod FsTime
