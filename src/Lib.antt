-- ===== src/Lib.antt =====
-- nfp-udp-echo: a UDP echo server on a Netronome network card and its host.
--
-- The firmware's receiving program takes packets from the network, filters them, exchanges their
-- addresses, and writes them by DMA into a ring in the host's memory. A worker on the host copies
-- each packet into a second ring, from which the firmware's sending program reads it by DMA and
-- sends it. The programs share nothing but a structure on the card (devcfg.h) with the rings' heads
-- and tails, and the host's memory.
--
-- - Base: numbers, tests, lists, words, memory, and the arithmetic of rings.
-- - RingBuffer: user/lib/ring_buffer.h and user/lib/ring_buffer.c, each function by its name.
--   Counters gives a ring by the numbers of entries popped and pushed so far.
-- - Memzone: user/lib/memzone.c, each function by its name; map_zone is the second part of
--   memzone_reserve. What the system calls return is an argument.
-- - Firmware: firmware/rxops.c, firmware/txops.c and firmware/dma.c, each function by its name;
--   transfer is the common body of dma_packet_send and dma_packet_recv. The card's library and
--   hardware are the record Platform, with their documented behaviour in IsNfp.
-- - Echo: Worker is udp_worker and configure_device of user/app_main.c, Rx is firmware/rx.c, Tx is
--   firmware/tx.c. Each is a step machine whose program counter stands before the next access to
--   shared memory; rx_receive and tx_allocate are the first parts of rx_process and tx_process.
--   System lets the three programs take steps in any order, and Reach is what they can reach. The
--   fields accepted and sent are histories that no program reads: the frame that each packet
--   carries when its header has been rewritten, and the bytes that each sent packet has when it
--   leaves. Invariant holds the invariant of the system and its preservation by each step.
-- - Startup: main of user/app_main.c up to the start of its threads; clear_buffers is its second
--   part. Buffers says how it ends, Setup what the worker is started with, Echo joins it to the
--   programs of Echo.
-- - Registers: user/lib/io.h, each function by its name, on the accesses of user/nfpcore/rte_io.h.
-- - Cdev: user/nfpcore/nfp_cpp_dev_ops.c, the daemon that serves the card's memory to other
--   programs. The lists of areas with do_cpp_area_request (place and search are its choice of an
--   offset) and do_cpp_area_release; in Connections, a round of nfp_cpp_dev_poll of
--   user/nfpcore/nfp_cpp_dev.c, with what the system calls and the commands of the clients return
--   as arguments; in Transfer, nfp_cpp_dev_read with its two loops read_areas and read_pieces; in
--   Write, nfp_cpp_dev_write with write_areas and write_pieces. Aligned carries the alignment of
--   the whole transfer over to its areas and pieces. The library's calls are the records Library
--   and WriteLibrary; IsCard and Writes state what it documents: aligned offsets and lengths, and
--   ends of at most 40 bits.
-- - Cdev.Bars and Cdev.Start: nfp_enable_bars and nfp_cpp_dev_main of user/nfpcore/nfp_cpp_dev.c;
--   set_bars is the first loop of nfp_enable_bars, enable_explicit a round of the second; Placed is
--   about the table that it leaves. Polled is
--   what the connections can be after any rounds of nfp_cpp_dev_poll.
-- - Socket: programs that talk over a stream socket, as the trees of their calls of read and write
--   by what these return; dialogue runs a client and a server against each other. The loops over
--   read and write that several functions share are in Loops; Finish says when a program ends.
-- - Cdev.Command: nfp_cpp_dev_handle_cmd of user/nfpcore/nfp_cpp_dev.c, and in Ioctl,
--   nfp_cpp_dev_ioctl of user/nfpcore/nfp_cpp_dev_ops.c, as such programs.
-- - Shim: shim/interpose.c. pread_cpp and pwrite_cpp are what pread, pread64, pwrite and pwrite64
--   do on the device, Ioctl what ioctl does, Descriptors the table of descriptors with open,
--   open64, openat and close, Served the calls between an open64 and a close. Exchange puts the
--   shim and the daemon together.
-- - Contexts: firmware/multi_rx.c, the receiving program on several contexts; multi_rx_at is main
--   and rx_process, and MultiReach what the contexts can reach in any order while the host writes
--   the rest of the structure on the card as it likes. Contexts/Tx is firmware/multi_tx.c, the
--   sending program, in the same way. Count counts the contexts by the entry they hold, Order has
--   the invariant of both programs and the moves that keep it, Steps and Tx/Steps apply them.
-- - Driver: user/lib/driver.c, each function by its name: Strings has strsplit, Numbers what the
--   file uses of the C library's numbers, Address, Resources, Scan and Mapping the rest.
--   scan_entries and map_resources are the loops of pci_scan and pci_map_device. The files of /sys
--   are an argument.
-- - Tests: a small card, runs, and instances of the theorems.
--
-- Words are natural numbers with their wrap-around written out. Some loops run on fuel:
-- find_unused, over the 1024 elements of the table of zones, gets 1024 rounds; read_areas, like
-- write_areas, gets one more round than there are bytes, read_pieces, like write_pieces, one more
-- than the area has bytes. Each round moves at least one byte, but for the pieces of an area of
-- 2^32 bytes or more, where the 32-bit position goes round for ever: a loop that has used up its
-- rounds comes to still_reading or still_writing, and the command then to spin. The loops over
-- read and write in Socket take their rounds as an argument, and the theorems on Shim hold for any
-- number of rounds but none, since the socket hands over all that has been sent; Finish gives the
-- rounds that are enough whatever the socket hands over. The sizes of user/config.h are
-- parameters: any entry size up to 4096 bytes, the most that one DMA command moves, and any whole
-- number of entries within 32 bits. A wait of a program is a step that leaves it where it is.
-- Memory barriers have no counterpart, since every access is a step of its own; the copy of a
-- packet on the host, and a DMA transfer, are one step each.
--
-- Not modelled: pci_mknod_uio_dev of user/lib/driver.c, whose failure is only reported, the return
-- of udp_worker where the card has no structure for the device, a malloc that fails, but for the
-- one of nfp_cpp_dev_main, the log and statistics threads of user/app_main.c, which only print,
-- and user/nfpcore otherwise, which is a copy of a library.
pub mod Base
pub mod RingBuffer
pub mod Firmware
pub mod Driver
pub mod Echo
pub mod Contexts
mod Tests
pub mod Memzone
pub mod Startup
pub mod Registers
pub mod Cdev
pub mod Socket
pub mod Shim
