-- ===== src/Lib.antt =====
-- libyaul: a model of C code of libyaul, the library of the Yaul development kit for the Sega
-- Saturn, with proofs about it. Paths are from the root of the repository.
--
-- The parts and how they interact. The program is single-threaded code on the SH-2 with
-- interrupt handlers. A pool (memb) hands out blocks of one size. A callback table
-- (callback-list) holds functions that are run together, such as those that follow a frame. The
-- DMA queues (dma-queue) collect SCU-DMA requests under three tags and run the requests of one
-- tag at a time; each request's handler is told when its transfer is complete, and that of the
-- first also when it starts. The frame synchronisation (vdp_sync) sends command lists to the
-- VDP1 through the tag for immediate transfers and commits the VDP2's state through the tag for
-- VBLANK-IN; its interrupt handlers and the DMA handlers set flags on which vdp_sync waits, and
-- it runs a callback table at the end. The command tables that are sent are filled in by
-- vdp1_cmdt and vdp1_env, into VRAM that vdp1_vram has divided. The SMPC's interrupt handler
-- collects reports, from which smpc_peripheral_process makes the peripherals, in blocks of a
-- memb pool. The ROM disk (romdisk) reads files of a ROMFS image in memory, and libtga decodes
-- images of the TGA format that lie in memory. Of the 3D graphics (libsega3d), the matrix stack
-- holds the transforms of nested objects, and the packets made of polygons are put into lists by
-- depth and sent from the farthest on.
--
-- The files:
--   Base                 Boolean tests, lists with indices, 32-bit words, facts checked by value.
--   Memb                 libyaul/kernel/mm/memb.{h,c}. `Memb` is memb_t; alloc_block and free_block are
--                        memb_alloc and memb_free of a pool that is not NULL. Children: the invariant
--                        (Inv), the search (FirstFit), Alloc, Free, RoundTrip, Init.
--   CallbackList         libyaul/kernel/sys/callback-list.{h,c}, function by function. Children: Add,
--                        Clear, Process.
--   DmaRing              libyaul/kernel/sys/dma-queue.c, the _queue_* functions on one ring. Children:
--                        Size, Refine (the ring as a queue), Overrun.
--   DmaQueue             the dma_queue_* functions on the rings of all tags. Children: Enqueue, Drain
--                        (the wait), Flush, Clear.
--   Cpu                  the CPU's peripherals. Dmac: libyaul/scu/bus/cpu/cpu_dmac.c and cpu/dmac.h, with
--                        Config and Busy (the status).
--   ScuDma               libyaul/scu/scu_dma.c, scu_dma_config_buffer. Its child Levels has the levels,
--                        with Wait and Transfer.
--   VdpSync              libyaul/scu/bus/b/vdp/vdp_sync.c: the state, the modes and the interrupt
--                        handlers. Program: the functions that the program calls, over DmaQueue and
--                        CallbackList; its children are Commit, Ends and Returns (the loop), Sync,
--                        Stuck (vdp2_sync_commit) and Hang. Other children: Frame (orders of interrupts),
--                        Auto, Variable.
--   Romdisk              libyaul/kernel/vfs/fs/romdisk/romdisk.c. Children: Listing (one directory), Find
--                        (paths), Open, Read, Seek.
--   Vdp1                 libyaul/scu/bus/b/vdp/vdp1_*.c. Cmdt: the functions that fill in a command table;
--                        its child Control reads the control word as fields, Params the size. Vram: the
--                        partitions, with the child Layout. Orderlist: order lists, with Patch. Env: the
--                        drawing environment, with Erase (the erased area) and Preamble.
--   Tga                  libtga/tga.c: the header and the pixels. Children: Fill (runs by words), Pixels
--                        (the true-colour decoder), Rle (packets, with Packets, Length and Long), Palette, Indexed (colour-map images),
--                        Decode (the choice of a decoder; Same and Accepted are its theorems).
--   Sega3d               libsega3d. Lists: list.c, with Owner (the heap). Matrix: matrix_stack.c,
--                        with Scene (matching pushes and pops) and Overflow. Sort: sort.c, with Chains (the lists), Sent and Count.
--   Smpc                 libyaul/scu/bus/cpu/smpc/smpc_peripheral_init.c: the parser of the reports, with
--                        Pads (digital pads) and Tap (multi-taps). Collect: the interrupt handler, with
--                        the child Whole.
-- A child called Tests holds the runs at concrete inputs.
--
-- How the code is read. A struct is a record and a function a function on it; a pointer that may
-- be NULL is an Option; an int result of 0 or -1 is a Bool or an Option, as the definition says.
-- An integer of w bits keeps its wrap-around (add32, sub32, mul32, % 256), and a signed one is
-- its bit pattern. An access outside an array or a failed assert is `none`. An access to 16 bits
-- at an odd address, on which the SH-2 faults, is undefined in the decoders of libtga, which
-- take pixels from a file of bytes and a destination from the caller. What code outside the
-- repository or hardware decides is an argument: the address that an allocation returns, the
-- memory that it holds, the functions called from a callback table, and the interrupts that
-- arrive during a wait. What the code does outside its state (transfers, calls of handlers,
-- writes to registers) is a list in the order in which it happens. Interrupts are handled one at
-- a time, between the steps of the program; in the loop of vdp_sync they come at the start of a
-- round.
--
-- Loops. The first-fit search of memb_alloc runs on m_bnum rounds, since the index comes back to
-- its start within that many. dma_queue_flush_wait and dma_queue_tag_clear run on 256 rounds:
-- head and tail are bytes. callback_list_process runs on 255, the largest count.
-- romdisk_find_object runs on as many headers as the image has bytes, and romdisk_find on one
-- more slash than the path has characters. The packet decoder of libtga runs on as many packets
-- as the image has pixels, since a packet has one at least, and its fill on as many rounds as it
-- writes bytes. The loop over the packets of a depth runs on one round more than the pool has
-- nodes, since each node is linked to an earlier one. The loop of vdp_sync, the wait of a put
-- and that for an SCU-DMA level end when the interrupts given are used up.
--
-- Not modelled: hardware registers other than those that the modelled code writes, the VDP2, the
-- rest of the CPU's peripherals and of the SMPC, the CD-block and cartridge drivers, the
-- console, ISO 9660, the rotations and transforms of libsega3d, the tiled decoder of libtga;
-- code copied from other projects (TLSF, BCL, the C library, the GDB stub) and generated tables;
-- the tools for the host. DMA handlers of the caller that use the queues again are not modelled
-- either.
pub mod Base
pub mod CallbackList
pub mod Cpu
pub mod DmaQueue
pub mod DmaRing
pub mod Memb
pub mod Romdisk
pub mod ScuDma
pub mod Sega3d
pub mod Smpc
pub mod Tga
pub mod Vdp1
pub mod VdpSync
