-- ===== src/Lib.antt =====
-- A verification library for the PhantomFPGA streaming system.
--
-- The program streams frames of 5120 bytes from a device to a terminal. The device writes each frame, by
-- DMA, to the buffer of a descriptor in a ring; the kernel driver hands descriptors to it, and frames to
-- userspace by read, or by mmap with an ioctl that gives a frame back; the application sets the driver
-- up, takes the frames, checks them and sends them over TCP; the viewer receives them, checks them again
-- and draws them.
--
-- Parts, and where they are modelled:
-- driver/phantomfpga_regs.h and driver/phantomfpga_uapi.h: Regs has the constants and structures
--   under their names without the prefix PHANTOMFPGA_ or phantomfpga_; Regs.Ring has
--   phantomfpga_desc_pending, _free, _ring_empty and _ring_full, Regs.Coalesce the packing of the
--   coalescing register, Driver.Frames phantomfpga_completion_ptr and phantomfpga_frame_crc_ptr,
--   Driver.Ioctl the command codes, Frame the header of a frame.
-- driver/phantomfpga_drv.c: Driver.State has struct phantomfpga_dev (`Dev`), what a call finds
--   outside (`Env`) and the effects that it has there (`Io`). A C function keeps its name:
--   pfpga_configure_desc_ring, _apply_config, _submit_descriptors and _init_descriptors are in
--   Driver.Setup; _start_streaming, _stop_streaming and _soft_reset in Driver.Control; the three
--   interrupt handlers in Driver.Irq; _read, _validate_frame_crc and the handler of CONSUME_FRAME in
--   Driver.Frames; _poll in Driver.Poll; _mmap in Driver.Mmap; _free_descriptors and
--   _alloc_descriptors in Driver.Alloc; _ioctl with its other handlers in Driver.Ioctl; _setup_msix
--   and _teardown_msix in Driver.Card.Msix; _create_cdev, _destroy_cdev, phantomfpga_probe and
--   phantomfpga_remove in Driver.Card; phantomfpga_init and phantomfpga_exit in Driver.Registration.
-- Driver.System puts the calls together: a step is one ioctl, read, poll or mmap, one interrupt, or
--   one DMA write of the device to a control word, and a run is any list of steps.
-- Driver.Inv has the invariant of the driver and, in its children, its proof; Driver.Order,
--   Driver.Counts, Driver.Running, Driver.Balance, Driver.Failures and Driver.Restart are about runs
--   and single calls; Driver.Interrupted, Driver.Overlap and Driver.Reconfigure about what may come
--   between the two locked regions of a read; Driver.Fifo, with its children, about the ring as a
--   queue of frames; Driver.Ledger is the ledger of resources.
-- app/phantomfpga_app.cpp and viewer/phantomfpga_view.cpp: Crc has class CRC32, the same in both;
--   Crc.Serial is about what it computes, Crc.Errors and Crc.Burst about the errors it finds.
-- app/phantomfpga_app.h, app/phantomfpga_app.cpp and app/phantomfpga_app_impl.cpp: App has the
--   structures and the state; App.Server class TcpServer; App.Frames validate_frame and
--   process_frame; App.Loop main_loop, one iteration as a `Turn` of answers; App.Options
--   parse_arguments; App.Run the rest: run, cleanup and the methods that set the device up. App.Ledger,
--   App.Induction and App.Leaks are about what it holds, App.Forward, App.Stream and App.Reach about
--   what it sends, App.Settings and App.ZeroCopy, with App.ZeroCopy.Session, about it and
--   the driver.
-- viewer/phantomfpga_view.h, viewer/phantomfpga_view.cpp and viewer/phantomfpga_view_impl.cpp: Viewer
--   has the state, Viewer.Constants the constants of namespace frame, Viewer.Client class TcpClient,
--   Viewer.Methods the methods of the loop, Viewer.Loop run_viewer, Viewer.Options parse_arguments and
--   run. The other modules below Viewer are about the loop, the stream, the sequence and the exits.
-- EndToEnd joins the application and the viewer, Pipeline, with its children, the driver with both;
--   Examples has concrete devices, frames and commands.
-- Base has Boolean tests, lists over native numbers, bit masks, exclusive or and 32-bit words.
--
-- How the code is modelled. A function that changes `*pfdev` takes a `Dev` and returns the new one with
-- its result; -EINVAL and its kind are values of `Errno`. Register writes, barriers, delays, wake-ups
-- and resources obtained and given back are listed in the field `io`, the latest first. A register or a
-- byte of DMA memory has, within one call, the value that `Env` gives it, so that the device may do
-- anything between calls. Arithmetic on u32 and u64 wraps as it is written out in Base.Words. The
-- application and the viewer are records of their members; a method takes the record and what its
-- system calls will answer. The signal handler runs at any point that the loops look at `running` after.
--
-- Parameters: crc32_le of the kernel is an argument of the definitions that use it, and no property
-- depends on what it computes. The answers of the allocators, of copy_from_user and copy_to_user, of
-- dma_mmap_coherent and of the PCI, interrupt and character device functions are fields of `Env` and
-- `Bus` or arguments, any of which may be a failure; so are the answers of the sockets, of poll, read and
-- the ioctls in `Turn`, `World` and `Arrival`, of getopt_long in the list of options, and of getaddrinfo.
-- Page size is 4096 bytes; the application and the viewer run on a little-endian machine.
--
-- Bounds: the loops of the driver run over the descriptor count and are structural recursion, those of
-- the application over the iterations that are given. The loop of run_viewer is on fuel, one round more
-- than the socket has bytes, since each round takes some; Viewer.Termination shows that it is enough. A
-- socket is a finite list: a server that neither sends nor closes, or sends without end, is left out.
-- Locks are not modelled as such: one call is one step, as the mutex and the spin lock are there to
-- make it. A read has no mutex and gives its spin lock up half way: three modules take it apart there.
--
-- Not modelled: open, release and write of the driver, which change nothing; messages to the kernel log,
-- to standard error and of print_statistics; getopt_long, getaddrinfo and the buffers of stdio;
-- nanosleep and the start time; reads of the viewer that block for ever and streams without end; the
-- qtest cases and the scripts (tests).
pub mod Base
pub mod Regs
pub mod Driver
pub mod Crc
pub mod Frame
pub mod App
pub mod Viewer
pub mod EndToEnd
pub mod Pipeline
pub mod Examples
