-- ===== src/Driver.antt =====
-- driver/phantomfpga_drv.c, the kernel driver. One module for each group of its functions; a
-- function that changes `*pfdev` takes the device state and returns the new one.
pub mod State
pub mod Setup
pub mod Control
pub mod Irq
pub mod Frames
pub mod Poll
pub mod Mmap
pub mod Alloc
pub mod Ioctl
pub mod System
pub mod Inv
pub mod Order
pub mod Ledger
pub mod Balance
pub mod Card
pub mod Running
pub mod Overlap
pub mod Fifo
pub mod Interrupted
pub mod Registration
pub mod Reconfigure
pub mod Restart
pub mod Failures
pub mod Counts
