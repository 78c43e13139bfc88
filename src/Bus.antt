-- ===== src/Bus.antt =====
-- `bus::Bus` of bus.hpp and bus.cpp: the components on the bus, the DMA transfers and the accesses
-- of the CPU.
pub mod State
pub mod Transfer
pub mod Registers
pub mod Access
pub mod OrderingTable
pub mod Sizes
pub mod Invariant
pub mod Mirrors
pub mod LinkedList
pub mod Blocks
pub mod DisplayList
pub mod DmaWindow
pub mod Widths
pub mod Ports
