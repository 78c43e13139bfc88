-- ===== src/Dma.antt =====
-- The DMA controller's registers: memory/dma.hpp and memory/dma.cpp.
pub mod Channel
pub mod Controller
pub mod Interrupts
