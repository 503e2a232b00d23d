-- ===== src/Firmware.antt =====
-- The firmware of the network card (firmware/): packets, the filter and the header rewriting of the
-- receive side, packet allocation and sending, and the DMA between the card and the host.
pub mod Packet
pub mod Platform
pub mod Dma
pub mod Rxops
pub mod Txops
