-- ===== src/Tests.antt =====
-- Concrete platforms and runs: tests of the definitions, and an instance of each theorem.
mod Platform
mod Startup
mod Registers
mod Echo
mod Firmware
mod Rings
mod Memzone
mod Cdev
mod Connections
mod Daemon
mod Transfer
mod Write
mod Shim
mod Driver
mod Contexts
mod MultiTx
