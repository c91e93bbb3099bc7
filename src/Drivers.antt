-- ===== src/Drivers.antt =====
-- The drivers of drivers/ above the file system.
pub mod Keyboard
pub mod Vga
pub mod Timer
pub mod Rtc
pub mod Speaker
pub mod Ata
pub mod Block
pub mod Framebuffer
pub mod Vesa
pub mod Display
