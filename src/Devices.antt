-- ===== src/Devices.antt =====
-- The devices, src/devices/.
pub mod Ring
pub mod Clock
pub mod Chars
pub mod Register
pub mod Tty
pub mod Keyboard
pub mod Mouse
