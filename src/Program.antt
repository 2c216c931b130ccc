-- ===== src/Program.antt =====
-- The program: main.rs. Its start, its end, and the Ctrl+C that it reads from the terminal.
pub mod Startup
pub mod Shutdown
pub mod Interrupt
pub mod Terminal
pub mod Modes
