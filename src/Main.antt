-- ===== src/Main.antt =====
-- The application: src/main.c.
pub mod Commands
pub mod Application
pub mod Within
pub mod Inside
pub mod Others
pub mod Closing
pub mod Startup
pub mod Loop
pub mod Shutdown
pub mod Returns
pub mod Run
pub mod Buffers
pub mod Waits
pub mod Quits
pub mod Script
pub mod Session
pub mod Screen
