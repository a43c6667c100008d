-- ===== src/Startup.antt =====
-- jupyter/connection_file.rs, jupyter/register_kernel.rs and main.rs: what the kernel does before its
-- tasks run, and its registration.
pub mod Connection
pub mod Sockets
pub mod Registration
pub mod Launch
