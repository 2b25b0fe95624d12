-- ===== src/Kernel.antt =====
-- Parts of src/kernel: the page allocator and the program loader.
pub mod Memory
pub mod Ora
pub mod Tests
