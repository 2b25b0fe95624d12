-- ===== src/Net.antt =====
-- The network layer: the tables and packet checks of src/net/config/network_stack.c, and the frames
-- of src/net/ethernet.c; the links of src/drivers/ethernet/network.c.
pub mod Stack
pub mod Link
pub mod Packet
pub mod Ethernet
pub mod Tests
