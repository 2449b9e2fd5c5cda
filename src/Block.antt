-- ===== src/Block.antt =====
-- kernel/drivers/block: the queues of requests in front of the block devices.
pub mod Elevator
