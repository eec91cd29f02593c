-- ===== src/Service/Preserved.antt =====
-- Every operation keeps the service consistent.
pub mod Create
pub mod Join
pub mod Leave
pub mod Delete
