-- ===== src/Service.antt =====
-- internal/app/roomsvc/service.go: the service that carries out the use cases. `State` has the state
-- and the ports, one module each the operations, and the other modules what is proved of them.
pub mod State
pub mod Create
pub mod Delete
pub mod Join
pub mod Leave
pub mod Grace
pub mod Signal
pub mod Keys
pub mod Consistent
pub mod Shapes
pub mod Sweep
pub mod Preserved
pub mod History
pub mod Promises
pub mod Codes
