-- ===== src/Room.antt =====
-- The room daemon: internal/usecase/room and internal/domain/plugin/registry.go.
pub mod Match
pub mod Buffers
pub mod Sessions
pub mod Balance
pub mod Manager
pub mod Threads
pub mod Games
pub mod Tests
