-- ===== src/Social.antt =====
-- The friend graph: internal/domain/social, internal/usecase/social/social.go and
-- internal/infra/repository/social.go over the statements of schema/db/queries/social.sql.
pub mod Graph
pub mod FriendRequests
pub mod Friendships
pub mod Blocks
pub mod Usecase
pub mod Tables
pub mod Rules
pub mod Pairs
pub mod Invariant
pub mod Preserve
pub mod Sever
pub mod Runs
pub mod Effects
pub mod Outcomes
pub mod Tests
