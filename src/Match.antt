-- ===== src/Match.antt =====
-- internal/domain/match: tickets, parties and the matcher that forms groups.
pub mod Platform
pub mod Ticket
pub mod Units
pub mod Matcher
pub mod Tests
