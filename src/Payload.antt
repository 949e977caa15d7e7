-- ===== src/Payload.antt =====
-- src/payload.go: which paths a sync touches, and the rclone arguments that say so.
pub mod Filter
pub mod Utf8
pub mod Scopes
pub mod Encoding
pub mod Metadata
pub mod Coverage
pub mod Promote
pub mod Order
pub mod Apart
