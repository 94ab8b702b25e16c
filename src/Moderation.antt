-- ===== src/Moderation.antt =====
-- The moderation of what players write and what the story says, tta/moderation.
pub mod Category
pub mod Keyword
pub mod Flagging
pub mod Hook
