-- ===== src/BotEvents.antt =====
-- GreekBot/GreekBot_MessageEvents.cpp and GreekBot/NativePolls.cpp: the events of messages and
-- reactions, which several components handle.
pub mod Polls
pub mod Messages
pub mod Forgetting
mod Examples
