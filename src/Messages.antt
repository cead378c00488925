-- ===== src/Messages.antt =====
-- Discord/Bot_ChannelMessages.cpp: deleting and fetching a channel's messages.
pub mod Deletion
pub mod Batches
pub mod History
pub mod Before
pub mod Paging
pub mod Clear
mod Examples
