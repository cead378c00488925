-- ===== src/Interactions/Options.antt =====
-- Discord/Interaction/AppCmdInteraction.cpp: the options of commands.
pub mod Json
pub mod Parsing
pub mod Types
pub mod Getters
pub mod Commands
pub mod Reading
mod Examples
