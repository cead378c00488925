-- ===== src/Interactions.antt =====
-- Discord/Bot_Interaction.cpp: the replies to interactions; GreekBot/GreekBot.cpp: their handlers.
pub mod Replies
pub mod Once
pub mod Routing
pub mod Controls
pub mod Options
pub mod CommandRoutes
mod Examples
