-- ===== src/Guild.antt =====
-- What the bot keeps of the guild (GreekBot/GreekBot.cpp, GreekBot/GreekBot_Voice.cpp), and the roles
-- that members choose (GreekBot/GreekBot_Role.cpp).
pub mod Cache
pub mod Colors
pub mod Highest
pub mod Voice
pub mod Choice
pub mod Toggles
mod Examples
