-- ===== src/Lib.antt =====
-- GreekBot, a Discord bot for the guild Learning Greek: models of its parts and what is proved of
-- them. Paths are those of the repository.
--
-- The program is an asynchronous client of Discord. Its library (Discord/) keeps a gateway session,
-- sends REST requests and turns events into calls of virtual handlers; the bot (GreekBot/) overrides
-- them and stores its data in SQLite (Database/). A handler is a coroutine: here it is a function of
-- the tables, of what Discord answers, and of the event, to the new tables, the requests that it
-- sends, and whether an exception ended it.
--
--   Leaderboard  GreekBot/GreekBot_Leaderboard.cpp, Database/Leaderboard: XP for messages
--     (`update` of Leaderboard.Table is cLeaderboardDAO::Update), the level for XP
--     (`calculate_level_info`, with `climb` for its loop), the rank roles (`new_message` of
--     Leaderboard/Sync.antt is process_leaderboard_new_message, its switch is `choose`), and the
--     commands `process_rank` and `process_top`, whose queries share Prelude/Ranks.antt with the
--     starboard's.
--   Starboard  GreekBot/GreekBot_Starboard.cpp, Database/Starboard: the table with the DAO's
--     operations, the handlers `reaction_add`, `reaction_remove` and `message_delete`, over a channel of
--     posts, the rankings `get_top10` and `get_rank`, and `process_starboard_leaderboard`.
--   BotEvents  GreekBot/GreekBot_MessageEvents.cpp, GreekBot/NativePolls.cpp: the handlers of messages and
--     reactions, each a function of the tables of the components that it calls in turn.
--   Messages  Discord/Bot_ChannelMessages.cpp: `delete_messages`, `get_channel_messages` and
--     `get_channel_messages_before`; GreekBot/GreekBot_Clear.cpp: `process_clear`, which calls them, and
--     `process_dismiss`.
--   Infractions  GreekBot/GreekBot_Infractions.cpp, Database/Infractions: the table, the warnings with
--     their timeouts (`process_warn_impl`, `process_warn`, `process_warn_modal`), the statistics
--     (`get_stats_by_user`), and the components that show and remove infractions
--     (`process_infractions_remove`, whose transaction is `carry_out`).
--   Nicknames  GreekBot/Nicknames.cpp, GreekBot/GreekBot_Button.cpp, Database/Nicknames: the table, the
--     handlers of members that join, change and leave, the report `process_nicknames`, which is cut
--     into messages by `send_chunks`, and the button with its modal.
--   Gateway  Discord/Gateway/GatewayImpl.cpp: the state, the handlers under their names, and `Step`
--     for the order in which Asio may run them, which is any. Discord/Gateway/GatewayEvents.cpp: the
--     dispatch of events (`process_event` and `process_type` of Gateway/Events.antt), where the fields
--     of `Event` say what the event's JSON gives.
--   Http  Discord/Gateway/GatewayHttp.cpp: the queue of REST requests (`issue` puts a request into it,
--     `http_coro` and its handlers serve it, `finish` is the handler of http_start), the order of whose
--     steps is `Serve` and `Step`, and the retries of a request (`discord_request`).
--   Members  Discord/Gateway/GatewayGuildMembers.cpp: requests for members by their ids
--     (`request_guild_members`), and one request with the chunks that answer it (`on_chunk`, `go_on`).
--   Database  Database/Database.cpp, Database/Database.h: transactions (`begin_transaction`,
--     `commit_transaction`, `close_transaction`) and `exec`, over the interface `Sqlite`, which states
--     what is relied on of SQLite.
--   Bans  GreekBot/GreekBot_Ban.cpp, GreekBot/GreekBot_TimedActions.cpp, Database/TempBans: the table,
--     `parse_ban_duration`, the commands (`process_ban` and those that lead to it), and the heartbeat
--     (`lift_expired`, `prune`).
--   MessageLog  GreekBot/MessageLogging.cpp, Database/MessageLog: the table, and what is reported of
--     edited and deleted messages (`process_msglog_message_delete`, whose loop is `report_all`).
--   Guild  GreekBot/GreekBot.cpp, GreekBot/GreekBot_Voice.cpp, GreekBot/GreekBot_Role.cpp: the cache of
--     roles and the color of a member (`get_lmg_member_color`), the voice states
--     (`on_voice_state_update`), and the roles that members choose (`process_role_button`,
--     `process_proficiency_menu`, `process_booster_menu`).
--   Interactions  Discord/Bot_Interaction.cpp: the calls that answer an interaction
--     (InteractionDefer, InteractionSendMessage, InteractionSendModal, InteractionEditMessage), the
--     requests they send and the mark `m_ack`. A parameter tells which requests Discord accepts.
--     GreekBot/GreekBot.cpp: the dispatch of commands (`route_command`), components and modals
--     (`route_component`, `route_modal`), with zlib's crc32 as a parameter.
--     Discord/Interaction/AppCmdInteraction.cpp: commands and their options, read from
--     JSON (Interactions/Options), with the conversion of numbers as a parameter.
--   Utils  Discord/Base/Snowflake.h, Discord/Utils and Discord/Utils.h: ids (`from_text`,
--     `from_int`), Base64 (`base64_encode`, `base64_decode`), timestamps (`parse_iso_timestamp`,
--     `format_iso_timestamp`) and URLs (`percent_encode`).
--   LearningGreek  GreekBot/LearningGreek.h: the ids of the guild.
--   Prelude  what the others share: tests, lists measured by native numbers, bits, tables.
--
-- Fuel. The loop of calculate_level_info gets as much fuel as there is XP, since every level takes
-- some; DeleteMessages gets as much as there are messages, since a batch takes at least one; the
-- paging loop gets the limit, of which an iteration takes 100; a request for members gets as much as
-- there are ids; the parser of durations gets as much as there are characters; the loops that cut a report
-- into messages get as much as the report has characters. The theorems on the first four and on the
-- report give the full results, so that the fuel is enough. DiscordRequest and Exec repeat a
-- request: the one without bound, so that its theorem is for any fuel above the number of attempts,
-- the other at most 300 times, as the source says.
--
-- SQLite, Discord's servers, the clock and the random numbers are not code of the repository: the
-- tables are lists of rows with the constraints of Database/query_init.sql, and what Discord answers
-- and the clock and the generator give are arguments. Not modelled are the JSON forms of Discord's
-- objects, the embeds and texts of the replies, the coroutine and network machinery, and the
-- logging.
pub mod Prelude
pub mod LearningGreek
pub mod Leaderboard
pub mod Starboard
pub mod Utils
pub mod Nicknames
pub mod Infractions
pub mod Gateway
pub mod Messages
pub mod Http
pub mod Database
pub mod Members
pub mod Bans
pub mod MessageLog
pub mod Guild
pub mod Interactions
pub mod BotEvents
