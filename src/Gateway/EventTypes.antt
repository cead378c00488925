-- ===== src/Gateway/EventTypes.antt =====
-- The events of Discord/Gateway/GatewayEvents.cpp: their types, by the CRC32 of their names, and the
-- handlers of the bot.
use greek_bot.Prelude.{ℕ, ◌==◌, if◌then◌else◌}

pub data EventType : Type 0 where
  resumed : EventType
  ready_event : EventType
  guild_create : EventType
  guild_role_create : EventType
  guild_role_update : EventType
  guild_role_delete : EventType
  guild_member_add : EventType
  guild_member_update : EventType
  guild_member_remove : EventType
  interaction_create : EventType
  message_create : EventType
  message_update : EventType
  message_delete : EventType
  message_delete_bulk : EventType
  message_reaction_add : EventType
  message_reaction_remove : EventType
  message_reaction_remove_all : EventType
  message_reaction_remove_emoji : EventType
  guild_members_chunk : EventType
  rate_limited : EventType
  user_update : EventType
  voice_state_update : EventType
  unhandled : EventType

pub data Handler : Type 0 where
  on_ready : Handler
  on_guild_create : Handler
  on_guild_role_create : Handler
  on_guild_role_update : Handler
  on_guild_role_delete : Handler
  on_guild_member_add : Handler
  on_guild_member_update : Handler
  on_guild_member_remove : Handler
  on_interaction_create : Handler
  on_message_create : Handler
  on_message_update : Handler
  on_message_delete : Handler
  on_message_delete_bulk : Handler
  on_message_reaction_add : Handler
  on_message_reaction_remove : Handler
  on_message_reaction_remove_all : Handler
  on_message_reaction_remove_emoji : Handler
  on_user_update : Handler
  on_voice_state_update : Handler

-- The cases of the switch.
unfoldable pub event_type : ℕ → EventType
event_type hash =
    if hash == 0x712ED6EE
    then resumed
    else if hash == 0xDFC1471F
    then ready_event
    else if hash == 0xDA68E698
    then guild_create
    else if hash == 0xEFECD22C
    then guild_role_create
    else if hash == 0xF81F07AF
    then guild_role_update
    else if hash == 0x5A284E50
    then guild_role_delete
    else if hash == 0x16401324
    then guild_member_add
    else if hash == 0x73288C4D
    then guild_member_update
    else if hash == 0x838DA405
    then guild_member_remove
    else if hash == 0xB1E5D8EC
    then interaction_create
    else if hash == 0x9C643E55
    then message_create
    else if hash == 0x8B97EBD6
    then message_update
    else if hash == 0x29A0A229
    then message_delete
    else if hash == 0x2C44158B
    then message_delete_bulk
    else if hash == 0x5D4F2489
    then message_reaction_add
    else if hash == 0x5295D7D8
    then message_reaction_remove
    else if hash == 0x02A1D6E9
    then message_reaction_remove_all
    else if hash == 0xEB390E5D
    then message_reaction_remove_emoji
    else if hash == 0x343F4BC5
    then guild_members_chunk
    else if hash == 0x6E263280
    then rate_limited
    else if hash == 0xBFC98531
    then user_update
    else if hash == 0x1555C75D
    then voice_state_update
    else unhandled
