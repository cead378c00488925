-- ===== src/Guild/Examples.antt =====
-- The guild on concrete events.
use greek_bot.Prelude.{◌≡◌, true, List, [], ◌∷◌, refl}
use greek_bot.Prelude.Table.{find, IsKeyed}
use greek_bot.Guild.Cache.{
  GuildRole, get_lmg_member_color, get_lmg_roles, sort_roles, insert_role, first_color,
  on_guild_create, on_role_create,
}
use greek_bot.Guild.Colors.{
  RoleEvent, guild_create, role_create, color_asked, handle_all, handle, no_roles,
}
use greek_bot.Guild.Highest.{IsHighest, get_lmg_member_color-IsHighest}
use greek_bot.Guild.Voice.{VoiceStates}

abbrev low_green : GuildRole
low_green = record { role_id = 10; position = 1; color = 65280 }

abbrev high_red : GuildRole
high_red = record { role_id = 11; position = 5; color = 16711680 }

abbrev created : List RoleEvent
created =
    guild_create true (low_green ∷ []) ∷ color_asked (10 ∷ []) ∷ role_create true high_red ∷ []

turns_red : (get_lmg_member_color (10 ∷ 11 ∷ []) (handle_all created no_roles)).1 ≡ 16711680
unfolding get_lmg_member_color get_lmg_roles sort_roles insert_role first_color handle_all handle
    on_guild_create on_role_create
turns_red = refl

get_lmg_member_color-IsHighest_example :
    IsHighest
      (10 ∷ 11 ∷ [])
      (handle_all created no_roles).roles
      (get_lmg_member_color (10 ∷ 11 ∷ []) (handle_all created no_roles)).1
get_lmg_member_color-IsHighest_example = get_lmg_member_color-IsHighest created (10 ∷ 11 ∷ [])

abbrev one_talks : VoiceStates
one_talks = (3, 70) ∷ []

one_talks-IsKeyed : IsKeyed one_talks
unfolding IsKeyed find
one_talks-IsKeyed = (refl, tt)
