-- ===== src/Interactions/CommandRoutes.antt =====
-- The dispatch of commands in GreekBot/GreekBot.cpp, by the id of the command.
use greek_bot.Prelude.{ℕ, List, [], ◌∷◌, Option, codes}
use greek_bot.Prelude.Table.{find}
use greek_bot.Interactions.Options.Commands.{AppCmdInteraction}

-- The handlers; a context menu to ban has the name of its kind.
pub data CommandRoute : Type 0 where
  avatar : CommandRoute
  rank : CommandRoute
  top : CommandRoute
  ban : CommandRoute
  holy : CommandRoute
  timestamp : CommandRoute
  ban_ctx_menu : List ℕ → CommandRoute
  clear : CommandRoute
  warn : CommandRoute
  infractions : CommandRoute
  sanitize : CommandRoute
  test : CommandRoute
  unban_command : CommandRoute
  levels : CommandRoute
  nicknames : CommandRoute

-- The cases of the switch.
abbrev pub command_routes : List (ℕ × CommandRoute)
command_routes =
    (878391425568473098, avatar)
    ∷ (938199801420456066, rank)
    ∷ (938863857466757131, top)
    ∷ (1031907652541890621, ban)
    ∷ (904462004071313448, holy)
    ∷ (1177042125205024868, timestamp)
    ∷ (1170787836434317363, ban_ctx_menu (codes "user"))
    ∷ (1174826008474570892, ban_ctx_menu (codes "turk"))
    ∷ (1174836455714078740, ban_ctx_menu (codes "greek"))
    ∷ (1254933366562754591, clear)
    ∷ (1336758756062527581, warn)
    ∷ (1340296154868613231, warn)
    ∷ (1336832339753570386, infractions)
    ∷ (1340461497221910568, infractions)
    ∷ (1477021827246198949, sanitize)
    ∷ (1178824125192613939, test)
    ∷ (1294358361248370698, unban_command)
    ∷ (1472307604041629920, levels)
    ∷ (1505552326000246895, nicknames)
    ∷ []

-- `none` is the exception for a command that is not handled.
unfoldable pub route_command : AppCmdInteraction → Option CommandRoute
unfolding find
route_command i = find i.id.m_int command_routes
