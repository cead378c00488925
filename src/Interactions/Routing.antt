-- ===== src/Interactions/Routing.antt =====
-- The dispatch of interactions in GreekBot/GreekBot.cpp. zlib's `crc32` is a parameter, and `none` is
-- the exception that ends the dispatch.
use greek_bot.Prelude.{
  ℕ, List, Option, none, some, ◌==◌, if◌then◌else◌, codes, same_text, strip_prefix,
}
use greek_bot.Utils.Snowflake.{Snowflake, from_text}

-- The handlers for components, with the argument that they get.
pub data Route : Type 0 where
  leaderboard_help : Route
  starboard_help : Route
  proficiency_menu : Route
  booster_menu : Route
  unban : Snowflake → Route
  dismiss : Snowflake → Route
  nickname_button : Snowflake → Route
  role_button : Snowflake → Route
  infractions_remove : List ℕ → Route
  infractions_button : Snowflake → Route
  timeout_remove : Snowflake → Route

-- What the rest of an id is converted to by the call.
unfoldable pub by_snowflake : (Snowflake → Route) → List ℕ → Option Route
by_snowflake route s = elim (from_text s) [ none ↦ none | some id ↦ some (route id) ]

unfoldable pub on_prefix : List ℕ → (List ℕ → Option Route) → List ℕ → Option Route → Option Route
unfolding strip_prefix
on_prefix p handler s further = elim (strip_prefix p s) [ none ↦ further | some r ↦ handler r ]

-- The chain of prefixes.
unfoldable pub route_prefix : List ℕ → Option Route
unfolding by_snowflake on_prefix
route_prefix s = on_prefix (codes "BAN#") (by_snowflake unban) s (
    on_prefix (codes "DLT#") (by_snowflake dismiss) s (
      on_prefix (codes "NCK#") (by_snowflake nickname_button) s (
        on_prefix (codes "role:") (by_snowflake role_button) s (
          on_prefix (codes "unwarn:") (λ fmt. some (infractions_remove fmt)) s
            (on_prefix (codes "infractions:") (by_snowflake infractions_button) s
              (on_prefix (codes "timeout:") (by_snowflake timeout_remove) s none))))))

-- The cases of the switch on the hash of the id.
abbrev pub route_hash : ℕ → Option Route
route_hash hash =
    if hash == 0x4ECEBDEC
    then some leaderboard_help
    else if hash == 0x33330ADE
    then some starboard_help
    else if hash == 0xAE90F56B
    then some proficiency_menu
    else if hash == 0x90DD7D88
    then some booster_menu
    else none

unfoldable pub route_component : (List ℕ → ℕ) → List ℕ → Option Route
unfolding route_prefix
route_component crc32 custom_id = elim (route_hash (crc32 custom_id)) [
  | some route ↦ some route
  | none ↦ route_prefix custom_id
]

-- The handlers for modals.
pub data ModalRoute : Type 0 where
  ban_modal : List ℕ → ModalRoute
  warn_modal : List ℕ → ModalRoute
  nickname_modal : ModalRoute

unfoldable pub route_modal : List ℕ → Option ModalRoute
unfolding strip_prefix same_text
route_modal s = elim (strip_prefix (codes "ban:") s) [
  | some r ↦ some (ban_modal r)
  | none ↦ elim (strip_prefix (codes "warn:") s) [
    | some r ↦ some (warn_modal r)
    | none ↦ if same_text s (codes "NICKNAME_MODAL") then some nickname_modal else none
  ]
]
