-- ===== src/Interactions/Controls.antt =====
-- The components that the handlers of GreekBot/ send, by their custom ids, and where a click on them
-- leads.
use greek_bot.Prelude.{
  ℕ, ◌^◌, ◌<◌, ◌≡◌, refl, List, ◌∷◌, ◌++◌, Option, none, some, codes, strip_prefix,
  strip_prefix-append,
}
use greek_bot.Utils.Digits.{decimal}
use greek_bot.Utils.Snowflake.{Snowflake, from_int, from_text-decimal}
use greek_bot.Interactions.Routing.{
  Route, unban, dismiss, nickname_button, infractions_remove, infractions_button, timeout_remove,
  route_hash, route_prefix, route_component, by_snowflake, on_prefix,
}

-- The components that remove infractions, with the ids of users, and the time of an infraction.
pub data RemovalControl : Type 0 where
  remove_one : ℕ → RemovalControl
  remove_all : ℕ → RemovalControl
  cancel : ℕ → RemovalControl
  menu : ℕ → RemovalControl
  undo : ℕ → ℕ → RemovalControl

pub data Control : Type 0 where
  unban_button : ℕ → Control
  dismiss_button : ℕ → Control
  nickname : ℕ → Control
  view_infractions : ℕ → Control
  remove_timeout : ℕ → Control
  unwarn : RemovalControl → Control

-- What follows `unwarn:`.
unfoldable pub removal_text : RemovalControl → List ℕ
removal_text (remove_one user) = decimal user
removal_text (remove_all user) = codes "all:" ++ decimal user
removal_text (cancel user) = codes "cancel:" ++ decimal user
removal_text (menu user) = codes "menu:" ++ decimal user
removal_text (undo user time) = codes "undo:" ++ (decimal user ++ (58 ∷ decimal time))

unfoldable pub custom_id : Control → List ℕ
unfolding removal_text
custom_id (unban_button user) = codes "BAN#" ++ decimal user
custom_id (dismiss_button user) = codes "DLT#" ++ decimal user
custom_id (nickname user) = codes "NCK#" ++ decimal user
custom_id (view_infractions user) = codes "infractions:" ++ decimal user
custom_id (remove_timeout user) = codes "timeout:" ++ decimal user
custom_id (unwarn c) = codes "unwarn:" ++ removal_text c

-- The id is a 64-bit number, where it is converted at the dispatch.
abbrev pub InRange : Control → Type 0
InRange (unban_button user) = user < 2 ^ 64
InRange (dismiss_button user) = user < 2 ^ 64
InRange (nickname user) = user < 2 ^ 64
InRange (view_infractions user) = user < 2 ^ 64
InRange (remove_timeout user) = user < 2 ^ 64
InRange (unwarn c) = Unit

-- Where a click is meant to lead.
unfoldable pub meant : Control → Route
unfolding removal_text
meant (unban_button user) = unban (from_int user)
meant (dismiss_button user) = dismiss (from_int user)
meant (nickname user) = nickname_button (from_int user)
meant (view_infractions user) = infractions_button (from_int user)
meant (remove_timeout user) = timeout_remove (from_int user)
meant (unwarn c) = infractions_remove (removal_text c)

by_snowflake-decimal :
    (route : Snowflake → Route) (user : ℕ)
    → user < 2 ^ 64
    → by_snowflake route (decimal user) ≡ some (route (from_int user))
unfolding by_snowflake
by_snowflake-decimal route user lt = rw (by_snowflake, from_text-decimal user lt) refl

on_prefix-append :
    (p r : List ℕ) (handler : List ℕ → Option Route) (further : Option Route)
    → on_prefix p handler (p ++ r) further ≡ handler r
unfolding on_prefix
on_prefix-append p r handler further = rw (on_prefix, strip_prefix-append p r) refl

by_prefix : (c : Control) → InRange c → route_prefix (custom_id c) ≡ some (meant c)
unfolding route_prefix custom_id meant on_prefix strip_prefix
by_prefix (unban_button user) lt = by_snowflake-decimal unban user lt
by_prefix (dismiss_button user) lt = by_snowflake-decimal dismiss user lt
by_prefix (nickname user) lt = by_snowflake-decimal nickname_button user lt
by_prefix (view_infractions user) lt = by_snowflake-decimal infractions_button user lt
by_prefix (remove_timeout user) lt = by_snowflake-decimal timeout_remove user lt
by_prefix (unwarn c) lt = refl

-- A click on a component that the bot sent for a 64-bit id leads to the handler that it is meant for,
-- with the id, unless the CRC32 of its custom id is that of one of the four fixed components.
route_component-custom_id :
    (crc32 : List ℕ → ℕ) (c : Control)
    → InRange c
    → route_hash (crc32 (custom_id c)) ≡ none
    → route_component crc32 (custom_id c) ≡ some (meant c)
unfolding route_component
route_component-custom_id crc32 c lt free = rw (route_component, free) (by_prefix c lt)
