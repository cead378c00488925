-- ===== src/Interactions/Options/Commands.antt =====
-- `cAppCmdInteraction` of Discord/Interaction/AppCmdInteraction.cpp: the constructor, without the fields that
-- all interactions have.
use greek_bot.Prelude.{ℕ, List, [], Option, none, some, ◌==◌, if◌then◌else◌, codes}
use mathlib.Core.Option
use greek_bot.Utils.Snowflake.{Snowflake, from_text}
use greek_bot.Interactions.Options.Json.{Json, Fields, at, as_object, as_string}
use greek_bot.Interactions.Options.Parsing.{
  AppCmdOption, option, AppCmdOptions, no_options, option_then, then_map, user_of, parse_options,
}

pub record AppCmdInteraction : Type 0 where
  pub id : Snowflake
  pub type : ℕ
  pub name : List ℕ
  pub guild : Option Snowflake
  pub options : AppCmdOptions

-- The option of a command on a user: an option of type 6 without a name.
unfoldable pub target_option : List ℕ → Fields → Option AppCmdOption
unfolding at
target_option user resolved = Option.map (option [] 6) (user_of user resolved)

abbrev pub target_options : Option (List ℕ) → Option Fields → Option AppCmdOptions
target_options none resolved = none
target_options (some user) none = none
target_options (some user) (some resolved) =
    Option.map (λ o. option_then o no_options) (target_option user resolved)

-- "guild_id", whose absence is no error.
abbrev pub guild_of : Option Json → Option (Option Snowflake)
guild_of none = some none
guild_of (some j) = then_map (as_string j) from_text (λ id. some id)

module _ (to_number : Json → Option ℕ) where
  abbrev pub given_options : Option Json → Option Json → Option AppCmdOptions
  given_options r none = some no_options
  given_options r (some j) = parse_options to_number r j

  unfoldable pub command_options : ℕ → Fields → Option AppCmdOptions
  unfolding at parse_options target_option
  command_options type d =
      if type == 1
      then given_options (at (codes "resolved") d) (at (codes "options") d)
      else if type == 2
      then target_options (then_map (at (codes "target_id") d) as_string (λ s. s))
          (then_map (at (codes "resolved") d) as_object (λ fs. fs))
      else some no_options

  abbrev pub id_of : Option Json → Option Snowflake
  id_of none = none
  id_of (some j) = then_map (as_string j) from_text (λ id. id)

  -- The constructor, from what the fields give and the options for the type.
  abbrev pub make_interaction :
      Option Snowflake
      → Option ℕ
      → Option (List ℕ)
      → Option (Option Snowflake)
      → (ℕ → Option AppCmdOptions)
      → Option AppCmdInteraction
  make_interaction (some id) (some type) (some name) (some guild) options =
      Option.map (λ os. record { id = id; type = type; name = name; guild = guild; options = os })
        (options type)
  make_interaction id type name guild options = none

  unfoldable pub app_cmd_interaction : Fields → Option AppCmdInteraction
  unfolding at command_options from_text
  app_cmd_interaction d =
      make_interaction (id_of (at (codes "id") d))
        (then_map (at (codes "type") d) to_number (λ n. n))
        (then_map (at (codes "name") d) as_string (λ s. s)) (guild_of (at (codes "guild_id") d))
        (λ type. command_options type d)
