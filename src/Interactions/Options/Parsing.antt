-- ===== src/Interactions/Options/Parsing.antt =====
-- `cAppCmdOption` of Discord/Interaction/AppCmdInteraction.cpp: the constructor, and the getters.
use greek_bot.Prelude.{
  ℕ, Bool, ◌||◌, List, Option, none, some, ◌==◌, if◌then◌else◌, codes, same_text,
}
use mathlib.Core.Option
use greek_bot.Utils.Snowflake.{Snowflake, from_text}
use greek_bot.Interactions.Options.Json.{
  no_fields, field, no_items, item, Json, Items, Fields, at, as_object, as_string, as_bool,
  as_double, object, field, array, item,
}

-- `m_value`. The user and the member stay in the form of the JSON that they are read from.
mutual
  pub data AppCmdOption : Type 0 where
    option : List ℕ → ℕ → OptionValue → AppCmdOption

  pub data OptionValue : Type 0 where
    integer_value : ℕ → OptionValue
    double_value : ℕ → OptionValue
    bool_value : Bool → OptionValue
    string_value : List ℕ → OptionValue
    snowflake_value : Snowflake → OptionValue
    options_value : AppCmdOptions → OptionValue
    user_value : Json → Option Json → OptionValue

  pub data AppCmdOptions : Type 0 where
    no_options : AppCmdOptions
    option_then : AppCmdOption → AppCmdOptions → AppCmdOptions

-- What the constructor reads for a type.
pub data Kind : Type 0 where
  of_options : Kind
  of_string : Kind
  of_integer : Kind
  of_bool : Kind
  of_user : Kind
  of_snowflake : Kind
  of_double : Kind

unfoldable pub kind_of : ℕ → Kind
kind_of type =
    if (type == 1) || (type == 2)
    then of_options
    else if type == 3
    then of_string
    else if type == 4
    then of_integer
    else if type == 5
    then of_bool
    else if type == 6
    then of_user
    else if (type == 7) || ((type == 8) || (type == 9))
    then of_snowflake
    else of_double

-- `f` of what `o` gives, if it gives something.
abbrev pub then_map : {A B C : Type 0} → Option A → (A → Option B) → (B → C) → Option C
then_map none g f = none
then_map (some a) g f = Option.map f (g a)

-- The member of the user `s`, by `if_contains`; `none` if `members` is no object.
abbrev pub member_of : List ℕ → Option Json → Option (Option Json)
member_of s none = some none
member_of s (some members) = Option.map (at s) (as_object members)

abbrev pub user_of : List ℕ → Fields → Option OptionValue
user_of s resolved = elim (member_of s (at (codes "members") resolved)) [
  | none ↦ none
  | some member ↦ elim (at (codes "users") resolved) [
    | none ↦ none
    | some users ↦ then_map (as_object users) (at s) (λ user. user_value user member)
  ]
]

-- `none` for the resolved objects is a null pointer, which Discord does not let happen with a user.
abbrev pub parse_user : Json → Option Json → Option OptionValue
parse_user v none = none
parse_user v (some r) = elim (as_string v) [
  | none ↦ none
  | some s ↦ elim (as_object r) [ none ↦ none | some resolved ↦ user_of s resolved ]
]

module _ (to_number : Json → Option ℕ) where
  -- For the kind, what "options" gives, the resolved objects and "value".
  unfoldable pub parse_value :
      Kind → Option AppCmdOptions → Option Json → Option Json → Option OptionValue
  unfolding from_text
  parse_value of_options nested r v = Option.map options_value nested
  parse_value of_string nested r v = then_map v as_string string_value
  parse_value of_integer nested r v = then_map v to_number integer_value
  parse_value of_bool nested r v = then_map v as_bool bool_value
  parse_value of_user nested r none = none
  parse_value of_user nested r (some v) = parse_user v r
  parse_value of_snowflake nested r none = none
  parse_value of_snowflake nested r (some v) = then_map (as_string v) from_text snowflake_value
  parse_value of_double nested r v = then_map v as_double double_value

  -- The constructor, from what "name" and "type" give and the value for the type.
  abbrev pub make_option :
      Option (List ℕ) → Option ℕ → (ℕ → Option OptionValue) → Option AppCmdOption
  make_option none type value = none
  make_option (some name) none value = none
  make_option (some name) (some type) value = Option.map (option name type) (value type)

  abbrev pub option_of : Option AppCmdOptions → Option Json → Fields → Option AppCmdOption
  option_of nested r fs =
      make_option (then_map (at (codes "name") fs) as_string (λ s. s))
        (then_map (at (codes "type") fs) to_number (λ n. n))
        (λ type. parse_value (kind_of type) nested r (at (codes "value") fs))

  abbrev pub options_cons : Option AppCmdOption → Option AppCmdOptions → Option AppCmdOptions
  options_cons none os = none
  options_cons (some o) os = Option.map (option_then o) os

  unfoldable mutual
    unfolding parse_value kind_of at

    pub parse_option : Option Json → Json → Option AppCmdOption
    parse_option r (object fs) = option_of (parse_nested r fs) r fs
    parse_option r _ = none

    -- `v.at("options")`.
    pub parse_nested : Option Json → Fields → Option AppCmdOptions
    parse_nested r no_fields = none
    parse_nested r (field k j fs) =
        let here = parse_options r j in
        let rest = parse_nested r fs in if same_text k (codes "options") then here else rest

    pub parse_options : Option Json → Json → Option AppCmdOptions
    parse_options r (array js) = parse_items r js
    parse_options r _ = none

    pub parse_items : Option Json → Items → Option AppCmdOptions
    parse_items r no_items = some no_options
    parse_items r (item j js) = options_cons (parse_option r j) (parse_items r js)

abbrev pub get_type : AppCmdOption → ℕ
get_type (option name type value) = type

-- The getters; `none` is `xAppCmdOptionTypeError`.
unfoldable pub get_options : AppCmdOption → AppCmdOptions
get_options (option name type (options_value os)) = os
get_options _ = no_options

unfoldable pub get_string : AppCmdOption → Option (List ℕ)
get_string (option name type (string_value s)) = some s
get_string _ = none

unfoldable pub get_integer : AppCmdOption → Option ℕ
get_integer (option name type (integer_value n)) = some n
get_integer _ = none

unfoldable pub get_bool : AppCmdOption → Option Bool
get_bool (option name type (bool_value b)) = some b
get_bool _ = none

unfoldable pub get_number : AppCmdOption → Option ℕ
get_number (option name type (double_value d)) = some d
get_number _ = none

unfoldable pub get_user : AppCmdOption → Option (Json × Option Json)
get_user (option name type (user_value user member)) = some (user, member)
get_user _ = none

-- `GetValue` of a channel, a role or a mentionable: `wanted` is its type.
unfoldable pub get_snowflake : ℕ → AppCmdOption → Option Snowflake
get_snowflake wanted (option name type (snowflake_value id)) =
    if type == wanted then some id else none
get_snowflake wanted _ = none
