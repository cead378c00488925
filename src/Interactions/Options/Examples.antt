-- ===== src/Interactions/Options/Examples.antt =====
-- The command `/purge 3`.
use greek_bot.Prelude.{ℕ, ◌≡◌, refl, Option, none, some, codes, same_text}
use greek_bot.Interactions.Options.Json.{
  Json, no_fields, field, no_items, item, string, int64, array, Fields, object,
}
use greek_bot.Interactions.Options.Parsing.{
  option, option_then, no_options, integer_value, options_value,
}
use greek_bot.Interactions.Options.Commands.{AppCmdInteraction, app_cmd_interaction}
use greek_bot.Interactions.CommandRoutes.{CommandRoute, rank, route_command}
use greek_bot.Interactions.Options.Reading.{AllReadable, app_cmd_interaction-AllReadable}
use greek_bot.Utils.Digits.{scan}

abbrev small_numbers : Json → Option ℕ
small_numbers (int64 n) = some n
small_numbers _ = none

abbrev three : Fields
three =
    field (codes "name") (string (codes "number"))
      (field (codes "type") (int64 4) (field (codes "value") (int64 3) no_fields))

abbrev purge_three : Fields
purge_three = field (codes "id") (string (codes "81")) (
    field (codes "type") (int64 1) (
      field (codes "name") (string (codes "purge"))
        (field (codes "options") (array (item (object three) no_items)) no_fields)))

abbrev purge : AppCmdInteraction
purge = record {
  id = record { m_str = codes "81"; m_int = 81 };
  type = 1;
  name = codes "purge";
  guild = none;
  options = option_then (option (codes "number") 4 (integer_value 3)) no_options;
}

is_purge : app_cmd_interaction small_numbers purge_three ≡ some purge
unfolding app_cmd_interaction same_text scan
is_purge = refl

-- The same option under a subcommand.
abbrev under_user : Fields
under_user = field (codes "name") (string (codes "user")) (
    field (codes "type") (int64 1)
      (field (codes "options") (array (item (object three) no_items)) no_fields))

abbrev purge_user : Fields
purge_user = field (codes "id") (string (codes "81")) (
    field (codes "type") (int64 1) (
      field (codes "name") (string (codes "purge"))
        (field (codes "options") (array (item (object under_user) no_items)) no_fields)))

abbrev nested_purge : AppCmdInteraction
nested_purge = record purge {
  options = option_then (option (codes "user") 1 (options_value purge.options)) no_options;
}

is_nested : app_cmd_interaction small_numbers purge_user ≡ some nested_purge
unfolding app_cmd_interaction same_text scan
is_nested = refl

app_cmd_interaction-AllReadable_example : AllReadable nested_purge.options
app_cmd_interaction-AllReadable_example =
    app_cmd_interaction-AllReadable small_numbers purge_user nested_purge is_nested

-- The command `/rank` of the guild, on a user with a member.
abbrev target : Fields
target =
    field (codes "name") (string (codes "user"))
      (field (codes "type") (int64 6) (field (codes "value") (string (codes "5")) no_fields))

abbrev of_five : Json → Fields
of_five j = field (codes "5") j no_fields

abbrev rank_five : Fields
rank_five = field (codes "id") (string (codes "938199801420456066")) (
    field (codes "type") (int64 1) (
      field (codes "name") (string (codes "rank")) (
        field (codes "options") (array (item (object target) no_items)) (
          field (codes "resolved")
            (object (
              field (codes "users") (object (of_five (int64 50)))
                (field (codes "members") (object (of_five (int64 51))) no_fields)))
            no_fields))))

abbrev routed : Option AppCmdInteraction → Option CommandRoute
routed none = none
routed (some i) = route_command i

is_rank : routed (app_cmd_interaction small_numbers rank_five) ≡ some rank
unfolding app_cmd_interaction route_command same_text scan
is_rank = refl
