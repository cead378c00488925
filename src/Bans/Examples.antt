-- ===== src/Bans/Examples.antt =====
-- A ban from a command to its end.
use greek_bot.Prelude.{
  split_colon, ◌==◌, ℕ, ◌*◌, ◌<◌, ◌≤◌, ◌≡◌, ◌≢◌, true, false, [], ◌∷◌, none, some, if◌then◌else◌,
  ltb, refl, arith, codes, ◌+◌, Option,
}
use greek_bot.Prelude.Table.{IsKeyed, find}
use greek_bot.Utils.Time.Calendar.{Date, ok, sys_days}
use greek_bot.Bans.Duration.{
  day_length, wrap_time, parse_ban_duration, parse_units, from_chars, set_unit, time_reached,
}
use greek_bot.Utils.Digits.{scan}
use greek_bot.Bans.Dates.{format_date}
use greek_bot.Bans.Table.{TempBans}
use greek_bot.Bans.Commands.{
  lift_failed, Ban, ban_of, ban_made, ban_texts, BanOptions, BanAnswers, default_options, ban_user,
  process_ban, process_ban_command, process_ban_ctx_menu, process_ban_modal, expiry_of, LiftAnswer,
  lifted, no_ban, parse_modal_id,
}
use greek_bot.Bans.Timed.{lift_expired}
use greek_bot.Bans.Expiry.{IsBanned, process_ban-IsBanned}
use greek_bot.Bans.Guards.{IsAllowed, ban_made-IsAllowed}
use greek_bot.Bans.Lifting.{lift_expired_lem}
use greek_bot.Bans.Horizon.{last_day_in_range, expiry_of-format_date}

-- 2025-01-01, which is day 739618.
abbrev new_year : ℕ
new_year = 739618 * day_length

-- "1y2d" from noon of that day.
year_and_days : parse_ban_duration (new_year + 43200000000000) (codes "1y2d") ≡ some 739986
unfolding parse_ban_duration parse_units from_chars scan set_unit time_reached wrap_time
year_and_days = refl

modal_id :
    parse_modal_id (codes "409:abc:name:0")
    ≡ some (record {
      user_text = codes "409";
      avatar = codes "abc";
      username = codes "name";
      discriminator = codes "0";
    })
unfolding parse_modal_id split_colon
modal_id = refl

abbrev all_well : BanAnswers
all_well = record { deferred = true; messaged = false; banned = true }

abbrev two_bans : TempBans
two_bans = (7, 739620) ∷ (8, 739700) ∷ []

two_bans-IsKeyed : IsKeyed two_bans
unfolding IsKeyed find
two_bans-IsKeyed = (refl, (refl, tt))

-- "2026-02-03".
abbrev until_february : BanOptions
until_february = record default_options { expiry_format = codes "2026-02-03" }

process_ban-IsBanned_example :
    IsBanned new_year
      (codes "2026-02-03")
      7
      two_bans
      (process_ban new_year [] [] all_well ban_user 7 until_february two_bans).0
      (process_ban new_year [] [] all_well ban_user 7 until_february two_bans).1
process_ban-IsBanned_example =
    process_ban-IsBanned new_year [] [] all_well ban_user 7 until_february two_bans two_bans-IsKeyed

abbrev ban_of_seven : Ban
ban_of_seven = ban_of false 7 168 none (codes "Unspecified", codes "Unspecified")

ban_made-IsAllowed_example :
    ((process_ban_command new_year [] [] all_well 50 60 true ban_user 7 default_options two_bans).1
        ≡ ban_made ban_of_seven
      → IsAllowed all_well true 7 ban_of_seven)
    × ((process_ban_ctx_menu new_year [] [] all_well 50 true ban_user 7 two_bans).1
          ≡ ban_made ban_of_seven
        → IsAllowed all_well true 7 ban_of_seven × (◌≢◌ {A = ℕ} 7 50))
    × ((process_ban_modal new_year [] [] all_well 50 true 7 default_options two_bans).1
          ≡ ban_made ban_of_seven
        → IsAllowed all_well true 7 ban_of_seven × (◌≢◌ {A = ℕ} 7 50))
    × ((expiry : Option ℕ)
        → ◌≢◌ {A = ℕ} 60 50
        → all_well.deferred ≡ true
        → all_well.banned ≡ true
        → expiry_of new_year [] ≡ some expiry
        → (process_ban_command new_year [] [] all_well 50 60 true ban_user 50 default_options
            two_bans).1
          ≡ ban_made (ban_of false 50 168 expiry (ban_texts [] [] ban_user default_options)))
ban_made-IsAllowed_example =
    ban_made-IsAllowed new_year [] [] all_well 50 60 7 true ban_user default_options two_bans
      ban_of_seven

-- The slash command bans this bot, 50.
bot_banned :
    (process_ban_command new_year [] [] all_well 50 60 true ban_user 50 default_options two_bans).1
    ≡ ban_made (ban_of false 50 168 none (codes "Unspecified", codes "Unspecified"))
unfolding process_ban_command
bot_banned = refl

-- Discord knows the ban of 7 only.
abbrev knows_seven : ℕ → LiftAnswer
knows_seven user = if user == 7 then lifted else no_ban

lift_expired_lem_example :
    find 8 (lift_expired knows_seven (λ u. true) (739800 * day_length) two_bans) ≡ some 739700
unfolding find
lift_expired_lem_example =
    lift_expired_lem knows_seven (λ u. true) (739800 * day_length) 8 two_bans two_bans-IsKeyed knows
      (λ u. refl)
  where
    knows : (u : ℕ) → knows_seven u ≢ lift_failed
    knows u p = ground (arith, p)

abbrev february : Date
february = record { year = 2026; month = 2; day = 3 }

expiry_of-format_date_example :
    (sys_days february ≤ last_day_in_range
      → expiry_of new_year (format_date february) ≡ (
          if ltb new_year (sys_days february * day_length)
          then some (some (sys_days february))
          else none))
    × (last_day_in_range < sys_days february
        → sys_days february < 933000
        → expiry_of new_year (format_date february) ≡ none)
unfolding ok sys_days
expiry_of-format_date_example =
    expiry_of-format_date new_year february (omega arith) refl (omega arith) (omega arith)
