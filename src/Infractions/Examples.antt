-- ===== src/Infractions/Examples.antt =====
-- Warnings on concrete times.
use greek_bot.Prelude.{◌≡◌, ◌≢◌, refl, arith, true, false, [], ◌∷◌, codes}
use greek_bot.Infractions.Table.{
  Infractions, new_row, pending, register, get_recent_delta_time, has_key,
}
use greek_bot.Infractions.Warn.{
  Replies, Target, Invoker, timed_out, days, process_warn_impl, process_warn, escalate, warn_error,
}
use greek_bot.Infractions.Escalation.{process_warn_impl_resets, of_others}

abbrev fine : Replies
fine = record { confirmed = true; modified = true }

abbrev once_warned : Infractions
once_warned = new_row 5 (days 100) (codes "spam") ∷ new_row 6 (days 90) [] ∷ []

-- The second warning, four days later, gives a timeout of 5 days.
second_warning : (process_warn_impl fine 5 (days 104) [] once_warned).1 ≡ timed_out 5
unfolding process_warn_impl register has_key get_recent_delta_time pending
second_warning = refl

process_warn_impl_resets_example :
    (pending 5 (process_warn_impl fine 5 (days 104) [] once_warned).0 ≡ [])
    × (of_others 5 (process_warn_impl fine 5 (days 104) [] once_warned).0
        ≡ new_row 6 (days 90) [] ∷ [])
process_warn_impl_resets_example =
    process_warn_impl_resets fine 5 (days 104) [] once_warned 5
      ((λ p. omega arith), ((λ p. ground arith), tt)) second_warning

abbrev moderator : Invoker
moderator = record { invoker_id = 2; may_moderate = true }

abbrev member : Target
member = record { target_id = 5; is_member = true; is_bot = false; is_moderator = false }

stored : (process_warn fine 1 false moderator member (days 104) [] []).0 ≢ []
unfolding process_warn process_warn_impl register has_key escalate get_recent_delta_time pending
    warn_error
stored p = ground (arith, p)
