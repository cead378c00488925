-- ===== src/Leaderboard/Ranking.antt =====
-- `GetEntryByUser` and `GetTop10Entries` of Database/Leaderboard, with their queries. Rows that the order
-- does not tell apart keep the order of the table, of which SQL promises nothing.
use greek_bot.Prelude.{
  ℕ, ◌≡◌, Bool, true, false, List, Option, ◌==◌, ltb, leb, if◌then◌else◌, take, arith,
}
use greek_bot.Prelude.Ranks.{
  Ranked, number_from, find_ranked, sort_by, within, first_places, IsOrdered, sort_by-IsOrdered,
}
use greek_bot.Leaderboard.Table.{Row}

-- `ORDER BY xp DESC, num_msg DESC`.
unfoldable pub is_ahead : Row → Row → Bool
is_ahead a b =
    if ltb b.xp a.xp then true else if ltb a.xp b.xp then false else leb b.num_msg a.num_msg

abbrev pub is_row_of : ℕ → Row → Bool
is_row_of user r = r.id == user

unfoldable pub get_entry_by_user : ℕ → List Row → Option (Ranked Row)
unfolding is_ahead sort_by number_from find_ranked
get_entry_by_user user t = find_ranked (is_row_of user) (number_from 1 (sort_by is_ahead t))

unfoldable pub get_top10_entries : List Row → List (Ranked Row)
unfolding is_ahead sort_by number_from
get_top10_entries t = take 10 (number_from 1 (sort_by is_ahead t))

is_ahead-total : (a b : Row) → is_ahead a b ≡ false → is_ahead b a ≡ true
unfolding is_ahead
is_ahead-total a b h = ground (arith, h)

-- The ten best entries are those whose rank is at most 10, with the ranks that their users are shown, and the
-- ranks number the rows by the order of the query.
get_entry_by_user_lem :
    (user : ℕ) (t : List Row)
    → (find_ranked (is_row_of user) (get_top10_entries t) ≡ within 10 (get_entry_by_user user t))
      × IsOrdered is_ahead (sort_by is_ahead t)
unfolding get_entry_by_user get_top10_entries
get_entry_by_user_lem user t = (
  first_places (is_row_of user) 10 0 (sort_by is_ahead t),
  sort_by-IsOrdered is_ahead is_ahead-total t,
)
