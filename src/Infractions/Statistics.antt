-- ===== src/Infractions/Statistics.antt =====
-- `GetStatsByUser` of Database/Infractions/Infractions.cpp, with its query warn_stats. Times are
-- milliseconds.
use greek_bot.Prelude.{
  ℕ, suc, ◌+◌, Bool, ◌&&◌, [], ◌∷◌, ◌==◌, ltb, leb, if◌then◌else◌, take, filterb, length,
}
use greek_bot.Infractions.Table.{Infraction, Infractions}

pub record Statistics : Type 0 where
  pub today : ℕ
  pub this_week : ℕ
  pub total : ℕ
  pub entries : Infractions

-- `SUM(?2 - timestamp < ?3)`: also a later time is counted. Without rows the sum is null, which is
-- read as 0.
unfoldable pub count_within : ℕ → ℕ → Infractions → ℕ
count_within now span [] = 0
count_within now span (r ∷ t) =
    let rest = count_within now span t in if ltb now (r.timestamp + span) then suc rest else rest

-- `ORDER BY timestamp DESC`.
unfoldable pub insert_latest : Infraction → Infractions → Infractions
insert_latest r [] = r ∷ []
insert_latest r (x ∷ t) = if leb x.timestamp r.timestamp then r ∷ x ∷ t else x ∷ insert_latest r t

unfoldable pub latest_first : Infractions → Infractions
unfolding insert_latest
latest_first [] = []
latest_first (r ∷ t) = insert_latest r (latest_first t)

abbrev pub is_of : ℕ → Infraction → Bool
is_of user r = r.user_id == user

abbrev pub is_past : ℕ → ℕ → Infraction → Bool
is_past user now r = (r.user_id == user) && leb r.timestamp now

-- `LIMIT 13` leaves 10 rows after the three sums.
unfoldable pub get_stats_by_user : ℕ → ℕ → Infractions → Statistics
unfolding count_within latest_first
get_stats_by_user user now t =
    let own = filterb (is_of user) t in
    record {
      today = count_within now 86400000 own;
      this_week = count_within now 604800000 own;
      total = length own;
      entries = take 10 (latest_first (filterb (is_past user now) t));
    }
