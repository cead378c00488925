-- ===== src/Starboard/Ranking.antt =====
-- `GetTop10` and `GetRank` of Database/Starboard/Starboard.cpp, with their queries.
use greek_bot.Prelude.{
  ℕ, suc, ◌+◌, Bool, true, false, List, [], ◌∷◌, Option, ◌==◌, ltb, leb, if◌then◌else◌, take, max,
}
use greek_bot.Prelude.Ranks.{Ranked, number_from, find_ranked, sort_by}
use greek_bot.Starboard.Table.{Entry, Starboard}

-- A row of the group of an author.
pub record Standing : Type 0 where
  pub author : ℕ
  pub num_msg : ℕ
  pub react_total : ℕ
  pub max_react : ℕ

abbrev pub standing_of : Entry → Standing
standing_of e = record { author = e.author_id; num_msg = 1; react_total = e.num; max_react = e.num }

abbrev pub joined_by : Entry → Standing → Standing
joined_by e s = record s {
  num_msg = suc s.num_msg;
  react_total = s.react_total + e.num;
  max_react = max s.max_react e.num;
}

-- `COUNT(msg_id)`, `SUM(num)` and `MAX(num)`, `GROUP BY author_id`.
unfoldable pub add_entry : Entry → List Standing → List Standing
add_entry e [] = standing_of e ∷ []
add_entry e (s ∷ ss) =
    let rest = add_entry e ss in if s.author == e.author_id then joined_by e s ∷ ss else s ∷ rest

-- `WHERE num >= ?`.
unfoldable pub tally : ℕ → Starboard → List Standing
unfolding add_entry
tally threshold [] = []
tally threshold ((message, e) ∷ t) =
    let rest = tally threshold t in if leb threshold e.num then add_entry e rest else rest

-- `ORDER BY SUM(num) DESC, MAX(num) DESC, COUNT(msg_id), author_id`.
unfoldable pub is_before : Standing → Standing → Bool
is_before a b =
    if ltb b.react_total a.react_total
    then true
    else if ltb a.react_total b.react_total
    then false
    else if ltb b.max_react a.max_react
    then true
    else if ltb a.max_react b.max_react
    then false
    else if ltb a.num_msg b.num_msg
    then true
    else if ltb b.num_msg a.num_msg
    then false
    else leb a.author b.author

abbrev pub is_author : ℕ → Standing → Bool
is_author user s = s.author == user

unfoldable pub get_top10 : ℕ → Starboard → List (Ranked Standing)
unfolding tally is_before sort_by number_from
get_top10 threshold t = take 10 (number_from 1 (sort_by is_before (tally threshold t)))

unfoldable pub get_rank : ℕ → ℕ → Starboard → Option (Ranked Standing)
unfolding tally is_before sort_by number_from find_ranked
get_rank user threshold t =
    find_ranked (is_author user) (number_from 1 (sort_by is_before (tally threshold t)))
