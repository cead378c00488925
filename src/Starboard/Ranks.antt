-- ===== src/Starboard/Ranks.antt =====
-- The ranks of the authors.
use greek_bot.Prelude.{
  ℕ, suc, ◌≡◌, refl, ◌∙◌, true, false, List, [], ◌∷◌, Option, none, some, ◌==◌, Bool-cases, inl,
  inr, arith,
}
use greek_bot.Starboard.Table.{Starboard}
use greek_bot.Starboard.Standings.{
  find_standing, totals, counted_of, find-sort, tally-IsDistinct, find-tally,
}
use greek_bot.Prelude.Ranks.{
  Ranked, number_from, find_ranked, sort_by, within, first_places, IsOrdered, sort_by-IsOrdered,
}
use greek_bot.Starboard.Ranking.{Standing, tally, is_before, is_author, get_top10, get_rank}

abbrev pub standing_in : Option (Ranked Standing) → Option Standing
standing_in none = none
standing_in (some r) = some r.row

numbered :
    (user k : ℕ) (ss : List Standing)
    → standing_in (find_ranked (is_author user) (number_from k ss)) ≡ find_standing user ss
unfolding find_ranked number_from find_standing
numbered user k [] = refl
numbered user k (s ∷ ss) = elim (Bool-cases (s.author == user)) [
  | inl own ↦ rw own refl
  | inr other ↦ rw other (numbered user (suc k) ss)
]

is_before-total : (a b : Standing) → is_before a b ≡ false → is_before b a ≡ true
unfolding is_before
is_before-total a b h = ground (arith, h)

-- The standing that `/starboard rank` shows to a user counts the user's messages that have at least
-- `threshold` reactions, their reactions and the most of one message, and there is none if and only if
-- there are no such messages. The ten best are the standings whose rank is at most 10, with the ranks
-- that their authors are shown. The ranks number the standings by the order of the query.
pub get_rank_lem :
    (user threshold : ℕ) (t : Starboard)
    → (standing_in (get_rank user threshold t) ≡ totals user (counted_of user threshold t))
      × (find_ranked (is_author user) (get_top10 threshold t)
          ≡ within 10 (get_rank user threshold t))
      × IsOrdered is_before (sort_by is_before (tally threshold t))
unfolding get_rank get_top10
get_rank_lem user threshold t = (
  numbered user 1 (sort_by is_before (tally threshold t))
      ∙ find-sort user (tally threshold t) (tally-IsDistinct threshold t)
      ∙ find-tally user threshold t,
  first_places (is_author user) 10 0 (sort_by is_before (tally threshold t)),
  sort_by-IsOrdered is_before is_before-total (tally threshold t),
)
