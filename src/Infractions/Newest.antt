-- ===== src/Infractions/Newest.antt =====
-- The statistics list the newest infractions of a user.
use mathlib.Core.List.Perm
use mathlib.Core.List.{Perm}
use greek_bot.Prelude.{
  ℕ, ◌≤◌, ◌≡◌, ◌∙◌, sym, ap, min, [], ◌∷◌, ◌++◌, leb, Bool-cases, inl, inr, leb→le, All, arith,
  take, drop, filterb, length, length-take, take-append-drop, subst,
}
use greek_bot.Infractions.Table.{Infraction, Infractions}
use greek_bot.Infractions.Statistics.{insert_latest, latest_first, is_past, get_stats_by_user}

insert_latest-perm : (r : Infraction) (t : Infractions) → Perm (insert_latest r t) (r ∷ t)
unfolding insert_latest
insert_latest-perm r [] = Perm.refl (r ∷ [])
insert_latest-perm r (x ∷ t) = elim (Bool-cases (leb x.timestamp r.timestamp)) [
  | inl first ↦ rw first (Perm.refl (r ∷ x ∷ t))
  | inr later ↦ rw later (Perm.trans (Perm.cons x (insert_latest-perm r t)) (Perm.swap r x t))
]

latest_first-perm : (t : Infractions) → Perm (latest_first t) t
unfolding latest_first
latest_first-perm [] = Perm.nil
latest_first-perm (r ∷ t) =
    Perm.trans (insert_latest-perm r (latest_first t)) (Perm.cons r (latest_first-perm t))

-- Each is followed only by infractions that are not later.
abbrev pub IsDescending : Infractions → Type 0
IsDescending [] = Unit
IsDescending (r ∷ t) = All (λ (x : Infraction). x.timestamp ≤ r.timestamp) t × IsDescending t

widened :
    (a b : ℕ) (t : Infractions)
    → a ≤ b
    → All (λ (x : Infraction). x.timestamp ≤ a) t
    → All (λ (x : Infraction). x.timestamp ≤ b) t
widened a b [] le v = tt
widened a b (x ∷ t) le v = (omega (arith, le, v.0), widened a b t le v.1)

still_below :
    (r : Infraction) (b : ℕ) (t : Infractions)
    → r.timestamp ≤ b
    → All (λ (x : Infraction). x.timestamp ≤ b) t
    → All (λ (x : Infraction). x.timestamp ≤ b) (insert_latest r t)
unfolding insert_latest
still_below r b [] le v = (le, tt)
still_below r b (x ∷ t) le v = elim (Bool-cases (leb x.timestamp r.timestamp)) [
  | inl first ↦ rw first (le, v)
  | inr later ↦ rw later (v.0, still_below r b t le v.1)
]

insert_latest-IsDescending :
    (r : Infraction) (t : Infractions) → IsDescending t → IsDescending (insert_latest r t)
unfolding insert_latest
insert_latest-IsDescending r [] v = (tt, tt)
insert_latest-IsDescending r (x ∷ t) v = elim (Bool-cases (leb x.timestamp r.timestamp)) [
  | inl first ↦
      let le = leb→le x.timestamp r.timestamp first in
      rw first ((le, widened x.timestamp r.timestamp t le v.0), v)
  | inr later ↦
      rw later (
        still_below r x.timestamp t (ground (arith, later)) v.0,
        insert_latest-IsDescending r t v.1,
      )
]

latest_first-IsDescending : (t : Infractions) → IsDescending (latest_first t)
unfolding latest_first
latest_first-IsDescending [] = tt
latest_first-IsDescending (r ∷ t) =
    insert_latest-IsDescending r (latest_first t) (latest_first-IsDescending t)

-- The entries are the newest 10 of the user's infractions that are not later than the request, the
-- newest first, or all of them if there are fewer: with the others behind them they are those
-- infractions in descending order.
pub get_stats_by_user-IsNewest :
    (user now : ℕ) (t : Infractions)
    → (others : Infractions) × Perm
        ((get_stats_by_user user now t).entries ++ others)
        (filterb (is_past user now) t)
      × IsDescending ((get_stats_by_user user now t).entries ++ others)
      × (length (get_stats_by_user user now t).entries
          ≡ min 10 (length ((get_stats_by_user user now t).entries ++ others)))
unfolding get_stats_by_user
get_stats_by_user-IsNewest user now t =
    let sorted : Infractions = latest_first (filterb (is_past user now) t) in
    let whole : take 10 sorted ++ drop 10 sorted ≡ sorted = take-append-drop 10 sorted in
    (
      drop 10 sorted,
      subst (λ (l : Infractions). Perm l (filterb (is_past user now) t)) (sym whole)
          (latest_first-perm (filterb (is_past user now) t)),
      subst IsDescending (sym whole) (latest_first-IsDescending (filterb (is_past user now) t)),
      length-take 10 sorted ∙ ap (λ l. min 10 (length l)) (sym whole),
    )
