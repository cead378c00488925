-- ===== src/Leaderboard/Table.antt =====
-- Database/Leaderboard: the table `leaderboard` and `cLeaderboardDAO::Update` with its query
-- query_lb_update.sql. `draw` is |RANDOM()|, which SQLite chooses. A row that is not there is
-- `none`; the primary key `id` makes it unique.
use greek_bot.Prelude.{
  ℕ, ◌+◌, ◌*◌, ◌%◌, ◌≤◌, ◌<◌, ◌≡◌, refl, Option, none, some, List, [], ◌∷◌, true, arith, leb, ◌==◌,
  if◌then◌else◌, inl, inr, ◌≢◌, Bool-cases, ==_refl,
}

pub record Row : Type 0 where
  pub id : ℕ
  pub num_msg : ℕ
  pub xp : ℕ
  pub timestamp : ℕ

-- `ABS(RANDOM()%10)+15`.
unfoldable pub gain : ℕ → ℕ
gain draw = draw % 10 + 15

-- The first row with the key.
unfoldable pub find : ℕ → List Row → Option Row
find id [] = none
find id (r ∷ rs) = if r.id == id then some r else find id rs

-- `ON CONFLICT(id) DO UPDATE ... WHERE ?2-timestamp>=60`: the row afterwards, and what `RETURNING`
-- gives, which `Update` reports as 0 if there is no row.
pub touch : ℕ → ℕ → Row → Row × ℕ
unfolding gain
touch now draw r =
    if leb (r.timestamp + 60) now
    then (
      record r { num_msg = r.num_msg + 1; xp = r.xp + gain draw; timestamp = now },
      r.xp + gain draw,
    )
    else (r, 0)

unfoldable pub update : ℕ → ℕ → ℕ → List Row → List Row × ℕ
unfolding gain touch
update id now draw [] =
    (record { id = id; num_msg = 1; xp = gain draw; timestamp = now } ∷ [], gain draw)
update id now draw (r ∷ rs) =
    let (rs', xp) = update id now draw rs in
    if r.id == id then ((touch now draw r).0 ∷ rs, (touch now draw r).1) else (r ∷ rs', xp)

-- One message gives 15 to 24 XP; 25 is never given.
pub gain_bounds : (draw : ℕ) → (15 ≤ gain draw) × (gain draw ≤ 24)
unfolding gain
gain_bounds draw = omega arith

-- The XP of a row is what its messages can have earned, and it is never 0.
abbrev pub IsFair : Row → Type 0
IsFair r = (15 * r.num_msg ≤ r.xp) × (r.xp ≤ 24 * r.num_msg) × (1 ≤ r.num_msg)

-- Well-formed: fair rows, each key once.
abbrev pub IsValid : List Row → Type 0
IsValid [] = Unit
IsValid (r ∷ rs) = IsFair r × (find r.id rs ≡ none) × IsValid rs

find-update_ne :
    (id j now draw : ℕ) (rs : List Row) → j ≢ id → find j (update id now draw rs).0 ≡ find j rs
unfolding find update
find-update_ne id j now draw [] h = ground arith
find-update_ne id j now draw (r ∷ rs) h = ground (arith, find-update_ne id j now draw rs)

-- `Update` keeps the table well-formed.
update-IsValid : (id now draw : ℕ) (rs : List Row) → IsValid rs → IsValid (update id now draw rs).0
unfolding find update
update-IsValid id now draw [] v = ground arith
update-IsValid id now draw (r ∷ rs) v =
    ground (arith, update-IsValid id now draw rs v.2, find-update_ne id r.id now draw rs)

-- A user that was counted less than 60 seconds ago.
abbrev pub IsRecent : ℕ → Option Row → Type 0
IsRecent now none = ⊥
IsRecent now (some r) = now < r.timestamp + 60

abbrev pub messages : Option Row → ℕ
messages none = 0
messages (some r) = r.num_msg

abbrev pub total_xp : Option Row → ℕ
total_xp none = 0
total_xp (some r) = r.xp

-- Within 60 seconds of the last counted message nothing changes, and `Update` reports 0.
update_limited :
    (id now draw : ℕ) (rs : List Row) → IsRecent now (find id rs) → update id now draw rs ≡ (rs, 0)
unfolding find update
update_limited id now draw [] h = absurd h
update_limited id now draw (r ∷ rs) h = elim (Bool-cases (r.id == id)) [
  | inl hit ↦ rw hit (recent (rw hit at h))
  | inr miss ↦ rw (miss, update_limited id now draw rs (rw miss at h))
]
  where
    recent :
        now < r.timestamp + 60
        → ◌≡◌ {A = List Row × ℕ} ((touch now draw r).0 ∷ rs, (touch now draw r).1) (r ∷ rs, 0)
    recent lt = ground arith

touch_counted :
    (id now draw : ℕ) (r : Row)
    → (r.id == id) ≡ true
    → ¬ IsRecent now (some r)
    → touch now draw r ≡ (
      record { id = id; num_msg = r.num_msg + 1; xp = r.xp + gain draw; timestamp = now },
      r.xp + gain draw,
    )
unfolding touch
touch_counted id now draw r hit h = ground arith

update-find :
    (id now draw : ℕ) (rs : List Row)
    → ¬ IsRecent now (find id rs)
    → let after = update id now draw rs in
      let xp = total_xp (find id rs) + gain draw in
      (find id after.0
        ≡ some (record { id = id; num_msg = messages (find id rs) + 1; xp = xp; timestamp = now }))
      × (after.1 ≡ xp)
unfolding find update
update-find id now draw [] h = ground (arith, ==_refl id)
update-find id now draw (r ∷ rs) h = elim (Bool-cases (r.id == id)) [
  | inl hit ↦
      rw hit (rw (touch_counted id now draw r hit (rw hit at h)) (rw (==_refl id) (refl, refl)))
  | inr miss ↦ rw miss (rw miss (update-find id now draw rs (rw miss at h)))
]

-- At any other time the user's row counts one message more, gains 15 to 24 XP and carries the new
-- time, and `Update` reports its XP, which is not 0. The rows of the other users do not change.
update_counted :
    (id now draw : ℕ) (rs : List Row)
    → ¬ IsRecent now (find id rs)
    → let after = update id now draw rs in
      let xp = total_xp (find id rs) + gain draw in
      (find id after.0
        ≡ some (record { id = id; num_msg = messages (find id rs) + 1; xp = xp; timestamp = now }))
      × (after.1 ≡ xp)
      × (1 ≤ after.1)
      × ((j : ℕ) → j ≢ id → find j after.0 ≡ find j rs)
update_counted id now draw rs h =
    let (e, x) = update-find id now draw rs h in
    (e, x, rw x (omega (arith, gain_bounds draw)), λ j ne. find-update_ne id j now draw rs ne)
