-- ===== src/Leaderboard/Levels.antt =====
-- `calculate_level_info` of GreekBot/GreekBot_Leaderboard.cpp. XP comes from a column that is never
-- negative, so it is a natural number.
use greek_bot.Prelude.{
  ℕ, zero, suc, ◌+◌, ◌-◌, ◌*◌, ◌≤◌, ◌<◌, ◌≡◌, refl, ap, ◌⊎◌, inl, inr, arith, ltb, ltb→lt,
  Bool-cases, if◌then◌else◌,
}
use native.Mathlib.Decide.{dec_le}

pub record LevelInfo : Type 0 where
  pub level : ℕ
  pub level_xp : ℕ
  pub next_level_xp : ℕ

-- The body of the loop.
pub advance : LevelInfo → LevelInfo
advance r =
    let level = r.level + 1 in
    record {
      level = level;
      level_xp = r.next_level_xp;
      next_level_xp = r.next_level_xp + (5 * level * (level + 10) + 100);
    }

-- `while (next_level_xp < xp)`. Each round raises `next_level_xp` by more than one, so that `xp`
-- rounds are enough.
pub climb : ℕ → ℕ → LevelInfo → LevelInfo
climb zero xp r = r
climb (suc fuel) xp r =
    let rest = climb fuel xp (advance r) in if ltb r.next_level_xp xp then rest else r

unfoldable pub calculate_level_info : ℕ → LevelInfo
unfolding climb advance
calculate_level_info xp = climb xp xp (record { level = 0; level_xp = 0; next_level_xp = 100 })

-- Six times the XP at which level `n` begins, in closed form.
abbrev pub threshold : ℕ → ℕ
threshold n = 5 * (n * (2 * (n * n) + 27 * n + 91))

-- What holds at the head of the loop.
record Inv (r : LevelInfo) : Type 0 where
  from : 6 * r.level_xp ≡ threshold r.level
  upto : 6 * r.next_level_xp ≡ threshold (r.level + 1)

advance-Inv : (r : LevelInfo) → Inv r → Inv (advance r)
unfolding advance
advance-Inv r v = record { from = v.upto; upto = omega (arith, v.upto) }

-- The loop ends by its test, inside the level that it reports.
record Lands (xp : ℕ) (r : LevelInfo) : Type 0 where
  inv : Inv r
  reached : xp ≤ r.next_level_xp
  earned : (r.level ≡ 0) ⊎ (r.level_xp < xp)

advance-grows : (r : LevelInfo) → r.next_level_xp < (advance r).next_level_xp
unfolding advance
advance-grows r = omega arith

climb-Lands :
    (fuel xp : ℕ) (r : LevelInfo)
    → xp ≤ fuel + r.next_level_xp
    → Inv r
    → (r.level ≡ 0) ⊎ (r.level_xp < xp)
    → Lands xp (climb fuel xp r)
unfolding climb
climb-Lands zero xp r h v e = record { inv = v; reached = omega arith; earned = e }
climb-Lands (suc fuel) xp r h v e = elim (Bool-cases (ltb r.next_level_xp xp)) [
  | inl more ↦
      let lt = ltb→lt _ _ more in
      rw more (
        climb-Lands fuel xp (advance r) (omega (arith, advance-grows r)) (advance-Inv r v)
          (inr (unfold advance in lt)))
  | inr done ↦ rw done (record { inv = v; reached = ground arith; earned = e })
]

-- The level of `xp` is the one whose range holds it: `level_xp` and `next_level_xp` are the ends of
-- that level by the closed form 5 n (2 n² + 27 n + 91) / 6, the upper end is reached at most, and
-- the lower end is exceeded unless the level is 0.
pub calculate_level_info_lem :
    (xp : ℕ)
    → let r = calculate_level_info xp in
      (6 * r.level_xp ≡ threshold r.level)
      × (6 * r.next_level_xp ≡ threshold (r.level + 1))
      × (xp ≤ r.next_level_xp)
      × ((r.level ≡ 0) ⊎ (r.level_xp < xp))
unfolding calculate_level_info
calculate_level_info_lem xp =
    let l =
      climb-Lands xp xp (record { level = 0; level_xp = 0; next_level_xp = 100 }) (omega arith)
        (omega arith) (inl refl) in
    (l.inv.from, l.inv.upto, l.reached, l.earned)

threshold_step : (m k : ℕ) → threshold m ≤ threshold (m + k)
threshold_step m zero = omega arith
threshold_step m (suc k) = omega (arith, threshold_step m k)

threshold_mono : (m n : ℕ) → m ≤ n → threshold m ≤ threshold n
threshold_mono m n h = let e : m + (n - m) ≡ n = omega arith in rw e at (threshold_step m (n - m))

-- From level 1 on, the next threshold is at most three times as far.
threshold_ratio : (n : ℕ) → threshold (suc n + 1) ≤ 3 * threshold (suc n)
threshold_ratio n = omega arith

-- More XP never means a lower level.
calculate_level_info_mono :
    (x y : ℕ) → x ≤ y → (calculate_level_info x).level ≤ (calculate_level_info y).level
calculate_level_info_mono x y h = elim (dec_le a.level b.level) [
  | yes p ↦ p
  | no p ↦
      let (from, _, _, earned) = calculate_level_info_lem x in
      let (_, upto, reached, _) = calculate_level_info_lem y in
      absurd (
        omega
          (arith, from, upto, reached, earned, threshold_mono (b.level + 1) a.level (omega arith)))
]
  where
    a : LevelInfo
    a = calculate_level_info x

    b : LevelInfo
    b = calculate_level_info y

-- Between two messages, the 64-bit arithmetic of the loop has room: the upper end is at most three
-- times the XP that was asked for, or 100.
pub next_level_xp_bound : (xp : ℕ) → (calculate_level_info xp).next_level_xp ≤ 3 * xp + 100
next_level_xp_bound xp =
    let (from, upto, _, earned) = calculate_level_info_lem xp in
    go (calculate_level_info xp).level refl from upto earned
  where
    r : LevelInfo
    r = calculate_level_info xp

    go :
        (l : ℕ)
        → r.level ≡ l
        → 6 * r.level_xp ≡ threshold r.level
        → 6 * r.next_level_xp ≡ threshold (r.level + 1)
        → (r.level ≡ 0) ⊎ (r.level_xp < xp)
        → r.next_level_xp ≤ 3 * xp + 100
    go zero e from upto earned = omega (arith, ap (λ l. threshold (l + 1)) e)
    go (suc l) e from upto earned =
        omega (arith, ap (λ l. threshold (l + 1)) e, ap (λ l. threshold l) e, threshold_ratio l)
