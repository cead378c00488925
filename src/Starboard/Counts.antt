-- ===== src/Starboard/Counts.antt =====
-- The number of reactions that is counted for a message, as GreekBot/GreekBot_Starboard.cpp adds and
-- removes reactions.
use greek_bot.Prelude.{ℕ, ◌+◌, ◌-◌, Option, none, some, ◌==◌, if◌then◌else◌}
use greek_bot.Prelude.Table.{find}
use greek_bot.Starboard.Table.{Starboard, Entry}

-- The author and the number of reactions of a row.
abbrev pub stated : Option Entry → Option (ℕ × ℕ)
stated none = none
stated (some e) = some (e.author_id, e.num)

abbrev pub row : ℕ → Starboard → Option (ℕ × ℕ)
row message t = stated (find message t)

raised : ℕ → Option (ℕ × ℕ) → Option (ℕ × ℕ)
raised author none = some (author, 1)
raised author (some (a, n)) = some (a, n + 1)

lowered : Option (ℕ × ℕ) → Option (ℕ × ℕ)
lowered none = none
lowered (some (a, n)) = some (a, if n == 1 then n else n - 1)

-- The number of reactions that the table counts for a message, 0 without a row.
abbrev pub counted : Option Entry → ℕ
counted none = 0
counted (some e) = e.num
