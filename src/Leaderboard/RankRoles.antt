-- ===== src/Leaderboard/RankRoles.antt =====
-- Which rank role a member has after a message.
use greek_bot.Prelude.{
  ℕ, ◌≤◌, ◌<◌, ◌≡◌, refl, List, [], ◌∷◌, ◌++◌, Bool, true, false, not, arith, ◌==◌, if◌then◌else◌,
  filterb, Bool-cases, ==_iff, ◌⊎◌, inl, inr, ap, ◌∙◌, ◌≢◌, All,
}
use greek_bot.LearningGreek.{rank_roles}
use greek_bot.LearningGreek
use greek_bot.Leaderboard.Levels.{calculate_level_info}
use greek_bot.Leaderboard.Table.{Row, update}
use greek_bot.Leaderboard.Sync.{
  target_role, is_rank_role, Request, keep, set_roles, choose, others, ranks, sync, new_message,
}

-- The roles of the member once the request is carried out.
abbrev pub after : List ℕ → Request → List ℕ
after roles keep = roles
after roles (set_roles new) = new

-- The rank roles that a member should have.
abbrev pub wanted : ℕ → List ℕ
wanted target = if target == 0 then [] else target ∷ []

filter-append :
    (p : ℕ → Bool) (xs ys : List ℕ) → filterb p (xs ++ ys) ≡ filterb p xs ++ filterb p ys
filter-append p [] ys = refl
filter-append p (x ∷ xs) ys = ground (arith, filter-append p xs ys)

filter_twice : (p : ℕ → Bool) (xs : List ℕ) → filterb p (filterb p xs) ≡ filterb p xs
filter_twice p [] = refl
filter_twice p (x ∷ xs) = ground (arith, filter_twice p xs)

filter_none : (p : ℕ → Bool) (xs : List ℕ) → filterb p (filterb (λ x. not (p x)) xs) ≡ []
filter_none p [] = refl
filter_none p (x ∷ xs) = ground (arith, filter_none p xs)

append-nil : (xs : List ℕ) → xs ++ [] ≡ xs
append-nil [] = refl
append-nil (x ∷ xs) = ap (◌∷◌ x) (append-nil xs)

-- A role that the bot manages as a rank, or none.
abbrev pub IsManaged : ℕ → Type 0
IsManaged target = (target ≡ 0) ⊎ (is_rank_role target ≡ true)

ranks_added :
    (roles : List ℕ) (target : ℕ)
    → is_rank_role target ≡ true
    → (ranks (others roles ++ target ∷ []) ≡ target ∷ [])
      × (others (others roles ++ target ∷ []) ≡ others roles)
ranks_added roles target known = (
  filter-append is_rank_role (others roles) (target ∷ [])
      ∙ rw (filter_none is_rank_role roles, known) refl,
  filter-append (λ id. not (is_rank_role id)) (others roles) (target ∷ [])
      ∙ rw (filter_twice (λ id. not (is_rank_role id)) roles, known) (append-nil (others roles)),
)

ranks_removed :
    (roles : List ℕ) → (ranks (others roles) ≡ []) × (others (others roles) ≡ others roles)
ranks_removed roles =
    (filter_none is_rank_role roles, filter_twice (λ id. not (is_rank_role id)) roles)

-- What the request leaves the member with.
abbrev pub IsSynced : List ℕ → ℕ → Request → Type 0
IsSynced roles target r =
    (ranks (after roles r) ≡ wanted target) × (others (after roles r) ≡ others roles)

rank_ne_zero : (target : ℕ) → is_rank_role target ≡ true → (target == 0) ≡ false
rank_ne_zero target known = ground arith

choose-IsSynced :
    (roles found : List ℕ) (target : ℕ)
    → ranks roles ≡ found
    → IsManaged target
    → IsSynced roles target (choose (others roles) found target)
unfolding choose
choose-IsSynced roles [] target e (inl none) = rw none (e, refl)
choose-IsSynced roles [] target e (inr known) =
    rw (rank_ne_zero target known) (ranks_added roles target known)
choose-IsSynced roles (r ∷ []) target e (inl none) = rw none (ranks_removed roles)
choose-IsSynced roles (r ∷ []) target e (inr known) =
    rw (rank_ne_zero target known) (elim (Bool-cases (r == target)) [
      | inl same ↦ rw same (e ∙ ap (λ a. a ∷ []) ((==_iff r target).0 same), refl)
      | inr differ ↦ rw differ (ranks_added roles target known)
    ])
choose-IsSynced roles (r ∷ q ∷ rs) target e (inl none) = rw none (ranks_removed roles)
choose-IsSynced roles (r ∷ q ∷ rs) target e (inr known) =
    rw (rank_ne_zero target known) (ranks_added roles target known)

-- After a request for a role that is managed, the member has that rank role and no other rank role,
-- none at all for target 0, and the roles that are no rank roles are as before.
pub sync-IsSynced :
    (roles : List ℕ) (target : ℕ) → IsManaged target → IsSynced roles target (sync roles target)
unfolding sync
sync-IsSynced roles target known = choose-IsSynced roles (ranks roles) target refl known

target_role-IsManaged : (level : ℕ) → level < 150 → IsManaged (target_role level)
unfolding target_role
target_role-IsManaged level h = ground arith

ne-== : (a b : ℕ) → a ≢ b → (a == b) ≡ false
ne-== a b apart = ground (arith, apart)

-- Below level 150: a counted message leaves the member with the rank role of the level of their XP
-- and no other rank role, and with their other roles as before; one that is not counted sends
-- nothing.
pub new_message-IsSynced :
    (author now draw : ℕ) (roles : List ℕ) (table : List Row)
    → let xp = (update author now draw table).1 in
      let level = (calculate_level_info xp).level in
      level < 150
      → (xp ≡ 0 → (new_message author now draw roles table).1 ≡ keep)
        × (xp ≢ 0 → IsSynced roles (target_role level) (new_message author now draw roles table).1)
unfolding new_message
new_message-IsSynced author now draw roles table h =
    let xp = (update author now draw table).1 in
    (
      λ none. rw none refl,
      λ counted.
          rw (ne-== xp 0 counted)
            (sync-IsSynced roles _ (target_role-IsManaged (calculate_level_info xp).level h)),
    )

choose-wanted : (o : List ℕ) (target : ℕ) → choose o (wanted target) target ≡ keep
unfolding choose
choose-wanted o target = ground arith

-- A request for a managed role settles: the next message at the same level sends nothing.
sync_settles :
    (roles : List ℕ) (target : ℕ)
    → IsManaged target
    → sync (after roles (sync roles target)) target ≡ keep
sync_settles roles target known =
    let (r, o) = sync-IsSynced roles target known in
    unfold sync in
    (ap (λ found. choose (others (after roles (sync roles target))) found target) r
      ∙ choose-wanted _ target)

-- The case of a single rank role that is the target does not arise, since that of the top level is
-- no rank role.
choose_unmanaged :
    (o found : List ℕ) (target : ℕ)
    → is_rank_role target ≡ false
    → (target == 0) ≡ false
    → All (λ id. is_rank_role id ≡ true) found
    → choose o found target ≡ set_roles (o ++ target ∷ [])
unfolding choose
choose_unmanaged o [] target unknown given v = rw given refl
choose_unmanaged o (r ∷ []) target unknown given (known, v) =
    rw (given, apart r target known unknown) refl
  where
    apart : (r t : ℕ) → is_rank_role r ≡ true → is_rank_role t ≡ false → (r == t) ≡ false
    apart r t known unknown = elim (Bool-cases (r == t)) [
      | inl same ↦ absurd (cc ((==_iff r t).0 same))
      | inr differ ↦ differ
    ]
choose_unmanaged o (r ∷ q ∷ rs) target unknown given v = rw given refl

ranks_known : (roles : List ℕ) → All (λ id. is_rank_role id ≡ true) (ranks roles)
ranks_known [] = tt
ranks_known (r ∷ roles) = elim (Bool-cases (is_rank_role r)) [
  | inl rank ↦ rw rank (rank, ranks_known roles)
  | inr other ↦ rw other (ranks_known roles)
]

target_role_top : (level : ℕ) → 150 ≤ level → target_role level ≡ LearningGreek.Role.veteranos
unfolding target_role
target_role_top level h = ground arith

-- From level 150 on it never settles: the role of that level is missing from the rank roles, so
-- each counted message of a member who has it already sends their roles that are no rank roles,
-- that role among them, with that role appended once more.
pub veteranos_repeated :
    (author now draw : ℕ) (before after : List ℕ) (table : List Row)
    → let xp = (update author now draw table).1 in
      150 ≤ (calculate_level_info xp).level
      → xp ≢ 0
      → (new_message author now draw (before ++ LearningGreek.Role.veteranos ∷ after) table).1
        ≡ set_roles (
            (others before ++ LearningGreek.Role.veteranos ∷ others after)
            ++ LearningGreek.Role.veteranos ∷ [])
unfolding new_message sync
veteranos_repeated author now draw before after table h counted =
    let xp = (update author now draw table).1 in
    let roles = before ++ LearningGreek.Role.veteranos ∷ after in
    rw (ne-== xp 0 counted, target_role_top (calculate_level_info xp).level h)
      (choose_unmanaged (others roles) (ranks roles) LearningGreek.Role.veteranos refl refl
          (ranks_known roles)
        ∙ ap (λ o. set_roles (o ++ LearningGreek.Role.veteranos ∷ []))
            (filter-append (λ id. not (is_rank_role id)) before
              (LearningGreek.Role.veteranos ∷ after)))
