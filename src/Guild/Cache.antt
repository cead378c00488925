-- ===== src/Guild/Cache.antt =====
-- GreekBot/GreekBot.cpp: the roles of the guild, which are sorted when they are needed.
use greek_bot.Prelude.{
  ℕ, Bool, true, false, not, ◌&&◌, List, [], ◌∷◌, ◌++◌, if◌then◌else◌, leb, ◌==◌, contains, filterb,
}

pub record GuildRole : Type 0 where
  pub role_id : ℕ
  pub position : ℕ
  pub color : ℕ

-- `m_lmg_roles` and `m_bSorted`.
pub record RoleCache : Type 0 where
  pub roles : List GuildRole
  pub is_sorted : Bool

-- `std::ranges::sort` by position, the highest first. The order of equal ones is one of those that it
-- may give.
unfoldable pub insert_role : GuildRole → List GuildRole → List GuildRole
insert_role r [] = r ∷ []
insert_role r (s ∷ rs) =
    let rest = insert_role r rs in if leb s.position r.position then r ∷ s ∷ rs else s ∷ rest

unfoldable pub sort_roles : List GuildRole → List GuildRole
unfolding insert_role
sort_roles [] = []
sort_roles (r ∷ rs) = insert_role r (sort_roles rs)

unfoldable pub get_lmg_roles : RoleCache → RoleCache
unfolding sort_roles
get_lmg_roles c = if c.is_sorted then c else record { roles = sort_roles c.roles; is_sorted = true }

-- `find_first_of` over the roles of a member that have a color; 0 is no color.
abbrev pub is_colored : List ℕ → GuildRole → Bool
is_colored ids r = contains ids r.role_id && not (r.color == 0)

unfoldable pub first_color : List ℕ → List GuildRole → ℕ
first_color ids [] = 0
first_color ids (r ∷ rs) =
    let rest = first_color ids rs in if is_colored ids r then r.color else rest

unfoldable pub get_lmg_member_color : List ℕ → RoleCache → RoleCache × ℕ
unfolding get_lmg_roles first_color
get_lmg_member_color ids c = let sorted = get_lmg_roles c in (sorted, first_color ids sorted.roles)

-- The events, each for this guild or another.
unfoldable pub on_guild_create : Bool → List GuildRole → RoleCache → RoleCache
on_guild_create here roles c = if here then record { roles = roles; is_sorted = false } else c

unfoldable pub on_role_create : Bool → GuildRole → RoleCache → RoleCache
on_role_create here r c =
    if here then record { roles = c.roles ++ (r ∷ []); is_sorted = false } else c

unfoldable pub replace_role : GuildRole → List GuildRole → List GuildRole
replace_role r [] = r ∷ []
replace_role r (s ∷ rs) =
    let rest = replace_role r rs in if s.role_id == r.role_id then r ∷ rs else s ∷ rest

unfoldable pub on_role_update : Bool → GuildRole → RoleCache → RoleCache
unfolding replace_role
on_role_update here r c =
    if here then record { roles = replace_role r c.roles; is_sorted = false } else c

unfoldable pub on_role_delete : Bool → ℕ → RoleCache → RoleCache
on_role_delete here id c =
    if here then record c { roles = filterb (λ r. not (r.role_id == id)) c.roles } else c
