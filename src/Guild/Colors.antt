-- ===== src/Guild/Colors.antt =====
-- The events of roles, and that the flag of the cache tells the truth.
use greek_bot.Prelude.{
  ℕ, ◌≤◌, ◌≡◌, Bool, true, false, List, [], ◌∷◌, ◌++◌, leb, leb→le, filterb, arith, All, if-holds,
}
use greek_bot.Guild.Cache.{
  GuildRole, RoleCache, insert_role, sort_roles, get_lmg_roles, get_lmg_member_color,
  on_guild_create, on_role_create, replace_role, on_role_update, on_role_delete,
}

abbrev pub IsBelow : GuildRole → GuildRole → Type 0
IsBelow r s = s.position ≤ r.position

-- The highest first.
abbrev pub IsSortedRoles : List GuildRole → Type 0
IsSortedRoles [] = Unit
IsSortedRoles (r ∷ rs) = All (IsBelow r) rs × IsSortedRoles rs

-- The flag tells the truth.
unfoldable pub IsCache : RoleCache → Type 0
IsCache c = c.is_sorted ≡ true → IsSortedRoles c.roles

pub All-mono :
    (P Q : GuildRole → Type 0) (rs : List GuildRole)
    → ((r : GuildRole) → P r → Q r)
    → All P rs
    → All Q rs
All-mono P Q [] f h = tt
All-mono P Q (r ∷ rs) f (p, h) = (f r p, All-mono P Q rs f h)

All-insert_role :
    (P : GuildRole → Type 0) (r : GuildRole) (rs : List GuildRole)
    → P r
    → All P rs
    → All P (insert_role r rs)
unfolding insert_role
All-insert_role P r [] p h = (p, tt)
All-insert_role P r (s ∷ rs) p (q, h) =
    if-holds (All P) (leb s.position r.position) _ _ (λ le. (p, (q, h)))
      (λ gt. (q, All-insert_role P r rs p h))

insert_role-IsSortedRoles :
    (r : GuildRole) (rs : List GuildRole) → IsSortedRoles rs → IsSortedRoles (insert_role r rs)
unfolding insert_role
insert_role-IsSortedRoles r [] v = (tt, tt)
insert_role-IsSortedRoles r (s ∷ rs) (below, v) =
    if-holds IsSortedRoles (leb s.position r.position) _ _
      (λ le. (
        (
          leb→le _ _ le,
          All-mono (IsBelow s) (IsBelow r) rs (λ t h. omega (arith, h, leb→le _ _ le)) below,
        ),
        (below, v),
      ))
      (λ gt. (
        All-insert_role (IsBelow s) r rs (ground (arith, gt)) below,
        insert_role-IsSortedRoles r rs v,
      ))

sort_roles-IsSortedRoles : (rs : List GuildRole) → IsSortedRoles (sort_roles rs)
unfolding sort_roles
sort_roles-IsSortedRoles [] = tt
sort_roles-IsSortedRoles (r ∷ rs) =
    insert_role-IsSortedRoles r (sort_roles rs) (sort_roles-IsSortedRoles rs)

All-filterb :
    (P : GuildRole → Type 0) (p : GuildRole → Bool) (rs : List GuildRole)
    → All P rs
    → All P (filterb p rs)
All-filterb P p [] h = tt
All-filterb P p (r ∷ rs) (q, h) =
    if-holds (All P) (p r) _ _ (λ y. (q, All-filterb P p rs h)) (λ n. All-filterb P p rs h)

filterb-IsSortedRoles :
    (p : GuildRole → Bool) (rs : List GuildRole) → IsSortedRoles rs → IsSortedRoles (filterb p rs)
filterb-IsSortedRoles p [] v = tt
filterb-IsSortedRoles p (r ∷ rs) (below, v) =
    if-holds IsSortedRoles (p r) _ _
      (λ y. (All-filterb (IsBelow r) p rs below, filterb-IsSortedRoles p rs v))
      (λ n. filterb-IsSortedRoles p rs v)

-- The events, with whether they are about this guild.
pub data RoleEvent : Type 0 where
  guild_create : Bool → List GuildRole → RoleEvent
  role_create : Bool → GuildRole → RoleEvent
  role_update : Bool → GuildRole → RoleEvent
  role_delete : Bool → ℕ → RoleEvent
  color_asked : List ℕ → RoleEvent

unfoldable pub handle : RoleEvent → RoleCache → RoleCache
unfolding get_lmg_member_color
handle (guild_create here roles) c = on_guild_create here roles c
handle (role_create here r) c = on_role_create here r c
handle (role_update here r) c = on_role_update here r c
handle (role_delete here id) c = on_role_delete here id c
handle (color_asked ids) c = (get_lmg_member_color ids c).0

unfoldable pub handle_all : List RoleEvent → RoleCache → RoleCache
unfolding handle
handle_all [] c = c
handle_all (e ∷ es) c = handle_all es (handle e c)

-- As the bot starts.
abbrev pub no_roles : RoleCache
no_roles = record { roles = []; is_sorted = false }

pub unsorted-IsCache : (rs : List GuildRole) → IsCache (record { roles = rs; is_sorted = false })
unfolding IsCache
unsorted-IsCache rs p = absurd (ground (arith, p))

pub get_lmg_roles-IsSortedRoles :
    (c : RoleCache) → IsCache c → IsSortedRoles (get_lmg_roles c).roles
unfolding get_lmg_roles IsCache
get_lmg_roles-IsSortedRoles c v =
    if-holds (λ (d : RoleCache). IsSortedRoles d.roles) c.is_sorted _ _ (λ p. v p)
      (λ p. sort_roles-IsSortedRoles c.roles)

handle-IsCache : (e : RoleEvent) (c : RoleCache) → IsCache c → IsCache (handle e c)
unfolding IsCache handle on_guild_create on_role_create on_role_update on_role_delete
    get_lmg_member_color get_lmg_roles
handle-IsCache (guild_create here roles) c v =
    if-holds IsCache here _ _ (λ p. unsorted-IsCache roles) (λ p. v)
handle-IsCache (role_create here r) c v =
    if-holds IsCache here _ _ (λ p. unsorted-IsCache (c.roles ++ (r ∷ []))) (λ p. v)
handle-IsCache (role_update here r) c v =
    if-holds IsCache here _ _ (λ p. unsorted-IsCache (replace_role r c.roles)) (λ p. v)
handle-IsCache (role_delete here id) c v =
    if-holds IsCache here _ _ (λ p q. filterb-IsSortedRoles _ c.roles (v q)) (λ p. v)
handle-IsCache (color_asked ids) c v = λ q. get_lmg_roles-IsSortedRoles c v

pub handle_all-IsCache :
    (es : List RoleEvent) (c : RoleCache) → IsCache c → IsCache (handle_all es c)
unfolding handle_all
handle_all-IsCache [] c v = v
handle_all-IsCache (e ∷ es) c v = handle_all-IsCache es (handle e c) (handle-IsCache e c v)
