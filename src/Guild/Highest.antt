-- ===== src/Guild/Highest.antt =====
-- The color of a member, whatever the events were.
use greek_bot.Prelude.{
  ℕ, ◌≤◌, ◌≡◌, ◌⊎◌, true, false, List, [], ◌∷◌, leb, refl, arith, All, if-holds, sym, ◌∙◌, inl, inr,
}
use greek_bot.Guild.Cache.{
  GuildRole, RoleCache, insert_role, sort_roles, get_lmg_roles, is_colored, first_color,
  get_lmg_member_color,
}
use greek_bot.Guild.Colors.{
  IsBelow, IsSortedRoles, IsCache, All-mono, get_lmg_roles-IsSortedRoles, handle_all,
  handle_all-IsCache, RoleEvent, no_roles, unsorted-IsCache,
}

abbrev pub IsIn : GuildRole → List GuildRole → Type 0
IsIn r [] = ⊥
IsIn r (s ∷ rs) = (r ≡ s) ⊎ IsIn r rs

abbrev pub HasColor : List ℕ → GuildRole → Type 0
HasColor ids r = is_colored ids r ≡ true

-- What the color is to be: that of a colored role of the member that no other stands above, or 0 if
-- the member has none.
unfoldable pub IsHighest : List ℕ → List GuildRole → ℕ → Type 0
IsHighest ids rs color =
    ((color ≡ 0) × All (λ r. is_colored ids r ≡ false) rs)
    ⊎ ((r : GuildRole) × IsIn r rs
        × HasColor ids r
        × (r.color ≡ color)
        × All (λ s. HasColor ids s → s.position ≤ r.position) rs)

first_color-IsHighest :
    (ids : List ℕ) (rs : List GuildRole) → IsSortedRoles rs → IsHighest ids rs (first_color ids rs)
unfolding IsHighest first_color
first_color-IsHighest ids [] v = inl (refl, tt)
first_color-IsHighest ids (r ∷ rs) (below, v) =
    if-holds (IsHighest ids (r ∷ rs)) (is_colored ids r) _ _
      (λ p.
        inr
          (r, inl refl, p, refl, (λ q. omega arith, All-mono (IsBelow r) _ rs (λ s h q. h) below)))
      (λ p. elim (first_color-IsHighest ids rs v) [
        | inl (zero_color, h) ↦ inl (zero_color, (p, h))
        | inr (s, mem, colored, same, h) ↦
            inr (s, inr mem, colored, same, (λ q. absurd (ground (arith, sym p ∙ q)), h))
      ])

IsIn-insert_role :
    (x r : GuildRole) (rs : List GuildRole) → IsIn x (insert_role r rs) → IsIn x (r ∷ rs)
unfolding insert_role
IsIn-insert_role x r [] = λ h. h
IsIn-insert_role x r (s ∷ rs) =
    if-holds (λ (l : List GuildRole). IsIn x l → IsIn x (r ∷ s ∷ rs)) (leb s.position r.position) _
      _ (λ p h. h)
      (λ p h. elim h [
        | inl e ↦ inr (inl e)
        | inr m ↦ elim (IsIn-insert_role x r rs m) [ inl e ↦ inl e | inr m ↦ inr (inr m) ]
      ])

insert_role-All :
    (P : GuildRole → Type 0) (r : GuildRole) (rs : List GuildRole)
    → All P (insert_role r rs)
    → P r × All P rs
unfolding insert_role
insert_role-All P r [] = λ h. h
insert_role-All P r (s ∷ rs) =
    if-holds (λ (l : List GuildRole). All P l → P r × (P s × All P rs)) (leb s.position r.position)
      _ _ (λ p h. h) (λ p h. let (q, w) = insert_role-All P r rs h.1 in (q, (h.0, w)))

IsIn-sort_roles : (x : GuildRole) (rs : List GuildRole) → IsIn x (sort_roles rs) → IsIn x rs
unfolding sort_roles
IsIn-sort_roles x [] h = h
IsIn-sort_roles x (r ∷ rs) h = elim (IsIn-insert_role x r (sort_roles rs) h) [
  | inl e ↦ inl e
  | inr m ↦ inr (IsIn-sort_roles x rs m)
]

sort_roles-All : (P : GuildRole → Type 0) (rs : List GuildRole) → All P (sort_roles rs) → All P rs
unfolding sort_roles
sort_roles-All P [] h = tt
sort_roles-All P (r ∷ rs) h =
    let (p, w) = insert_role-All P r (sort_roles rs) h in (p, sort_roles-All P rs w)

unsorted-IsHighest :
    (ids : List ℕ) (rs : List GuildRole) (color : ℕ)
    → IsHighest ids (sort_roles rs) color
    → IsHighest ids rs color
unfolding IsHighest
unsorted-IsHighest ids rs color (inl (zero_color, h)) = inl (zero_color, sort_roles-All _ rs h)
unsorted-IsHighest ids rs color (inr (r, mem, colored, same, h)) =
    inr (r, IsIn-sort_roles r rs mem, colored, same, sort_roles-All _ rs h)

-- After any events of roles, and colors that were asked for in between: the color of a member is that
-- of a role which they have, which has a color and which no other such role stands above, or none if
-- there is no such role.
pub get_lmg_member_color-IsHighest :
    (es : List RoleEvent) (ids : List ℕ)
    → IsHighest ids
        (handle_all es no_roles).roles
        (get_lmg_member_color ids (handle_all es no_roles)).1
unfolding get_lmg_member_color get_lmg_roles
get_lmg_member_color-IsHighest es ids =
    highest (handle_all es no_roles) (handle_all-IsCache es no_roles (unsorted-IsCache []))
  where
    highest :
        (c : RoleCache)
        → IsCache c
        → IsHighest ids c.roles (first_color ids (get_lmg_roles c).roles)
    highest c v =
        if-holds
          (λ (d : RoleCache).
            IsSortedRoles d.roles → IsHighest ids c.roles (first_color ids d.roles))
          c.is_sorted _ _ (λ p w. first_color-IsHighest ids c.roles w)
          (λ p w.
            unsorted-IsHighest ids c.roles _ (first_color-IsHighest ids (sort_roles c.roles) w))
          (get_lmg_roles-IsSortedRoles c v)
