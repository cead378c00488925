-- ===== src/Guild/Toggles.antt =====
-- Choosing roles twice.
use greek_bot.Prelude.{
  ==_refl, ==_iff, ℕ, Bool, not, List, [], ◌∷◌, ◌++◌, if◌then◌else◌, ◌==◌, contains, filterb, ◌≡◌,
  ◌||◌, ◌&&◌, if-holds, Bool-cases, arith, inl, refl, ap, ==_iff, inr, ◌∙◌, true, false, sym,
}
use greek_bot.LearningGreek.Role
use greek_bot.LearningGreek.{proficiency_roles}
use greek_bot.Guild.Choice.{
  RoleReply, valid_roles, toggle, process_role_button, without, process_proficiency_menu,
}

contains-filterb :
    (p : ℕ → Bool) (xs : List ℕ) (r : ℕ) → contains (filterb p xs) r ≡ (contains xs r && p r)
contains-filterb p [] r = refl
contains-filterb p (x ∷ xs) r = elim (Bool-cases (x == r)) [
  | inl same ↦ rw (same, ap p ((==_iff x r).0 same)) (ground (arith, contains-filterb p xs r, same))
  | inr other ↦ ground (arith, contains-filterb p xs r, other)
]

contains-append :
    (xs ys : List ℕ) (r : ℕ) → contains (xs ++ ys) r ≡ (contains xs r || contains ys r)
contains-append [] ys r = refl
contains-append (x ∷ xs) ys r = ground (arith, contains-append xs ys r)

toggle-contains :
    (selected : ℕ) (roles : List ℕ) (r : ℕ)
    → contains (toggle selected roles).0 r
      ≡ (if selected == r then not (contains roles selected) else contains roles r)
unfolding toggle
toggle-contains selected roles r =
    if-holds
      (λ (k : List ℕ × RoleReply).
        contains k.0 r
        ≡ (if selected == r then not (contains roles selected) else contains roles r))
      (contains roles selected) _ _
      (λ has. elim (Bool-cases (selected == r)) [
        | inl same ↦ rw same (contains-filterb _ roles r ∙ ground (arith, has, same))
        | inr other ↦ rw other (contains-filterb _ roles r ∙ ground (arith, other))
      ])
      (λ lacks. elim (Bool-cases (selected == r)) [
        | inl same ↦ rw same (contains-append roles (selected ∷ []) r ∙ ground (arith, lacks, same))
        | inr other ↦ rw other (contains-append roles (selected ∷ []) r ∙ ground (arith, other))
      ])

toggle_twice :
    (selected : ℕ) (roles : List ℕ) (r : ℕ)
    → contains (toggle selected (toggle selected roles).0).0 r ≡ contains roles r
toggle_twice selected roles r = elim (Bool-cases (selected == r)) [
  | inl same ↦
      toggle-contains selected (toggle selected roles).0 r
      ∙ rw same (
          ap not (toggle-contains selected roles selected)
          ∙ back (contains roles selected) (==_refl selected)
          ∙ ap (contains roles) ((==_iff selected r).0 same))
  | inr other ↦
      toggle-contains selected (toggle selected roles).0 r
      ∙ rw other (toggle-contains selected roles r ∙ rw other refl)
]
  where
    back :
        (b : Bool)
        → (selected == selected) ≡ true
        → not (if selected == selected then not b else b) ≡ b
    back true e = rw e refl
    back false e = rw e refl

poll_toggles :
    (selected : ℕ) (roles : List ℕ)
    → (selected == Role.poll) ≡ true
    → contains roles Role.native ≡ true
    → process_role_button selected roles ≡ toggle selected roles
unfolding process_role_button
poll_toggles selected roles polls natives = rw (process_role_button, polls, natives) refl

valid_toggles :
    (selected : ℕ) (roles : List ℕ)
    → (selected == Role.poll) ≡ false
    → contains valid_roles selected ≡ true
    → process_role_button selected roles ≡ toggle selected roles
unfolding process_role_button
valid_toggles selected roles others valid = rw (process_role_button, others, valid) refl

both_toggle :
    (selected : ℕ) (roles : List ℕ) (r : ℕ)
    → process_role_button selected roles ≡ toggle selected roles
    → process_role_button selected (toggle selected roles).0
      ≡ toggle selected (toggle selected roles).0
    → contains (process_role_button selected (process_role_button selected roles).0).0 r
      ≡ contains roles r
both_toggle selected roles r p q =
    ap (λ k. contains (process_role_button selected k.0).0 r) p
    ∙ ap (λ k. contains k.0 r) q
    ∙ toggle_twice selected roles r

refused_twice :
    (selected : ℕ) (roles : List ℕ) (r : ℕ)
    → (process_role_button selected roles).0 ≡ roles
    → contains (process_role_button selected (process_role_button selected roles).0).0 r
      ≡ contains roles r
refused_twice selected roles r p =
    ap (λ k. contains (process_role_button selected k).0 r) p ∙ ap (λ k. contains k r) p

-- Whatever the role is: pressing its button twice leaves the member with the roles that they had.
process_role_button_twice :
    (selected : ℕ) (roles : List ℕ) (r : ℕ)
    → contains (process_role_button selected (process_role_button selected roles).0).0 r
      ≡ contains roles r
unfolding process_role_button
process_role_button_twice selected roles r = elim (Bool-cases (selected == Role.poll)) [
  | inl polls ↦ elim (Bool-cases (contains roles Role.native)) [
    | inl natives ↦ both_toggle selected roles r (poll_toggles selected roles polls natives) (
        poll_toggles selected (toggle selected roles).0 polls
          (toggle-contains selected roles Role.native ∙ ground (arith, polls, natives)))
    | inr learners ↦ refused_twice selected roles r (rw (process_role_button, polls, learners) refl)
  ]
  | inr others ↦ elim (Bool-cases (contains valid_roles selected)) [
    | inl valid ↦
        both_toggle selected roles r (valid_toggles selected roles others valid)
          (valid_toggles selected (toggle selected roles).0 others valid)
    | inr invalid ↦ refused_twice selected roles r (rw (process_role_button, others, invalid) refl)
  ]
]

-- Of the proficiency roles, the menu leaves the member with the one that was selected, and with the
-- native one if that is the one for Cyprus; all other roles stay.
process_proficiency_menu_lem :
    (selected : ℕ) (roles : List ℕ) (r : ℕ)
    → contains proficiency_roles selected ≡ true
    → contains (process_proficiency_menu selected roles) r ≡ (
        if contains proficiency_roles r
        then (selected == r) || ((selected == Role.cyprus) && (Role.native == r))
        else contains roles r)
unfolding process_proficiency_menu
process_proficiency_menu_lem selected roles r valid =
    contains-append (without proficiency_roles roles) _ r
    ∙ ap (λ b. b || contains (chosen selected) r)
        (contains-filterb (λ r. not (contains proficiency_roles r)) roles r)
    ∙ elim (Bool-cases (contains proficiency_roles r)) [
      | inl p ↦ rw p (only (contains roles r) _ _ _ (extra (selected == Role.cyprus)))
      | inr n ↦ rw n (
          kept (contains roles r) _ _ _ (extra (selected == Role.cyprus)) (apart selected valid n)
            (apart Role.native refl n))
    ]
  where
    apart :
        (a : ℕ)
        → contains proficiency_roles a ≡ true
        → contains proficiency_roles r ≡ false
        → (a == r) ≡ false
    apart a one none_of = elim (Bool-cases (a == r)) [
      | inl same ↦ absurd (
          ground (arith, sym one ∙ ap (contains proficiency_roles) ((==_iff a r).0 same) ∙ none_of))
      | inr other ↦ other
    ]

    extra : (c : Bool) → contains (if c then Role.native ∷ [] else []) r ≡ (c && (Role.native == r))
    extra true = ground arith
    extra false = refl

    only : (x s y z : Bool) → y ≡ z → ((x && false) || (s || y)) ≡ (s || z)
    only true s y z q = ap (λ b. s || b) q
    only false s y z q = ap (λ b. s || b) q

    kept :
        (x s y c : Bool) {n : Bool}
        → y ≡ (c && n)
        → s ≡ false
        → n ≡ false
        → ((x && true) || (s || y)) ≡ x
    kept x s y c q p m = ground (arith, q, p, m)

    chosen : ℕ → List ℕ
    chosen selected = selected ∷ (if selected == Role.cyprus then Role.native ∷ [] else [])
