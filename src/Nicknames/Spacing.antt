-- ===== src/Nicknames/Spacing.antt =====
-- The report of `process_nicknames` is made of the sections that have no long part without a space.
use greek_bot.Prelude.{
  ℕ, ◌≡◌, refl, sym, ap, ◌∙◌, true, false, List, [], ◌∷◌, ◌++◌, if◌then◌else◌, is_empty, codes, All,
  arith,
}
use mathlib.Core.List.{append_assoc, append-nil}
use greek_bot.Utils.Digits.{decimal}
use greek_bot.Nicknames.Cutting.{is_spaced}
use greek_bot.Nicknames.Report.{mentions, set_back, add_section, Unnamed, content_of}
use greek_bot.Nicknames.Lines.{spaced_mono, lines, section, section-spaced, empty_spaced, IsId}

-- What the code builds is made of these sections.
set_back-append :
    (c : ℕ) (w s : List ℕ) → is_empty s ≡ false → set_back c (w ++ s) ≡ w ++ set_back c s
unfolding set_back
set_back-append c [] s h = refl
set_back-append c (d ∷ []) [] h = absurd (ground (arith, h))
set_back-append c (d ∷ []) (e ∷ s) h = refl
set_back-append c (d ∷ d' ∷ w) s h = ap (λ t. d ∷ t) (set_back-append c (d' ∷ w) s h)

back_of_two : set_back 10 (62 ∷ 32 ∷ []) ≡ 62 ∷ 10 ∷ []
unfolding set_back
back_of_two = refl

mentions-filled : (id : ℕ) (ids : List ℕ) → is_empty (mentions (id ∷ ids)) ≡ false
unfolding mentions
mentions-filled id ids = refl

set_back-mentions :
    (id : ℕ) (ids : List ℕ) → set_back 10 (mentions (id ∷ ids)) ≡ lines (id ∷ ids) []
unfolding mentions lines
set_back-mentions id [] =
    ap (set_back 10) (append-nil ((60 ∷ 64 ∷ decimal id) ++ 62 ∷ 32 ∷ []))
    ∙ set_back-append 10 (60 ∷ 64 ∷ decimal id) (62 ∷ 32 ∷ []) refl
    ∙ ap (λ t. (60 ∷ 64 ∷ decimal id) ++ t) back_of_two
set_back-mentions id (id' ∷ ids) =
    set_back-append 10 ((60 ∷ 64 ∷ decimal id) ++ 62 ∷ 32 ∷ []) (mentions (id' ∷ ids))
      (mentions-filled id' ids)
    ∙ ap (λ t. ((60 ∷ 64 ∷ decimal id) ++ 62 ∷ 32 ∷ []) ++ t) (set_back-mentions id' ids)
    ∙ append_assoc (60 ∷ 64 ∷ decimal id) (62 ∷ 32 ∷ []) (lines (id' ∷ ids) [])

lines-append : (ids s t : List ℕ) → lines ids s ++ t ≡ lines ids (s ++ t)
unfolding lines
lines-append [] s t = refl
lines-append (id ∷ []) s t = append_assoc (60 ∷ 64 ∷ decimal id) (62 ∷ 10 ∷ s) t
lines-append (id ∷ id' ∷ ids) s t =
    append_assoc (60 ∷ 64 ∷ decimal id) (62 ∷ 32 ∷ lines (id' ∷ ids) s) t
    ∙ ap (λ u. (60 ∷ 64 ∷ decimal id) ++ 62 ∷ 32 ∷ u) (lines-append (id' ∷ ids) s t)

section-append : (t ids s u : List ℕ) → section t ids s ++ u ≡ section t ids (s ++ u)
unfolding section
section-append t [] s u = refl
section-append t (id ∷ ids) s u =
    append_assoc (35 ∷ 35 ∷ 32 ∷ t) (lines (id ∷ ids) s) u
    ∙ ap (λ l. (35 ∷ 35 ∷ 32 ∷ t) ++ l) (lines-append (id ∷ ids) s u)

add_section_lem :
    (t ids content : List ℕ)
    → add_section (35 ∷ 35 ∷ 32 ∷ t) ids content ≡ content ++ section t ids []
unfolding add_section section
add_section_lem t [] content = sym (append-nil content)
add_section_lem t (id ∷ ids) content =
    set_back-append 10 content ((35 ∷ 35 ∷ 32 ∷ t) ++ mentions (id ∷ ids)) refl
    ∙ ap (λ u. content ++ u)
        (set_back-append 10 (35 ∷ 35 ∷ 32 ∷ t) (mentions (id ∷ ids)) (mentions-filled id ids)
          ∙ ap (λ u. (35 ∷ 35 ∷ 32 ∷ t) ++ u) (set_back-mentions id ids))

three_sections :
    (a b c n f l : List ℕ)
    → add_section
        (35 ∷ 35 ∷ 32 ∷ c)
        n
        (add_section (35 ∷ 35 ∷ 32 ∷ b) f (add_section (35 ∷ 35 ∷ 32 ∷ a) l []))
      ≡ section a l (section b f (section c n []))
three_sections a b c n f l =
    add_section_lem c n _
    ∙ ap (λ t. t ++ section c n [])
        (add_section_lem b f _ ∙ ap (λ t. t ++ section b f []) (add_section_lem a l []))
    ∙ append_assoc (section a l []) (section b f []) (section c n [])
    ∙ ap (λ t. section a l [] ++ t) (section-append b f [] (section c n []))
    ∙ section-append a l [] (section b f (section c n []))

unfoldable pub AllIds : Unnamed → Type 0
AllIds u = All IsId u.nonlearners × All IsId u.fluents × All IsId u.learners

-- An empty report is replaced by a text.
replaced_spaced :
    (s : List ℕ)
    → is_spaced 2 s ≡ true
    → (is_spaced 100 (if is_empty s then codes "Nothing to show" else s) ≡ true)
      × (is_empty (if is_empty s then codes "Nothing to show" else s) ≡ false)
unfolding is_spaced
replaced_spaced [] v = (refl, refl)
replaced_spaced (c ∷ s) v = (spaced_mono 2 100 (c ∷ s) v (omega arith), refl)

pub content_of-spaced :
    (u : Unnamed)
    → AllIds u
    → (is_spaced 100 (content_of u) ≡ true) × (is_empty (content_of u) ≡ false)
unfolding content_of AllIds
content_of-spaced u (n, f, l) = replaced_spaced _ (
    ap (is_spaced 2) (
      three_sections (codes "Learners\n") (codes "Fluents\n") (codes "Natives and non-learners\n")
        u.nonlearners u.fluents u.learners)
    ∙ section-spaced (codes "Learners\n") u.learners _ (omega arith) l (
        section-spaced (codes "Fluents\n") u.fluents _ (omega arith) f (
          section-spaced (codes "Natives and non-learners\n") u.nonlearners [] (omega arith) n
            empty_spaced)))
