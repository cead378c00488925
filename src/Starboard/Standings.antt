-- ===== src/Starboard/Standings.antt =====
-- The standings of the authors, before they are numbered.
use greek_bot.Prelude.{
  ℕ, ◌+◌, ◌≡◌, refl, sym, ap, ◌∙◌, Bool, true, false, List, [], ◌∷◌, Option, none, some, ◌==◌,
  ==_iff, leb, if◌then◌else◌, max, Bool-cases, inl, inr, arith, length, ◌&&◌,
}
use greek_bot.Starboard.Table.{Entry, Starboard}
use greek_bot.Prelude.Ranks.{insert_by, sort_by}
use greek_bot.Starboard.Ranking.{Standing, standing_of, joined_by, add_entry, tally, is_before}

unfoldable pub find_standing : ℕ → List Standing → Option Standing
find_standing user [] = none
find_standing user (s ∷ ss) = if s.author == user then some s else find_standing user ss

-- Each author once.
pub IsDistinct : List Standing → Type 0
IsDistinct [] = Unit
IsDistinct (s ∷ ss) = (find_standing s.author ss ≡ none) × IsDistinct ss

other_name :
    (s x : Standing) (xs : List Standing)
    → find_standing s.author (x ∷ xs) ≡ none
    → (x.author == s.author) ≡ false
unfolding find_standing
other_name s x xs new = elim (Bool-cases (x.author == s.author)) [
  | inl same ↦ absurd (ground (arith, same, new))
  | inr other ↦ other
]

none_after :
    (s x : Standing) (xs : List Standing)
    → find_standing s.author (x ∷ xs) ≡ none
    → find_standing s.author xs ≡ none
unfolding find_standing
none_after s x xs new = sym (rw (other_name s x xs new) refl) ∙ new

-- Two tests that do not hold both may be swapped.
if-swap {ℓ} :
    {A : Type ℓ} (p q : Bool) (a b c : A)
    → (q ≡ true → p ≡ false)
    → (if p then a else if q then b else c) ≡ (if q then b else if p then a else c)
if-swap true true a b c h = absurd (ground (arith, h refl))
if-swap true false a b c h = refl
if-swap false q a b c h = refl

find-insert :
    (user : ℕ) (s : Standing) (ss : List Standing)
    → find_standing s.author ss ≡ none
    → find_standing user (insert_by is_before s ss)
      ≡ (if s.author == user then some s else find_standing user ss)
unfolding find_standing insert_by
find-insert user s [] new = refl
find-insert user s (x ∷ xs) new = elim (Bool-cases (is_before s x)) [
  | inl first ↦ rw first refl
  | inr later ↦
      rw (later, find-insert user s xs (none_after s x xs new))
        (if-swap (x.author == user) (s.author == user) (some x) (some s) (find_standing user xs)
          (λ same.
            sym (ap (λ a. x.author == a) ((==_iff s.author user).0 same)) ∙ other_name s x xs new))
]

pub find-sort :
    (user : ℕ) (ss : List Standing)
    → IsDistinct ss
    → find_standing user (sort_by is_before ss) ≡ find_standing user ss
unfolding find_standing sort_by IsDistinct
find-sort user [] d = refl
find-sort user (s ∷ ss) (new, d) =
    find-insert user s (sort_by is_before ss) (find-sort s.author ss d ∙ new)
    ∙ ap (λ o. if s.author == user then some s else o) (find-sort user ss d)

same_test :
    (s : Standing) (e : Entry) (user : ℕ)
    → (s.author == e.author_id) ≡ true
    → (e.author_id == user) ≡ (s.author == user)
same_test s e user same = ap (λ a. a == user) (sym ((==_iff s.author e.author_id).0 same))

other_test :
    (s : Standing) (e : Entry) (user : ℕ)
    → (s.author == e.author_id) ≡ false
    → (e.author_id == user) ≡ true
    → (s.author == user) ≡ false
other_test s e user other own =
    sym (ap (λ a. s.author == a) ((==_iff e.author_id user).0 own)) ∙ other

join : Entry → Option Standing → Standing
join e none = standing_of e
join e (some s) = joined_by e s

find-add_entry :
    (user : ℕ) (e : Entry) (ss : List Standing)
    → find_standing user (add_entry e ss) ≡ (
        if e.author_id == user
        then some (join e (find_standing user ss))
        else find_standing user ss)
unfolding find_standing add_entry join
find-add_entry user e [] = refl
find-add_entry user e (s ∷ ss) = elim (Bool-cases (s.author == e.author_id)) [
  | inl same ↦ rw (same, same_test s e user same) (ground arith)
  | inr other ↦
      rw (other, find-add_entry user e ss)
        (elim (Bool-cases (e.author_id == user)) [
          | inl own ↦ rw (own, other_test s e user other own) refl
          | inr differ ↦ rw differ refl
        ])
]

ne_sym : (a b : ℕ) → (a == b) ≡ false → (b == a) ≡ false
ne_sym a b h = ground (arith, h)

add_entry-IsDistinct :
    (e : Entry) (ss : List Standing) → IsDistinct ss → IsDistinct (add_entry e ss)
unfolding IsDistinct add_entry find_standing
add_entry-IsDistinct e [] d = (refl, tt)
add_entry-IsDistinct e (s ∷ ss) (new, d) = elim (Bool-cases (s.author == e.author_id)) [
  | inl same ↦ rw same (new, d)
  | inr other ↦ rw other (
    find-add_entry s.author e ss ∙ rw (ne_sym s.author e.author_id other) new,
    add_entry-IsDistinct e ss d,
  )
]

pub tally-IsDistinct : (threshold : ℕ) (t : Starboard) → IsDistinct (tally threshold t)
unfolding IsDistinct tally
tally-IsDistinct threshold [] = tt
tally-IsDistinct threshold ((message, e) ∷ t) = elim (Bool-cases (leb threshold e.num)) [
  | inl counted ↦
      rw counted (add_entry-IsDistinct e (tally threshold t) (tally-IsDistinct threshold t))
  | inr few ↦ rw few (tally-IsDistinct threshold t)
]

-- The numbers of reactions of an author's messages that count.
unfoldable pub counted_of : ℕ → ℕ → Starboard → List ℕ
counted_of user threshold [] = []
counted_of user threshold ((message, e) ∷ t) =
    let rest = counted_of user threshold t in
    if leb threshold e.num && e.author_id == user then e.num ∷ rest else rest

unfoldable pub sum : List ℕ → ℕ
sum [] = 0
sum (n ∷ ns) = sum ns + n

unfoldable pub maximum : List ℕ → ℕ
maximum [] = 0
maximum (n ∷ ns) = max (maximum ns) n

unfoldable pub totals : ℕ → List ℕ → Option Standing
unfolding sum maximum
totals user [] = none
totals user (n ∷ ns) = some (record {
  author = user;
  num_msg = length (n ∷ ns);
  react_total = sum (n ∷ ns);
  max_react = maximum (n ∷ ns);
})

zero_add : (n : ℕ) → n ≡ 0 + n
zero_add n = omega arith

zero_max : (n : ℕ) → n ≡ max 0 n
zero_max n = omega arith

join-totals :
    (user : ℕ) (e : Entry) (ns : List ℕ)
    → e.author_id ≡ user
    → some (join e (totals user ns)) ≡ totals user (e.num ∷ ns)
unfolding join totals sum maximum
join-totals user e [] name =
    ap (λ a. some (record { author = a; num_msg = 1; react_total = e.num; max_react = e.num })) name
    ∙ ap (λ k. some (record { author = user; num_msg = 1; react_total = k; max_react = e.num }))
        (zero_add e.num)
    ∙ ap (λ k. some (record { author = user; num_msg = 1; react_total = 0 + e.num; max_react = k }))
        (zero_max e.num)
join-totals user e (n ∷ ns) name = refl

pub find-tally :
    (user threshold : ℕ) (t : Starboard)
    → find_standing user (tally threshold t) ≡ totals user (counted_of user threshold t)
unfolding find_standing tally totals counted_of
find-tally user threshold [] = refl
find-tally user threshold ((message, e) ∷ t) = elim (Bool-cases (leb threshold e.num)) [
  | inl counts ↦
      rw (counts, find-add_entry user e (tally threshold t), find-tally user threshold t)
        (elim (Bool-cases (e.author_id == user)) [
          | inl own ↦
              rw own
                (join-totals user e (counted_of user threshold t) ((==_iff e.author_id user).0 own))
          | inr other ↦ rw other refl
        ])
  | inr few ↦ rw few (find-tally user threshold t)
]
