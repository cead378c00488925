-- ===== src/Messages/Before.antt =====
-- The messages before a message of a channel's history.
use greek_bot.Prelude.{
  ℕ, zero, suc, ◌+◌, List, [], ◌∷◌, ◌++◌, ltb, length, filterb, take, drop, All, arith, refl, ◌≡◌,
  ◌<◌, ◌≤◌, ap, true, ◌∙◌, false, Bool-cases, inl, ltb→lt, inr, sym, subst,
}
use greek_bot.Messages.History.{last_id}

-- The messages of a channel, the newest first.
abbrev pub IsHistory : List ℕ → Type 0
IsHistory [] = Unit
IsHistory (x ∷ xs) = All (λ y. y < x) xs × IsHistory xs

-- The messages sent before one.
unfoldable pub before : ℕ → List ℕ → List ℕ
before id h = filterb (λ y. ltb y id) h

pub ltb-ge : (a b : ℕ) → ltb a b ≡ false → b ≤ a
ltb-ge a b h = ground arith

lt-ltb : (a b : ℕ) → a < b → ltb a b ≡ true
lt-ltb a b h = ground arith

ge-ltb : (a b : ℕ) → b ≤ a → ltb a b ≡ false
ge-ltb a b h = ground arith

before_keep : (id y : ℕ) (h : List ℕ) → y < id → before id (y ∷ h) ≡ y ∷ before id h
unfolding before
before_keep id y h lt = rw (lt-ltb y id lt) refl

before_skip : (id y : ℕ) (h : List ℕ) → id ≤ y → before id (y ∷ h) ≡ before id h
unfolding before
before_skip id y h le = rw (ge-ltb y id le) refl

before-All : (id : ℕ) (h : List ℕ) → All (λ y. y < id) h → before id h ≡ h
before-All id [] a = unfold before in refl
before-All id (y ∷ h) (lt, a) = before_keep id y h lt ∙ ap (λ t. y ∷ t) (before-All id h a)

last_id_below : (b id : ℕ) (xs : List ℕ) → id < b → All (λ y. y < b) xs → last_id id xs < b
unfolding last_id
last_id_below b id [] lt a = lt
last_id_below b id (x ∷ xs) lt (p, a) = last_id_below b x xs p a

pub All-take : (b n : ℕ) (xs : List ℕ) → All (λ y. y < b) xs → All (λ y. y < b) (take n xs)
All-take b zero xs a = tt
All-take b (suc n) [] a = tt
All-take b (suc n) (x ∷ xs) (p, a) = (p, All-take b n xs a)

-- What comes before the last message of a page is what comes after the page.
pub before-last_id :
    (n id : ℕ) (h : List ℕ)
    → IsHistory h
    → suc n ≤ length h
    → before (last_id id (take (suc n) h)) h ≡ drop (suc n) h
unfolding last_id
before-last_id n id [] v q = absurd (omega arith)
before-last_id zero id (x ∷ h) (a, v) q = before_skip x x h (omega arith) ∙ before-All x h a
before-last_id (suc n) id (x ∷ []) (a, v) q = absurd (omega arith)
before-last_id (suc n) id (x ∷ y ∷ h) ((p, a), v) q =
    before_skip (last_id y (take n h)) x (y ∷ h)
      (lt_le (last_id_below x y (take n h) p (All-take x n h a)))
    ∙ before-last_id n x (y ∷ h) v (omega arith)
  where
    lt_le : {a b : ℕ} → a < b → a ≤ b
    lt_le h = omega arith

pub before-before : (a b : ℕ) (h : List ℕ) → a ≤ b → before a (before b h) ≡ before a h
before-before a b [] le = unfold before in refl
before-before a b (y ∷ h) le = elim (Bool-cases (ltb y b)) [
  | inl below ↦ ap (before a) (before_keep b y h (ltb→lt y b below)) ∙ elim (Bool-cases (ltb y a)) [
    | inl low ↦
        before_keep a y (before b h) (ltb→lt y a low)
        ∙ ap (λ t. y ∷ t) (before-before a b h le)
        ∙ sym (before_keep a y h (ltb→lt y a low))
    | inr high ↦
        before_skip a y (before b h) (ground arith)
        ∙ before-before a b h le
        ∙ sym (before_skip a y h (ground arith))
  ]
  | inr above ↦
      ap (before a) (before_skip b y h (ground arith))
      ∙ before-before a b h le
      ∙ sym (before_skip a y h (ground arith))
]

pub take_all : (n : ℕ) (xs : List ℕ) → length xs ≤ n → take n xs ≡ xs
take_all zero [] le = refl
take_all zero (x ∷ xs) le = absurd (omega arith)
take_all (suc n) [] le = refl
take_all (suc n) (x ∷ xs) le = ap (λ t. x ∷ t) (take_all n xs (omega arith))

take_nil : (n : ℕ) → take {A = ℕ} n [] ≡ []
take_nil zero = refl
take_nil (suc n) = refl

pub take_more : (n m k : ℕ) (xs : List ℕ) → k ≡ n + m → take n xs ++ take m (drop n xs) ≡ take k xs
take_more zero m k xs h = ap (λ i. take i xs) (omega arith)
take_more (suc n) m zero xs h = absurd (omega arith)
take_more (suc n) m (suc k) [] h = take_nil m
take_more (suc n) m (suc k) (x ∷ xs) h = ap (λ t. x ∷ t) (take_more n m k xs (omega arith))

pub IsHistory-drop : (n : ℕ) (h : List ℕ) → IsHistory h → IsHistory (drop n h)
IsHistory-drop zero h v = v
IsHistory-drop (suc n) [] v = tt
IsHistory-drop (suc n) (x ∷ h) v = IsHistory-drop n h v.1

All-before : (x b : ℕ) (h : List ℕ) → All (λ y. y < x) h → All (λ y. y < x) (before b h)
All-before x b [] a = unfold before in tt
All-before x b (y ∷ h) (p, a) = elim (Bool-cases (ltb y b)) [
  | inl below ↦
      subst (All (λ y. y < x)) (sym (before_keep b y h (ltb→lt y b below))) (p, All-before x b h a)
  | inr above ↦
      subst (All (λ y. y < x)) (sym (before_skip b y h (ground arith))) (All-before x b h a)
]

pub IsHistory-before : (b : ℕ) (h : List ℕ) → IsHistory h → IsHistory (before b h)
IsHistory-before b [] v = unfold before in tt
IsHistory-before b (y ∷ h) (a, v) = elim (Bool-cases (ltb y b)) [
  | inl below ↦
      subst IsHistory (sym (before_keep b y h (ltb→lt y b below)))
        (All-before y b h a, IsHistory-before b h v)
  | inr above ↦ subst IsHistory (sym (before_skip b y h (ground arith))) (IsHistory-before b h v)
]

pub before-below : (b : ℕ) (h : List ℕ) → All (λ y. y < b) (before b h)
before-below b [] = unfold before in tt
before-below b (y ∷ h) = elim (Bool-cases (ltb y b)) [
  | inl below ↦
      subst (All (λ y. y < b)) (sym (before_keep b y h (ltb→lt y b below)))
        (ltb→lt y b below, before-below b h)
  | inr above ↦ subst (All (λ y. y < b)) (sym (before_skip b y h (ground arith))) (before-below b h)
]

pub last_id_le : (b : ℕ) (xs : List ℕ) → All (λ y. y < b) xs → last_id b xs ≤ b
unfolding last_id
last_id_le b [] a = omega arith
last_id_le b (x ∷ xs) (p, a) = omega (arith, last_id_below b x xs p a)
