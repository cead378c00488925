-- ===== src/Messages/Paging.antt =====
-- Fetching in pages gives the newest messages of the channel, in order.
use greek_bot.Prelude.{
  ℕ, zero, suc, ◌-◌, Bool, List, ◌++◌, none, some, ltb, if◌then◌else◌, length, take, drop, All,
  arith, refl, ◌≡◌, ◌<◌, ◌≤◌, ap, true, ◌∙◌, false, Bool-cases, inl, ltb→lt, inr, sym, subst,
  length-take,
}
use greek_bot.Messages.History.{
  Pages, last_id, pages_before, get_channel_messages_before, get_channel_messages,
}
use greek_bot.Messages.Before.{
  IsHistory, before, ltb-ge, All-take, before-last_id, before-before, take_all, take_more,
  IsHistory-drop, IsHistory-before, before-below, last_id_le,
}

if_yes : {A : Type 0} (b : Bool) (x y : A) → b ≡ true → (if b then x else y) ≡ x
if_yes b x y p = rw p refl

if_no : {A : Type 0} (b : Bool) (x y : A) → b ≡ false → (if b then x else y) ≡ y
if_no b x y p = rw p refl

-- A page of at most 100 messages, and what follows if it is full.
page_then :
    (limit : ℕ) (t full : List ℕ)
    → 100 ≤ limit
    → (100 ≤ length t → full ≡ take 100 t ++ take (limit - 100) (drop 100 t))
    → (if ltb (length (take 100 t)) 100 then take 100 t else full) ≡ take limit t
page_then limit t full le follows = elim (Bool-cases (ltb (length (take 100 t)) 100)) [
  | inl few ↦
      let short = ltb→lt (length (take 100 t)) 100 few in
      if_yes (ltb (length (take 100 t)) 100) (take 100 t) full few
      ∙ take_all 100 t (omega (arith, length-take 100 t))
      ∙ sym (take_all limit t (omega (arith, length-take 100 t)))
  | inr whole ↦
      let long = ltb-ge (length (take 100 t)) 100 whole in
      if_no (ltb (length (take 100 t)) 100) (take 100 t) full whole
      ∙ follows (omega (arith, length-take 100 t))
      ∙ take_more 100 (limit - 100) limit t (omega arith)
]

-- Discord's answers for a channel whose messages are `h`: a page has the newest messages, up to the
-- limit, of those before a message or of all.
module _ (page : Pages) (h : List ℕ) (history : IsHistory h)
    (first_page : (n : ℕ) → n ≤ 100 → page none n ≡ take n h)
    (later_page : (b n : ℕ) → n ≤ 100 → page (some b) n ≡ take n (before b h)) where
  -- The messages before the last one of a page of the messages before `b`.
  next_before :
      (b : ℕ) (t : List ℕ)
      → IsHistory t
      → before b h ≡ t
      → 100 ≤ length t
      → before (last_id b (take 100 t)) h ≡ drop 100 t
  next_before b t v q le =
      sym (
        before-before (last_id b (take 100 t)) b h (
          last_id_le b (take 100 t)
            (All-take b 100 t (subst (All (λ y. y < b)) q (before-below b h)))))
      ∙ ap (before (last_id b (take 100 t))) q
      ∙ before-last_id 99 b t v le

  abbrev page_step : ℕ → ℕ → ℕ → List ℕ → List ℕ
  page_step fuel b limit batch =
      if ltb (length batch) 100
      then batch
      else if ltb 100 (limit - 100)
      then batch ++ pages_before fuel page (last_id b batch) (limit - 100)
      else batch ++ page (some (last_id b batch)) (limit - 100)

  pages_before_lem :
      (fuel b limit : ℕ) (t : List ℕ)
      → 100 < limit
      → limit ≤ fuel
      → IsHistory t
      → before b h ≡ t
      → pages_before fuel page b limit ≡ take limit t
  unfolding pages_before
  pages_before_lem zero b limit t lt le v q = absurd (omega arith)
  pages_before_lem (suc fuel) b limit t lt le v q =
      ap (page_step fuel b limit) (later_page b 100 (omega arith) ∙ ap (take 100) q)
      ∙ page_then limit t _ (omega arith) (λ long.
        let next = last_id b (take 100 t) in
        let rest = next_before b t v q long in
        elim (Bool-cases (ltb 100 (limit - 100))) [
          | inl again ↦
              if_yes (ltb 100 (limit - 100)) _ _ again
              ∙ ap (λ r. take 100 t ++ r)
                  (pages_before_lem fuel next (limit - 100) (drop 100 t)
                    (ltb→lt 100 (limit - 100) again) (omega arith) (IsHistory-drop 100 t v) rest)
          | inr last ↦
              if_no (ltb 100 (limit - 100)) _ _ last
              ∙ ap (λ r. take 100 t ++ r)
                  (later_page next (limit - 100) (ltb-ge 100 (limit - 100) last)
                    ∙ ap (take (limit - 100)) rest)
        ])

  -- If Discord answers each request of at most 100 messages with the newest messages before the given
  -- one of an unchanging history, up to the request's limit, then `GetChannelMessagesBefore` yields
  -- the newest messages before its message, up to its limit.
  pub get_channel_messages_before_lem :
      (b limit : ℕ) → get_channel_messages_before page b limit ≡ take limit (before b h)
  unfolding get_channel_messages_before
  get_channel_messages_before_lem b zero = refl
  get_channel_messages_before_lem b (suc n) = elim (Bool-cases (ltb 100 (suc n))) [
    | inl many ↦
        if_yes (ltb 100 (suc n)) _ (page (some b) (suc n)) many
        ∙ pages_before_lem (suc n) b (suc n) (before b h) (ltb→lt 100 (suc n) many) (omega arith)
            (IsHistory-before b h history) refl
    | inr few ↦
        if_no (ltb 100 (suc n)) _ (page (some b) (suc n)) few
        ∙ later_page b (suc n) (ltb-ge 100 (suc n) few)
  ]

  abbrev first_step : ℕ → List ℕ → List ℕ
  first_step n batch =
      if ltb (length batch) 100
      then batch
      else batch ++ get_channel_messages_before page (last_id 0 batch) (suc n - 100)

  -- If Discord answers each request of at most 100 messages with the newest messages of an unchanging
  -- history, up to the request's limit, then `GetChannelMessages` yields the newest messages of the
  -- channel, up to its limit.
  pub get_channel_messages_lem : (limit : ℕ) → get_channel_messages page limit ≡ take limit h
  unfolding get_channel_messages
  get_channel_messages_lem zero = refl
  get_channel_messages_lem (suc n) = elim (Bool-cases (ltb 100 (suc n))) [
    | inl many ↦
        let lt = ltb→lt 100 (suc n) many in
        if_yes (ltb 100 (suc n)) (first_step n (page none 100)) (page none (suc n)) many
        ∙ ap (first_step n) (first_page 100 (omega arith))
        ∙ page_then (suc n) h _ (omega arith) (λ long.
          ap (λ r. take 100 h ++ r)
            (get_channel_messages_before_lem (last_id 0 (take 100 h)) (suc n - 100)
              ∙ ap (take (suc n - 100)) (before-last_id 99 0 h history long)))
    | inr few ↦
        if_no (ltb 100 (suc n)) (first_step n (page none 100)) (page none (suc n)) few
        ∙ first_page (suc n) (ltb-ge 100 (suc n) few)
  ]
