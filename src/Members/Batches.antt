-- ===== src/Members/Batches.antt =====
-- Discord/Gateway/GatewayGuildMembers.cpp: `RequestGuildMembers` for a list of user ids. What one
-- request yields is a parameter. The generators become the requests that they send, each with its ids,
-- and the members that they yield.
use greek_bot.Prelude.{
  ℕ, zero, suc, ◌+◌, ◌-◌, ◌≡◌, ◌≤◌, List, [], ◌∷◌, ◌++◌, if◌then◌else◌, refl, ltb, leb, arith, All,
  length, take, drop, min, is_empty, ◌∙◌, ap, sym, take-append-drop, length-take, length-drop, ◌<◌,
  if-holds, leb→le, false, subst, ltb→lt,
}
use mathlib.Core.List.{append-nil}

-- What a generator has sent and yielded.
pub record Fetched (Member : Type 0) : Type 0 where
  pub requests : List (List ℕ)
  pub members : List Member

-- The largest number of ids that a request may have.
abbrev pub request_limit : ℕ
request_limit = 100

module _ {Member : Type 0} (request : List ℕ → List Member) where
  abbrev pub one_request : List ℕ → Fetched Member
  one_request ids = record { requests = ids ∷ []; members = request ids }

  abbrev pub and_then : Fetched Member → Fetched Member → Fetched Member
  and_then f g = record { requests = f.requests ++ g.requests; members = f.members ++ g.members }

  -- The `do while` loop over the offset, with fuel.
  unfoldable pub request_batches : ℕ → ℕ → List ℕ → Fetched Member
  request_batches zero offset ids = record { requests = []; members = [] }
  request_batches (suc fuel) offset ids =
      let batch = take (min (length ids - offset) request_limit) (drop offset ids) in
      let next = offset + request_limit in
      let rest = request_batches fuel next ids in
      if ltb next (length ids) then and_then (one_request batch) rest else one_request batch

  unfoldable pub request_guild_members : List ℕ → Fetched Member
  unfolding request_batches
  request_guild_members ids =
      if is_empty ids
      then record { requests = []; members = [] }
      else if leb (length ids) request_limit
      then one_request ids
      else request_batches (length ids) 0 ids

  -- A request that Discord takes: from 1 to 100 ids.
  abbrev pub IsRequest : List ℕ → Type 0
  IsRequest ids = (1 ≤ length ids) × (length ids ≤ request_limit)

  -- All that several requests ask for, and all that they yield.
  abbrev pub asked : List (List ℕ) → List ℕ
  asked [] = []
  asked (r ∷ rs) = r ++ asked rs

  abbrev pub answers : List (List ℕ) → List Member
  answers [] = []
  answers (r ∷ rs) = request r ++ answers rs

  drop-drop : (m n : ℕ) (xs : List ℕ) → drop (m + n) xs ≡ drop n (drop m xs)
  drop-drop zero n xs = ap (λ k. drop k xs) (omega arith)
  drop-drop (suc m) n [] = nothing (suc m + n) ∙ sym (nothing n)
    where
      nothing : (k : ℕ) → drop {A = ℕ} k [] ≡ []
      nothing zero = refl
      nothing (suc k) = refl
  drop-drop (suc m) n (x ∷ xs) = ap (λ k. drop k (x ∷ xs)) (same_suc m n) ∙ drop-drop m n xs
    where
      same_suc : (m n : ℕ) → suc m + n ≡ suc (m + n)
      same_suc m n = omega arith

  take-all : (n : ℕ) (xs : List ℕ) → length xs ≤ n → take n xs ≡ xs
  take-all zero [] le = refl
  take-all zero (x ∷ xs) le = absurd (omega arith)
  take-all (suc n) [] le = refl
  take-all (suc n) (x ∷ xs) le = ap (◌∷◌ x) (take-all n xs (omega arith))

  -- What a generator for the ids has to do: the requests are valid, ask for the ids in their order,
  -- and what they yield is what it yields.
  unfoldable pub IsFetch : List ℕ → Fetched Member → Type 0
  IsFetch ids f =
      All IsRequest f.requests × (asked f.requests ≡ ids) × (f.members ≡ answers f.requests)

  one-IsFetch : (ids : List ℕ) → IsRequest ids → IsFetch ids (one_request ids)
  unfolding IsFetch
  one-IsFetch ids v = ((v, tt), append-nil ids, sym (append-nil (request ids)))

  and_then-IsFetch :
      (batch rest : List ℕ) (f : Fetched Member)
      → IsRequest batch
      → IsFetch rest f
      → IsFetch (batch ++ rest) (and_then (one_request batch) f)
  unfolding IsFetch
  and_then-IsFetch batch rest f v (all, ids, members) =
      ((v, all), ap (λ l. batch ++ l) ids, ap (λ l. request batch ++ l) members)

  request_batches-IsFetch :
      (fuel offset : ℕ) (ids : List ℕ)
      → offset < length ids
      → length ids ≤ fuel + offset
      → IsFetch (drop offset ids) (request_batches fuel offset ids)
  unfolding request_batches
  request_batches-IsFetch zero offset ids lt le = absurd (omega arith)
  request_batches-IsFetch (suc fuel) offset ids lt le =
      if-holds (IsFetch (drop offset ids)) (ltb (offset + 100) (length ids)) _ _
        (λ more.
          subst (λ l. IsFetch l (and_then (one_request batch) rest)) (split (ltb→lt _ _ more))
            (and_then-IsFetch batch (drop (offset + 100) ids) rest sized
              (request_batches-IsFetch fuel (offset + 100) ids (ltb→lt _ _ more) (omega arith))))
        (λ last. subst (λ l. IsFetch l (one_request batch)) (whole last) (one-IsFetch batch sized))
    where
      size : ℕ
      size = min (length ids - offset) 100

      batch : List ℕ
      batch = take size (drop offset ids)

      rest : Fetched Member
      rest = request_batches fuel (offset + 100) ids

      sized : IsRequest batch
      sized = (
        omega (arith, length-take size (drop offset ids), length-drop offset ids),
        omega (arith, length-take size (drop offset ids), length-drop offset ids),
      )

      full : offset + 100 < length ids → size ≡ 100
      full more = omega (arith, more)

      split : offset + 100 < length ids → batch ++ drop (offset + 100) ids ≡ drop offset ids
      split more =
          ap (λ k. take k (drop offset ids) ++ drop (offset + 100) ids) (full more)
          ∙ ap (λ l. take 100 (drop offset ids) ++ l) (drop-drop offset 100 ids)
          ∙ take-append-drop 100 (drop offset ids)

      whole : ltb (offset + 100) (length ids) ≡ false → batch ≡ drop offset ids
      whole last = take-all size (drop offset ids) (ground (arith, length-drop offset ids, last))

  -- Whatever the requests yield: a list of ids is requested in valid batches that make up the list in
  -- its order, and the members are yielded in the order of the batches.
  pub request_guild_members-IsFetch : (ids : List ℕ) → IsFetch ids (request_guild_members ids)
  unfolding request_guild_members IsFetch
  request_guild_members-IsFetch [] = (tt, refl, refl)
  request_guild_members-IsFetch (i ∷ ids) =
      if-holds (IsFetch (i ∷ ids)) (leb (length (i ∷ ids)) 100) _ _
        (λ few. one-IsFetch (i ∷ ids) (omega arith, leb→le _ _ few))
        (λ many. request_batches-IsFetch (length (i ∷ ids)) 0 (i ∷ ids) (omega arith) (omega arith))
