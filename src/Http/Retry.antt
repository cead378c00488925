-- ===== src/Http/Retry.antt =====
-- Discord/Gateway/GatewayHttp.cpp: `DiscordRequestNoRetry` after the request was served, and
-- `DiscordRequest`. The JSON library is a parameter: `parse` is json::parse, where `none` is the
-- exception it throws, and `retry_after` is what the constructor of xRateLimitError (Discord/Exception)
-- reads, in milliseconds.
use greek_bot.Prelude.{
  ℕ, zero, suc, ◌/◌, ◌≡◌, ◌≢◌, ◌<◌, ◌⊎◌, Bool, List, [], ◌∷◌, Option, none, some, ◌==◌,
  if◌then◌else◌, arith, refl, ap,
}
use greek_bot.Http.Queue.{Failure}

pub record HttpResponse : Type 0 where
  pub status : ℕ
  pub is_json : Bool
  pub body : List ℕ

-- How a request ends: with the result, with an error of the network or of the session, with a body
-- that is not JSON, with a rate limit, or with an error of Discord's.
pub data Outcome (Json : Type 0) : Type 0 where
  result_of : Json → Outcome Json
  not_served : Failure → Outcome Json
  not_parsed : Outcome Json
  rate_limited : ℕ → Outcome Json
  discord_error : ℕ → Json → Outcome Json

-- The waits of `DiscordRequest`, and how it ends: `none` if the fuel runs out.
pub record Requested (Json : Type 0) : Type 0 where
  pub waits : List ℕ
  pub ends : Option (Outcome Json)

-- After the attempt that had the outcome: either the wait and a further attempt, or the end.
abbrev pub after : {Json : Type 0} → Outcome Json → Requested Json → Requested Json
after (rate_limited ms) again = record again { waits = ms ∷ again.waits }
after o again = record { waits = []; ends = some o }

module _ {Json : Type 0} (null : Json) (parse : List ℕ → Option Json) (retry_after : Json → ℕ) where
  -- What the status makes of the parsed body.
  abbrev pub judge : ℕ → Json → Outcome Json
  judge status result =
      if status / 100 == 2
      then result_of result
      else if status == 429
      then rate_limited (retry_after result)
      else discord_error status result

  abbrev pub content : HttpResponse → Option Json
  content r = if r.is_json then parse r.body else some null

  unfoldable pub no_retry : Option Failure → HttpResponse → Outcome Json
  no_retry (some ex) r = not_served ex
  no_retry none r = elim (content r) [ none ↦ not_parsed | some result ↦ judge r.status result ]

  -- Each attempt is served with an exception or a response.
  unfoldable pub discord_request : ℕ → (ℕ → Option Failure) → (ℕ → HttpResponse) → Requested Json
  unfolding no_retry
  discord_request zero ex r = record { waits = []; ends = none }
  discord_request (suc fuel) ex r =
      after (no_retry (ex 0) (r 0)) (discord_request fuel (λ i. ex (suc i)) (λ i. r (suc i)))

  -- The first n values of a function.
  abbrev pub values : ℕ → (ℕ → ℕ) → List ℕ
  values zero f = []
  values (suc n) f = f 0 ∷ values n (λ i. f (suc i))

  no_retry-limited :
      (r : HttpResponse) (j : Json)
      → r.status ≡ 429
      → content r ≡ some j
      → no_retry none r ≡ rate_limited (retry_after j)
  unfolding no_retry
  no_retry-limited r j s c = rw (no_retry, c, s) refl

  after-unlimited :
      (ex : Option Failure) (r : HttpResponse) (again : Requested Json)
      → (ex ≢ none) ⊎ (r.status ≢ 429)
      → after (no_retry ex r) again ≡ record { waits = []; ends = some (no_retry ex r) }
  unfolding no_retry
  after-unlimited ex r again h = ground arith

  -- If the first n attempts are rate limited and the next is not, and the fuel allows for them,
  -- DiscordRequest waits for as long as each of the n answers says and then ends as that next attempt
  -- does.
  discord_request_lem :
      (n fuel : ℕ) (ex : ℕ → Option Failure) (r : ℕ → HttpResponse) (json : ℕ → Json)
      → n < fuel
      → ((i : ℕ) → i < n → (ex i ≡ none) × ((r i).status ≡ 429) × (content (r i) ≡ some (json i)))
      → (ex n ≢ none) ⊎ ((r n).status ≢ 429)
      → discord_request fuel ex r ≡ record {
        waits = values n (λ i. retry_after (json i));
        ends = some (no_retry (ex n) (r n));
      }
  unfolding discord_request
  discord_request_lem n zero ex r json le limits end = absurd (omega arith)
  discord_request_lem zero (suc fuel) ex r json le limits end = after-unlimited (ex 0) (r 0) _ end
  discord_request_lem (suc n) (suc fuel) ex r json le limits end =
      let (e, s, c) = limits 0 (omega arith) in
      rw (e, no_retry-limited (r 0) (json 0) s c)
        (ap (λ (q : Requested Json). record q { waits = retry_after (json 0) ∷ q.waits })
          (discord_request_lem n fuel (λ i. ex (suc i)) (λ i. r (suc i)) (λ i. json (suc i))
            (omega arith) (λ i lt. limits (suc i) (omega arith)) end))
