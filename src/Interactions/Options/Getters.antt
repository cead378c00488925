-- ===== src/Interactions/Options/Getters.antt =====
-- The getters of options against their types.
use greek_bot.Prelude.{
  ℕ, ◌≡◌, refl, ap, ◌∙◌, Bool, true, false, not, ◌&&◌, ◌||◌, sym, if◌then◌else◌, List, Option, none,
  some, ◌==◌, arith, leb, ◌≤◌,
}
use greek_bot.Interactions.Options.Parsing.{
  AppCmdOption, option, OptionValue, integer_value, double_value, bool_value, string_value,
  snowflake_value, options_value, user_value, kind_of, get_type, get_string, get_integer, get_bool,
  get_number, get_user, get_snowflake, get_options, no_options,
}
use greek_bot.Interactions.Options.Types.{
  IsTyped, kind_of_value, code_of, code-string, code-integer, code-bool, code-user, code-snowflake,
  code-double, code-options,
}

abbrev pub is_some {ℓ} : {A : Type ℓ} → Option A → Bool
is_some none = false
is_some (some a) = true

-- The getter of a type gives a value exactly if the option has the type, and GetOptions gives options
-- only for a subcommand or a group of them.
abbrev pub IsReadable : AppCmdOption → Type 0
IsReadable o =
    (is_some (get_string o) ≡ (get_type o == 3))
    × (is_some (get_integer o) ≡ (get_type o == 4))
    × (is_some (get_bool o) ≡ (get_type o == 5))
    × (is_some (get_user o) ≡ (get_type o == 6))
    × (is_some (get_snowflake 7 o) ≡ (get_type o == 7))
    × (is_some (get_snowflake 8 o) ≡ (get_type o == 8))
    × (is_some (get_snowflake 9 o) ≡ (get_type o == 9))
    × (is_some (get_number o) ≡ not (leb 1 (get_type o) && leb (get_type o) 9))
    × (get_options o
        ≡ (if (get_type o == 1) || (get_type o == 2) then get_options o else no_options))

by_code :
    (k : ℕ) (name : List ℕ) (type : ℕ) (value : OptionValue) (found : Bool)
    → IsTyped (option name type value)
    → found ≡ (code_of (kind_of_value value) == k)
    → found ≡ (code_of (kind_of type) == k)
unfolding IsTyped
by_code k name type value found h p = p ∙ ap (λ kind. code_of kind == k) h

by_type :
    (w type : ℕ) (found : Bool)
    → found ≡ (code_of (kind_of type) == 7) && (type == w)
    → 7 ≤ w
    → w ≤ 9
    → found ≡ (type == w)
by_type w type found p lo hi = ground (arith, p, code-snowflake type, lo, hi)

snowflake_found :
    (w : ℕ) (name : List ℕ) (type : ℕ) (value : OptionValue)
    → is_some (get_snowflake w (option name type value))
      ≡ ((code_of (kind_of_value value) == 7) && (type == w))
unfolding get_snowflake code_of kind_of_value
snowflake_found w name type (snowflake_value id) = ground arith
snowflake_found w name type (integer_value n) = refl
snowflake_found w name type (double_value n) = refl
snowflake_found w name type (bool_value n) = refl
snowflake_found w name type (string_value n) = refl
snowflake_found w name type (options_value n) = refl
snowflake_found w name type (user_value n m) = refl

others_found :
    (name : List ℕ) (type : ℕ) (value : OptionValue)
    → (is_some (get_string (option name type value)) ≡ (code_of (kind_of_value value) == 3))
      × (is_some (get_integer (option name type value)) ≡ (code_of (kind_of_value value) == 4))
      × (is_some (get_bool (option name type value)) ≡ (code_of (kind_of_value value) == 5))
      × (is_some (get_user (option name type value)) ≡ (code_of (kind_of_value value) == 6))
      × (is_some (get_number (option name type value)) ≡ (code_of (kind_of_value value) == 10))
unfolding get_string get_integer get_bool get_user get_number code_of kind_of_value
others_found name type (integer_value n) = (refl, refl, refl, refl, refl)
others_found name type (double_value d) = (refl, refl, refl, refl, refl)
others_found name type (bool_value b) = (refl, refl, refl, refl, refl)
others_found name type (string_value s) = (refl, refl, refl, refl, refl)
others_found name type (snowflake_value id) = (refl, refl, refl, refl, refl)
others_found name type (options_value os) = (refl, refl, refl, refl, refl)
others_found name type (user_value user member) = (refl, refl, refl, refl, refl)

options_found :
    (name : List ℕ) (type : ℕ) (value : OptionValue) (grouped : Bool)
    → grouped ≡ (code_of (kind_of_value value) == 1)
    → get_options (option name type value)
      ≡ (if grouped then get_options (option name type value) else no_options)
unfolding get_options code_of kind_of_value
options_found name type (options_value os) grouped p = rw p refl
options_found name type (integer_value n) grouped p = rw p refl
options_found name type (double_value d) grouped p = rw p refl
options_found name type (bool_value b) grouped p = rw p refl
options_found name type (string_value s) grouped p = rw p refl
options_found name type (snowflake_value id) grouped p = rw p refl
options_found name type (user_value user member) grouped p = rw p refl

snowflake_typed :
    (w : ℕ) (name : List ℕ) (type : ℕ) (value : OptionValue)
    → IsTyped (option name type value)
    → 7 ≤ w
    → w ≤ 9
    → is_some (get_snowflake w (option name type value)) ≡ (type == w)
unfolding IsTyped
snowflake_typed w name type value h lo hi =
    by_type w type _
      (snowflake_found w name type value ∙ ap (λ k. (code_of k == 7) && (type == w)) h) lo hi

pub typed-IsReadable : (o : AppCmdOption) → IsTyped o → IsReadable o
unfolding IsTyped
typed-IsReadable (option name type value) h =
    let (text, integer, bool, user, number) = others_found name type value in
    (
      by_code 3 name type value _ h text ∙ code-string type,
      by_code 4 name type value _ h integer ∙ code-integer type,
      by_code 5 name type value _ h bool ∙ code-bool type,
      by_code 6 name type value _ h user ∙ code-user type,
      snowflake_typed 7 name type value h (omega arith) (omega arith),
      snowflake_typed 8 name type value h (omega arith) (omega arith),
      snowflake_typed 9 name type value h (omega arith) (omega arith),
      by_code 10 name type value _ h number ∙ code-double type,
      options_found name type value ((type == 1) || (type == 2))
          (sym (code-options type) ∙ ap (λ k. code_of k == 1) (sym h)),
    )
