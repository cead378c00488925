-- ===== src/Interactions/Options/Reading.antt =====
-- The options of a command can be read.
use greek_bot.Prelude.{
  ℕ, ◌≡◌, refl, List, [], Option, none, some, ◌==◌, codes, Bool-cases, inl, inr, subst, sym, ◌≢◌,
  same_text, if-holds,
}
use mathlib.Core.Option
use greek_bot.Interactions.Options.Json.{
  Json, Items, Fields, object, no_fields, field, array, item, no_items, at, as_object, as_string,
}
use greek_bot.Interactions.Options.Parsing.{
  AppCmdOption, option, OptionValue, AppCmdOptions, no_options, option_then, then_map, user_of,
  parse_option, parse_items, options_cons, kind_of, of_user, parse_value, make_option, option_of,
  parse_nested, parse_options, integer_value, double_value, bool_value, string_value,
  snowflake_value, options_value, user_value, Kind, of_options, of_string, of_integer, of_bool,
  of_snowflake, of_double,
}
use greek_bot.Interactions.Options.Types.{
  user_of-IsOf, Holds, IsOf, IsTyped, parse_value-IsOf, kind_of_value,
}
use greek_bot.Interactions.Options.Getters.{IsReadable, typed-IsReadable}
use greek_bot.Interactions.Options.Commands.{
  make_interaction, id_of, guild_of, AppCmdInteraction, target_option, target_options,
  given_options, command_options, app_cmd_interaction,
}
use greek_bot.Utils.Snowflake.{Snowflake}

-- An option and all options that it holds can be read.
unfoldable mutual
  pub IsReadableDeep : AppCmdOption → Type 0
  IsReadableDeep (option name type value) =
      IsReadable (option name type value) × HoldsReadable value

  pub HoldsReadable : OptionValue → Type 0
  HoldsReadable (options_value os) = AllReadable os
  HoldsReadable (integer_value n) = Unit
  HoldsReadable (double_value d) = Unit
  HoldsReadable (bool_value b) = Unit
  HoldsReadable (string_value s) = Unit
  HoldsReadable (snowflake_value id) = Unit
  HoldsReadable (user_value user member) = Unit

  pub AllReadable : AppCmdOptions → Type 0
  AllReadable no_options = Unit
  AllReadable (option_then o os) = IsReadableDeep o × AllReadable os

-- Only a value of options holds options.
of_kind : (k : Kind) (value : OptionValue) → k ≢ of_options → IsOf k value → HoldsReadable value
unfolding HoldsReadable kind_of_value
of_kind k (options_value os) apart h = absurd (apart (sym h))
of_kind k (integer_value n) apart h = tt
of_kind k (double_value d) apart h = tt
of_kind k (bool_value b) apart h = tt
of_kind k (string_value s) apart h = tt
of_kind k (snowflake_value id) apart h = tt
of_kind k (user_value user member) apart h = tt

of_kind-Holds :
    (k : Kind) (o : Option OptionValue) → k ≢ of_options → Holds (IsOf k) o → Holds HoldsReadable o
of_kind-Holds k none apart h = tt
of_kind-Holds k (some value) apart h = of_kind k value apart h

options-Holds :
    (nested : Option AppCmdOptions)
    → Holds AllReadable nested
    → Holds HoldsReadable (Option.map options_value nested)
unfolding HoldsReadable
options-Holds none h = tt
options-Holds (some os) h = h

deep :
    (name : List ℕ) (type : ℕ) (value : Option OptionValue)
    → Holds (IsOf (kind_of type)) value
    → Holds HoldsReadable value
    → Holds IsReadableDeep (Option.map (option name type) value)
unfolding IsReadableDeep IsTyped
deep name type none typed held = tt
deep name type (some value) typed held = (typed-IsReadable (option name type value) typed, held)

cons-AllReadable :
    (to_number : Json → Option ℕ) (o : Option AppCmdOption) (os : Option AppCmdOptions)
    → Holds IsReadableDeep o
    → Holds AllReadable os
    → Holds AllReadable (options_cons to_number o os)
unfolding AllReadable
cons-AllReadable to_number none os h hs = tt
cons-AllReadable to_number (some o) none h hs = tt
cons-AllReadable to_number (some o) (some os) h hs = (h, hs)

one-AllReadable :
    (o : Option AppCmdOption)
    → Holds IsReadableDeep o
    → Holds AllReadable (Option.map (λ o. option_then o no_options) o)
unfolding AllReadable
one-AllReadable none h = tt
one-AllReadable (some o) h = (h, tt)

module _ (to_number : Json → Option ℕ) where
  value-HoldsReadable :
      (k : Kind) (nested : Option AppCmdOptions) (r v : Option Json)
      → Holds AllReadable nested
      → Holds HoldsReadable (parse_value to_number k nested r v)
  unfolding parse_value
  value-HoldsReadable of_options nested r v h = options-Holds nested h
  value-HoldsReadable of_string nested r v h =
      of_kind-Holds of_string _ (λ p. cc) (parse_value-IsOf to_number of_string nested r v)
  value-HoldsReadable of_integer nested r v h =
      of_kind-Holds of_integer _ (λ p. cc) (parse_value-IsOf to_number of_integer nested r v)
  value-HoldsReadable of_bool nested r v h =
      of_kind-Holds of_bool _ (λ p. cc) (parse_value-IsOf to_number of_bool nested r v)
  value-HoldsReadable of_user nested r v h =
      of_kind-Holds of_user _ (λ p. cc) (parse_value-IsOf to_number of_user nested r v)
  value-HoldsReadable of_snowflake nested r v h =
      of_kind-Holds of_snowflake _ (λ p. cc) (parse_value-IsOf to_number of_snowflake nested r v)
  value-HoldsReadable of_double nested r v h =
      of_kind-Holds of_double _ (λ p. cc) (parse_value-IsOf to_number of_double nested r v)

  make_option-Deep :
      (name : Option (List ℕ)) (type : Option ℕ) (value : ℕ → Option OptionValue)
      → ((t : ℕ) → Holds (IsOf (kind_of t)) (value t))
      → ((t : ℕ) → Holds HoldsReadable (value t))
      → Holds IsReadableDeep (make_option to_number name type value)
  make_option-Deep none type value typed held = tt
  make_option-Deep (some name) none value typed held = tt
  make_option-Deep (some name) (some type) value typed held =
      deep name type (value type) (typed type) (held type)

  option_of-Deep :
      (nested : Option AppCmdOptions) (r : Option Json) (fs : Fields)
      → Holds AllReadable nested
      → Holds IsReadableDeep (option_of to_number nested r fs)
  option_of-Deep nested r fs h =
      make_option-Deep (then_map (at (codes "name") fs) as_string (λ s. s))
        (then_map (at (codes "type") fs) to_number (λ n. n))
        (λ type. parse_value to_number (kind_of type) nested r (at (codes "value") fs))
        (λ type. parse_value-IsOf to_number (kind_of type) nested r (at (codes "value") fs))
        (λ type. value-HoldsReadable (kind_of type) nested r (at (codes "value") fs) h)

  mutual
    unfolding parse_option AllReadable IsReadableDeep

    parse_option-Deep :
        (r : Option Json) (j : Json) → Holds IsReadableDeep (parse_option to_number r j)
    parse_option-Deep r (object fs) =
        option_of-Deep (parse_nested to_number r fs) r fs (parse_nested-AllReadable r fs)
    parse_option-Deep r j = tt

    parse_nested-AllReadable :
        (r : Option Json) (fs : Fields) → Holds AllReadable (parse_nested to_number r fs)
    parse_nested-AllReadable r no_fields = tt
    parse_nested-AllReadable r (field k j fs) =
        let here = parse_options-AllReadable r j in
        let rest = parse_nested-AllReadable r fs in
        if-holds (Holds AllReadable) (same_text k (codes "options")) _ _ (λ p. here) (λ p. rest)

    parse_options-AllReadable :
        (r : Option Json) (j : Json) → Holds AllReadable (parse_options to_number r j)
    parse_options-AllReadable r (array js) = parse_items-AllReadable r js
    parse_options-AllReadable r j = tt

    parse_items-AllReadable :
        (r : Option Json) (js : Items) → Holds AllReadable (parse_items to_number r js)
    parse_items-AllReadable r no_items = tt
    parse_items-AllReadable r (item j js) =
        cons-AllReadable to_number (parse_option to_number r j) (parse_items to_number r js)
          (parse_option-Deep r j) (parse_items-AllReadable r js)

  given_options-AllReadable : (r j : Option Json) → Holds AllReadable (given_options to_number r j)
  unfolding AllReadable parse_option
  given_options-AllReadable r none = tt
  given_options-AllReadable r (some (array js)) = parse_items-AllReadable r js
  given_options-AllReadable r (some j) = tt

  target_options-AllReadable :
      (user : Option (List ℕ)) (resolved : Option Fields)
      → Holds AllReadable (target_options user resolved)
  unfolding AllReadable target_option at kind_of
  target_options-AllReadable none resolved = tt
  target_options-AllReadable (some user) none = tt
  target_options-AllReadable (some user) (some resolved) =
      one-AllReadable (target_option user resolved) (
        deep [] 6 (user_of user resolved) (user_of-IsOf user resolved)
          (of_kind-Holds of_user (user_of user resolved) (λ p. cc) (user_of-IsOf user resolved)))

  command_options-AllReadable :
      (type : ℕ) (d : Fields) → Holds AllReadable (command_options to_number type d)
  unfolding command_options AllReadable
  command_options-AllReadable type d = elim (Bool-cases (type == 1)) [
    | inl given ↦
        rw given (given_options-AllReadable (at (codes "resolved") d) (at (codes "options") d))
    | inr other ↦ elim (Bool-cases (type == 2)) [
      | inl user ↦
          rw (other, user)
            (target_options-AllReadable (then_map (at (codes "target_id") d) as_string (λ s. s))
              (then_map (at (codes "resolved") d) as_object (λ fs. fs)))
      | inr message ↦ rw (other, message) tt
    ]
  ]

  with_options-AllReadable :
      (o : Option AppCmdOptions) (f : AppCmdOptions → AppCmdInteraction)
      → ((os : AppCmdOptions) → (f os).options ≡ os)
      → Holds AllReadable o
      → Holds (λ i. AllReadable i.options) (Option.map f o)
  with_options-AllReadable none f same h = tt
  with_options-AllReadable (some os) f same h = subst AllReadable (sym (same os)) h

  make-AllReadable :
      (id : Option Snowflake) (type : Option ℕ) (name : Option (List ℕ))
      (guild : Option (Option Snowflake)) (options : ℕ → Option AppCmdOptions)
      → ((t : ℕ) → Holds AllReadable (options t))
      → Holds (λ i. AllReadable i.options) (make_interaction to_number id type name guild options)
  make-AllReadable (some id) (some type) (some name) (some guild) options h =
      with_options-AllReadable (options type)
        (λ os. record { id = id; type = type; name = name; guild = guild; options = os })
        (λ os. refl) (h type)
  make-AllReadable id type name guild options h = tt

  interaction-AllReadable :
      (d : Fields) → Holds (λ i. AllReadable i.options) (app_cmd_interaction to_number d)
  unfolding app_cmd_interaction
  interaction-AllReadable d =
      make-AllReadable (id_of to_number (at (codes "id") d))
        (then_map (at (codes "type") d) to_number (λ n. n))
        (then_map (at (codes "name") d) as_string (λ s. s)) (guild_of (at (codes "guild_id") d))
        (λ type. command_options to_number type d) (λ type. command_options-AllReadable type d)

  -- Each option of a command that is read, those that other options hold included, can be read by the getter
  -- of its type and by no other getter, which throws. GetOptions gives none but for subcommands and
  -- their groups. Types that are not known are read as numbers.
  pub app_cmd_interaction-AllReadable :
      (d : Fields) (i : AppCmdInteraction)
      → app_cmd_interaction to_number d ≡ some i
      → AllReadable i.options
  app_cmd_interaction-AllReadable d i p =
      subst (Holds (λ i. AllReadable i.options)) p (interaction-AllReadable d)
