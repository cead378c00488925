-- ===== src/Interactions/Options/Types.antt =====
-- The getters of options against their types.
use greek_bot.Prelude.{
  ℕ, ◌≡◌, refl, not, ◌||◌, ◌&&◌, List, Option, none, some, ◌==◌, codes, arith, leb,
}
use mathlib.Core.Option
use greek_bot.Interactions.Options.Json.{
  Json, object, at, as_object, as_string, as_bool, as_double, string, Fields,
}
use greek_bot.Interactions.Options.Parsing.{
  AppCmdOption, option, OptionValue, integer_value, double_value, bool_value, string_value,
  snowflake_value, options_value, user_value, AppCmdOptions, Kind, of_options, of_string,
  of_integer, of_bool, of_user, of_snowflake, of_double, kind_of, then_map, member_of, parse_user,
  parse_value, make_option, parse_option, parse_nested, user_of,
}
use greek_bot.Utils.Snowflake.{from_text}

abbrev pub Holds : {A : Type 0} → (A → Type 0) → Option A → Type 0
Holds P none = Unit
Holds P (some a) = P a

unfoldable pub kind_of_value : OptionValue → Kind
kind_of_value (integer_value n) = of_integer
kind_of_value (double_value d) = of_double
kind_of_value (bool_value b) = of_bool
kind_of_value (string_value s) = of_string
kind_of_value (snowflake_value id) = of_snowflake
kind_of_value (options_value os) = of_options
kind_of_value (user_value user member) = of_user

pub map-Holds :
    {A B : Type 0} (P : B → Type 0) (f : A → B) (o : Option A)
    → ((a : A) → P (f a))
    → Holds P (Option.map f o)
map-Holds P f none h = tt
map-Holds P f (some a) h = h a

then_map-Holds :
    {A B C : Type 0} (P : C → Type 0) (o : Option A) (g : A → Option B) (f : B → C)
    → ((b : B) → P (f b))
    → Holds P (then_map o g f)
then_map-Holds P none g f h = tt
then_map-Holds P (some a) g f h = map-Holds P f (g a) h

abbrev pub IsOf : Kind → OptionValue → Type 0
IsOf k v = kind_of_value v ≡ k

user_from :
    (member : Option Json) (users s : List ℕ) (o : Option Json)
    → Holds (IsOf of_user) (elim o [
      | none ↦ none
      | some us ↦ then_map (as_object us) (at s) (λ user. user_value user member)
    ])
unfolding kind_of_value
user_from member users s none = tt
user_from member users s (some us) =
    then_map-Holds (IsOf of_user) (as_object us) (at s) (λ user. user_value user member) (λ u. refl)

user_with :
    (users : Option Json) (s : List ℕ) (m : Option (Option Json))
    → Holds (IsOf of_user) (elim m [
      | none ↦ none
      | some member ↦ elim users [
        | none ↦ none
        | some us ↦ then_map (as_object us) (at s) (λ user. user_value user member)
      ]
    ])
user_with users s none = tt
user_with users s (some member) = user_from member s s users

pub user_of-IsOf : (s : List ℕ) (fs : Fields) → Holds (IsOf of_user) (user_of s fs)
user_of-IsOf s fs = user_with (at (codes "users") fs) s (member_of s (at (codes "members") fs))

parse_user-IsOf : (v : Json) (r : Option Json) → Holds (IsOf of_user) (parse_user v r)
parse_user-IsOf v none = tt
parse_user-IsOf (string s) (some (object fs)) = user_of-IsOf s fs
parse_user-IsOf v (some r) = tt

-- The value is of the kind that the type asks for.
unfoldable pub IsTyped : AppCmdOption → Type 0
IsTyped (option name type value) = IsOf (kind_of type) value

pub value-IsTyped :
    (name : List ℕ) (type : ℕ) (value : Option OptionValue)
    → Holds (IsOf (kind_of type)) value
    → Holds IsTyped (Option.map (option name type) value)
unfolding IsTyped
value-IsTyped name type none h = tt
value-IsTyped name type (some v) h = h

module _ (to_number : Json → Option ℕ) where
  pub parse_value-IsOf :
      (k : Kind) (nested : Option AppCmdOptions) (r v : Option Json)
      → Holds (IsOf k) (parse_value to_number k nested r v)
  unfolding kind_of_value parse_value
  parse_value-IsOf of_options nested r v =
      map-Holds (IsOf of_options) options_value nested (λ os. refl)
  parse_value-IsOf of_string nested r v =
      then_map-Holds (IsOf of_string) v as_string string_value (λ s. refl)
  parse_value-IsOf of_integer nested r v =
      then_map-Holds (IsOf of_integer) v to_number integer_value (λ n. refl)
  parse_value-IsOf of_bool nested r v =
      then_map-Holds (IsOf of_bool) v as_bool bool_value (λ b. refl)
  parse_value-IsOf of_user nested r none = tt
  parse_value-IsOf of_user nested r (some v) = parse_user-IsOf v r
  parse_value-IsOf of_snowflake nested r none = tt
  parse_value-IsOf of_snowflake nested r (some v) =
      then_map-Holds (IsOf of_snowflake) (as_string v) from_text snowflake_value (λ id. refl)
  parse_value-IsOf of_double nested r v =
      then_map-Holds (IsOf of_double) v as_double double_value (λ d. refl)

  make_option-IsTyped :
      (name : Option (List ℕ)) (type : Option ℕ) (value : ℕ → Option OptionValue)
      → ((t : ℕ) → Holds (IsOf (kind_of t)) (value t))
      → Holds IsTyped (make_option to_number name type value)
  make_option-IsTyped none type value h = tt
  make_option-IsTyped (some name) none value h = tt
  make_option-IsTyped (some name) (some type) value h =
      value-IsTyped name type (value type) (h type)

  pub parse_option-IsTyped :
      (r : Option Json) (j : Json) → Holds IsTyped (parse_option to_number r j)
  unfolding parse_option
  parse_option-IsTyped r (object fs) =
      make_option-IsTyped (then_map (at (codes "name") fs) as_string (λ s. s))
        (then_map (at (codes "type") fs) to_number (λ n. n))
        (λ type.
          parse_value to_number (kind_of type) (parse_nested to_number r fs) r
            (at (codes "value") fs))
        (λ type.
          parse_value-IsOf (kind_of type) (parse_nested to_number r fs) r (at (codes "value") fs))
  parse_option-IsTyped r j = tt

unfoldable pub code_of : Kind → ℕ
code_of of_options = 1
code_of of_string = 3
code_of of_integer = 4
code_of of_bool = 5
code_of of_user = 6
code_of of_snowflake = 7
code_of of_double = 10

pub code-options : (t : ℕ) → (code_of (kind_of t) == 1) ≡ ((t == 1) || (t == 2))
unfolding kind_of code_of
code-options t = ground arith

pub code-string : (t : ℕ) → (code_of (kind_of t) == 3) ≡ (t == 3)
unfolding kind_of code_of
code-string t = ground arith

pub code-snowflake : (t : ℕ) → (code_of (kind_of t) == 7) ≡ ((t == 7) || ((t == 8) || (t == 9)))
unfolding kind_of code_of
code-snowflake t = ground arith

pub code-double : (t : ℕ) → (code_of (kind_of t) == 10) ≡ not (leb 1 t && leb t 9)
unfolding kind_of code_of
code-double t = ground arith

pub code-integer : (t : ℕ) → (code_of (kind_of t) == 4) ≡ (t == 4)
unfolding kind_of code_of
code-integer t = ground arith

pub code-bool : (t : ℕ) → (code_of (kind_of t) == 5) ≡ (t == 5)
unfolding kind_of code_of
code-bool t = ground arith

pub code-user : (t : ℕ) → (code_of (kind_of t) == 6) ≡ (t == 6)
unfolding kind_of code_of
code-user t = ground arith
