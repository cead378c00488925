-- ===== src/Interactions/Options/Json.antt =====
-- The JSON values of boost::json that the constructors of Discord/Interaction/AppCmdInteraction.cpp read.
use greek_bot.Prelude.{ℕ, Bool, List, Option, none, some, same_text, if◌then◌else◌}

-- The numbers are given by their 64 bits.
mutual
  pub data Json : Type 0 where
    null : Json
    boolean : Bool → Json
    int64 : ℕ → Json
    uint64 : ℕ → Json
    double : ℕ → Json
    string : List ℕ → Json
    array : Items → Json
    object : Fields → Json

  pub data Items : Type 0 where
    no_items : Items
    item : Json → Items → Items

  pub data Fields : Type 0 where
    no_fields : Fields
    field : List ℕ → Json → Fields → Fields

-- `none` is an exception, for `if_contains` a null pointer.
unfoldable pub at : List ℕ → Fields → Option Json
at key no_fields = none
at key (field k j fs) = let rest = at key fs in if same_text k key then some j else rest

abbrev pub as_object : Json → Option Fields
as_object (object fs) = some fs
as_object _ = none

abbrev pub as_string : Json → Option (List ℕ)
as_string (string s) = some s
as_string _ = none

abbrev pub as_bool : Json → Option Bool
as_bool (boolean b) = some b
as_bool _ = none

abbrev pub as_double : Json → Option ℕ
as_double (double d) = some d
as_double _ = none
