-- ===== src/Nicknames/Buttons.antt =====
-- GreekBot/GreekBot_Button.cpp: the button that asks for a nickname, and its modal.
use greek_bot.Prelude.{
  ℕ, ◌^◌, ◌<◌, ◌≡◌, ap, Bool, true, not, List, Option, none, some, if◌then◌else◌,
}
use greek_bot.Utils.Snowflake.{Snowflake, from_text, from_int, from_text-decimal}

-- The modal's text input has the id of the member as its custom id.
pub data ButtonReply : Type 0 where
  cannot_manage : ButtonReply
  nickname_modal : List ℕ → ButtonReply

unfoldable pub process_nickname_button : Bool → Snowflake → ButtonReply
process_nickname_button may_manage user =
    if not may_manage then cannot_manage else nickname_modal user.m_str

pub data ModalResult : Type 0 where
  not_allowed : ModalResult
  bad_id : ModalResult
  set_nick : Snowflake → List ℕ → ModalResult

abbrev modification : List ℕ → Option Snowflake → ModalResult
modification value none = bad_id
modification value (some user) = set_nick user value

-- For the custom id and the value of the text input; `bad_id` is the exception of an id that is none.
unfoldable pub process_modal : Bool → List ℕ → List ℕ → ModalResult
unfolding from_text
process_modal may_manage custom_id value =
    if not may_manage then not_allowed else modification value (from_text custom_id)

abbrev submitted : List ℕ → ButtonReply → ModalResult
submitted value cannot_manage = not_allowed
submitted value (nickname_modal custom_id) = process_modal true custom_id value

-- The modal that the button opens gives the nickname to the member of the button.
button_then_modal :
    (user : ℕ) (value : List ℕ)
    → user < 2 ^ 64
    → submitted value (process_nickname_button true (from_int user))
      ≡ set_nick (from_int user) value
unfolding process_nickname_button process_modal from_int
button_then_modal user value small = ap (modification value) (from_text-decimal user small)
