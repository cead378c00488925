-- ===== src/Starboard/Reactions.antt =====
-- The reaction and deletion handlers of GreekBot/GreekBot_Starboard.cpp. What Discord answers is an
-- argument of each handler. The channel #starboard is the function that gives for the id of a
-- message of the bot the number of reactions that it shows; the rest of a message is its preview.
-- The handlers report by `false` that an exception left them.
use greek_bot.Prelude.{
  ℕ, Bool, true, false, not, ◌&&◌, ◌||◌, List, [], ◌∷◌, Option, none, some, ◌==◌, ltb,
  if◌then◌else◌, contains, codes, same_text,
}
use greek_bot.LearningGreek.{emoji_id_holy}
use greek_bot.Starboard.Table.{
  Starboard, ReactionEntry, get_message_author, register_reaction, remove_reaction,
  register_message, remove_message, delete_all,
}

abbrev pub reaction_threshold : ℕ
reaction_threshold = 5

abbrev pub excluded_channels : List ℕ
excluded_channels =
    350234736754688020 ∷ 355242373380308993 ∷ 363441099307483139 ∷ 366366855117668383
    ∷ 469274019565142017 ∷ 486311040477298690 ∷ 539521989061378048 ∷ 595658812128624670
    ∷ 598873442288271423 ∷ 611889781227520003 ∷ 618350374348390406 ∷ 627082548706541568
    ∷ 630486369495679007 ∷ 645650220440485927 ∷ 645650358042886175 ∷ 650331739293745172
    ∷ 672924470750478338 ∷ 817078394331856907 ∷ 1138145632134115348 ∷ 1140760999331381260
    ∷ 1143284169502367805 ∷ 1143888492422770778 ∷ []

pub record Emoji : Type 0 where
  pub id : ℕ
  pub name : List ℕ
  pub animated : Bool

-- `emoji == LMG_EMOJI_HOLY`: all members are compared.
unfoldable pub is_holy : Emoji → Bool
unfolding same_text
is_holy e = (e.id == emoji_id_holy) && same_text e.name (codes "Holy") && not e.animated

abbrev pub Posts : Type 0
Posts = ℕ → Option ℕ

unfoldable pub show : ℕ → ℕ → Posts → Posts
show s n posts = λ j. if s == j then some n else posts j

unfoldable pub hide : ℕ → Posts → Posts
hide s posts = λ j. if s == j then none else posts j

pub record World : Type 0 where
  pub table : Starboard
  pub posts : Posts

-- The author of the message reacted to, if it can be fetched; whether the author's member object
-- can be; the id of a new message, if it can be sent; whether an edit and a deletion succeed.
pub record Replies : Type 0 where
  pub fetched : Option ℕ
  pub member_found : Bool
  pub created : Option ℕ
  pub edited : Bool
  pub deleted : Bool

abbrev is_some : Option ℕ → Bool
is_some none = false
is_some (some a) = true

-- The first message for an entry, and its registration.
unfoldable pub publish : Option ℕ → ℕ → ℕ → World → World × Bool
unfolding show
publish none message num w = (w, false)
publish (some s) message num w = elim (register_message message s w.table) [
  | none ↦ (record w { posts = show s num w.posts }, false)
  | some t ↦ (record { table = t; posts = show s num w.posts }, true)
]

-- Fewer reactions than the threshold: the entry's message, if any, is taken down.
unfoldable pub take_down : Replies → ℕ → Option ℕ → World → World × Bool
unfolding hide
take_down d message none w = (w, true)
take_down d message (some s) w =
    let t = remove_message message w.table in
    if d.deleted
    then (record { table = t; posts = hide s w.posts }, true)
    else (record w { table = t }, false)

-- Enough reactions: the entry's message is edited, or sent for the first time.
unfoldable pub put_up : Replies → Bool → ℕ → Option ℕ → ℕ → World → World × Bool
unfolding show publish
put_up d loaded message (some s) num w =
    if d.edited then (record w { posts = show s num w.posts }, true) else (w, false)
put_up d loaded message none num w =
    if (loaded || is_some d.fetched) && d.member_found
    then publish d.created message num w
    else (w, false)

-- `loaded`: the message has been fetched before.
unfoldable pub process_reaction : Replies → Bool → ℕ → ReactionEntry → World → World × Bool
unfolding take_down put_up
process_reaction d loaded message r w =
    if ltb r.num_reactions reaction_threshold
    then take_down d message r.starboard_message_id w
    else put_up d loaded message r.starboard_message_id r.num_reactions w

unfoldable pub count_reaction : Replies → ℕ → ℕ → ℕ → ℕ → Bool → World → World × Bool
unfolding process_reaction
count_reaction d bot user message author loaded w =
    let (t, r) = register_reaction message author w.table in
    if (author == user) || (author == bot)
    then (w, true)
    else process_reaction d loaded message r (record w { table = t })

-- `process_starboard_reaction_add`.
unfoldable pub reaction_add : Replies → ℕ → ℕ → ℕ → ℕ → Option ℕ → Emoji → World → World × Bool
unfolding count_reaction
reaction_add d bot user channel message author emoji w =
    if not (is_holy emoji) || contains excluded_channels channel then (w, true) else elim author [
      | some a ↦ count_reaction d bot user message a false w
      | none ↦ elim d.fetched [
        | none ↦ (w, false)
        | some a ↦ count_reaction d bot user message a true w
      ]
    ]

unfoldable pub uncount_reaction : Replies → ℕ → World → World × Bool
unfolding process_reaction
uncount_reaction d message w = elim (remove_reaction message w.table) [
  | none ↦ (w, false)
  | some (t, r) ↦ process_reaction d false message r (record w { table = t })
]

-- `process_starboard_reaction_remove`.
unfoldable pub reaction_remove : Replies → ℕ → ℕ → ℕ → ℕ → Emoji → World → World × Bool
unfolding uncount_reaction
reaction_remove d bot user channel message emoji w =
    if not (is_holy emoji) || contains excluded_channels channel
    then (w, true)
    else elim (get_message_author message w.table) [
      | none ↦ (w, true)
      | some a ↦ if (a == user) || (a == bot) then (w, true) else uncount_reaction d message w
    ]

unfoldable pub hide_all : List ℕ → Posts → Posts
unfolding hide
hide_all [] posts = posts
hide_all (s ∷ ss) posts = hide_all ss (hide s posts)

-- `process_starboard_message_delete`. If the deletion fails, which messages are left is not known;
-- here all are.
unfoldable pub message_delete : Replies → List ℕ → World → World × Bool
unfolding hide_all
message_delete d messages w =
    let (t, ids) = delete_all messages w.table in
    if d.deleted
    then (record { table = t; posts = hide_all ids w.posts }, true)
    else (record w { table = t }, false)
