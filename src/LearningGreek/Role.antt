-- ===== src/LearningGreek/Role.antt =====
-- The role ids of GreekBot/LearningGreek.h.
use greek_bot.Prelude.{ℕ}

abbrev pub fluent : ℕ
fluent = 350483489461895168

abbrev pub native : ℕ
native = 350483752490631181

abbrev pub advanced : ℕ
advanced = 350485279238258689

abbrev pub intermediate : ℕ
intermediate = 350485376109903882

abbrev pub beginner : ℕ
beginner = 351117824300679169

abbrev pub elementary : ℕ
elementary = 351117954974482435

abbrev pub upper_intermediate : ℕ
upper_intermediate = 351118486426091521

abbrev pub non_learner : ℕ
non_learner = 352001527780474881

abbrev pub active_user : ℕ
active_user = 352009155864821760

abbrev pub member : ℕ
member = 350264923806367754

abbrev pub active_member : ℕ
active_member = 352008860904456192

abbrev pub really_active_member : ℕ
really_active_member = 353354156783960075

abbrev pub usual_suspect : ℕ
usual_suspect = 410753563543732225

abbrev pub greek_lover : ℕ
greek_lover = 410754841556549633

abbrev pub proestos : ℕ
proestos = 414523335595130905

abbrev pub epitimos : ℕ
epitimos = 466238555304230913

abbrev pub ellinopoulo : ℕ
ellinopoulo = 608687509291008000

abbrev pub palios : ℕ
palios = 631559446782410752

abbrev pub poll : ℕ
poll = 650330610358943755

abbrev pub veteranos : ℕ
veteranos = 817337981979066398

abbrev pub cyprus : ℕ
cyprus = 1247132108686884894
