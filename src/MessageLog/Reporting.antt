-- ===== src/MessageLog/Reporting.antt =====
-- What is reported after each embed: the embeds that are sent or wait, and the authors asked for.
use greek_bot.Prelude.{
  ==_iff, not, ◌<◌, inl, inr, ℕ, ◌≡◌, ◌≤◌, ◌<◌, Bool, true, false, ◌||◌, List, [], ◌∷◌, ◌++◌, none,
  Option, some, if◌then◌else◌, contains, ◌==◌, length, refl, arith, ap, sym, ◌∙◌, All, Option-cases,
  inr, inl, subst, if-holds, All-append, length-append, is_empty,
}
use mathlib.Core.List.{append_assoc, append-nil}
use greek_bot.Prelude.Table.{find}
use greek_bot.MessageLog.Table.{MessageLog, LoggedMessage}
use greek_bot.MessageLog.Reports.{
  DeletionEmbed, Reporting, embed_of, look_up, send_embeds, report_one, report_all, report_rest,
}
use greek_bot.MessageLog.Authors.{
  joined, IsMessage, IsDistinct, joined-append, IsDistinct-add, contains-add, find-add,
  added_missing, added_found,
}

module _ (exists : ℕ → Bool) (found : List ℕ) where
  -- Whether an author is known: as a member, or to Discord.
  abbrev pub is_known : ℕ → Bool
  is_known a = contains found a || exists a

  abbrev pub expected : MessageLog → List DeletionEmbed
  expected [] = []
  expected ((msg, e) ∷ t) = embed_of msg e (is_known e.author_id) ∷ expected t

  -- After the given embeds were made: the authors are what they are, each was asked for once, and the
  -- embeds are sent or wait.
  pub record IsReporting (done : List DeletionEmbed) (r : Reporting) : Type 0 where
    pub calm : r.failed ≡ false
    pub all : joined r.sent ++ r.embeds ≡ done
    pub few : length r.embeds < 10
    pub sized : All IsMessage r.sent
    pub missing :
        (a : ℕ)
        → find a r.authors ≡ none
        → (contains found a ≡ false) × (contains r.asked a ≡ false)
    pub right : (a : ℕ) (b : Bool) → find a r.authors ≡ some b → b ≡ is_known a
    pub once : IsDistinct r.asked

  -- Discord tells of each user whether they exist and accepts all messages.
  module _ (answer : ℕ → Option Bool) (answers : (a : ℕ) → answer a ≡ some (exists a))
      (accepted : List DeletionEmbed → Bool)
      (all_accepted : (m : List DeletionEmbed) → accepted m ≡ true) where
    look_up-IsReporting :
        (author : ℕ) (done : List DeletionEmbed) (r : Reporting)
        → IsReporting done r
        → IsReporting done (look_up answer accepted author r).0
          × ((look_up answer accepted author r).1 ≡ is_known author)
    unfolding look_up
    look_up-IsReporting author done r v = elim (Option-cases (find author r.authors)) [
      | inr (known, q) ↦ rw (look_up, q) (v, v.right author known q)
      | inl q ↦
          rw (look_up, q, answers author)
            (
              record {
                calm = v.calm;
                all = v.all;
                few = v.few;
                sized = v.sized;
                missing = λ a p.
                    let (old, apart) =
                      added_missing _ _ _ (sym (find-add r.authors author a _) ∙ p) in
                    (
                      (v.missing a old).0,
                      contains-add r.asked author a ∙ ground (arith, (v.missing a old).1, apart),
                    );
                right = λ a b p.
                    elim (added_found _ _ _ b (sym (find-add r.authors author a _) ∙ p)) [
                      | inl old ↦ v.right a b old
                      | inr (old, same, value) ↦
                          value
                          ∙ ap exists ((==_iff author a).0 same)
                          ∙ sym (ap (λ c. c || exists a) (v.missing a old).0)
                    ];
                once = IsDistinct-add r.asked author v.once (v.missing author q).1;
              },
              sym (ap (λ c. c || exists author) (v.missing author q).0),
            )
    ]

    send-IsReporting :
        (done : List DeletionEmbed) (r : Reporting)
        → r.failed ≡ false
        → joined r.sent ++ r.embeds ≡ done
        → IsMessage r.embeds
        → All IsMessage r.sent
        → ((a : ℕ)
            → find a r.authors ≡ none
            → (contains found a ≡ false) × (contains r.asked a ≡ false))
        → ((a : ℕ) (b : Bool) → find a r.authors ≡ some b → b ≡ is_known a)
        → IsDistinct r.asked
        → IsReporting done (send_embeds answer accepted r)
    unfolding send_embeds
    send-IsReporting done r calm all size sized missing right once = record {
      calm = ap not (all_accepted r.embeds);
      all =
          append-nil (joined (r.sent ++ (r.embeds ∷ [])))
          ∙ joined-append r.sent (r.embeds ∷ [])
          ∙ ap (λ l. joined r.sent ++ l) (append-nil r.embeds)
          ∙ all;
      few = omega arith;
      sized = All-append IsMessage r.sent (r.embeds ∷ []) sized (size, tt);
      missing = missing;
      right = right;
      once = once;
    }

    added-IsReporting :
        (x : DeletionEmbed) (done : List DeletionEmbed) (r : Reporting)
        → IsReporting done r
        → IsReporting (done ++ (x ∷ [])) (
            if length (r.embeds ++ (x ∷ [])) == 10
            then send_embeds answer accepted (record r { embeds = r.embeds ++ (x ∷ []) })
            else record r { embeds = r.embeds ++ (x ∷ []) })
    added-IsReporting x done r v =
        if-holds (IsReporting (done ++ (x ∷ []))) (length (r.embeds ++ (x ∷ [])) == 10) _ _
          (λ ten.
            send-IsReporting (done ++ (x ∷ [])) (record r { embeds = r.embeds ++ (x ∷ []) }) v.calm
              more
              (
                omega (arith, length-append r.embeds (x ∷ [])),
                omega (arith, length-append r.embeds (x ∷ []), v.few),
              )
              v.sized v.missing v.right v.once)
          (λ fewer. record {
            calm = v.calm;
            all = more;
            few = ground (arith, length-append r.embeds (x ∷ []), v.few, fewer);
            sized = v.sized;
            missing = v.missing;
            right = v.right;
            once = v.once;
          })
      where
        more : joined r.sent ++ (r.embeds ++ (x ∷ [])) ≡ done ++ (x ∷ [])
        more = sym (append_assoc (joined r.sent) r.embeds (x ∷ [])) ∙ ap (λ l. l ++ (x ∷ [])) v.all

    report_one-IsReporting :
        (msg : ℕ) (e : LoggedMessage) (done : List DeletionEmbed) (r : Reporting)
        → IsReporting done r
        → IsReporting
            (done ++ (embed_of msg e (is_known e.author_id) ∷ []))
            (report_one answer accepted msg e r)
    unfolding report_one
    report_one-IsReporting msg e done r v =
        let (w, k) = look_up-IsReporting e.author_id done r v in
        subst
          (λ b. IsReporting (done ++ (embed_of msg e b ∷ [])) (report_one answer accepted msg e r))
          k
          (if-holds
            (IsReporting (done ++ (embed_of msg e (look_up answer accepted e.author_id r).1 ∷ [])))
            (look_up answer accepted e.author_id r).0.failed _ _
            (λ broken. absurd (cc (w.calm, broken)))
            (λ fine.
              added-IsReporting (embed_of msg e (look_up answer accepted e.author_id r).1) done
                (look_up answer accepted e.author_id r).0 w))

    pub report_all-IsReporting :
        (t : MessageLog) (done : List DeletionEmbed) (r : Reporting)
        → IsReporting done r
        → IsReporting (done ++ expected t) (report_all answer accepted t r)
    unfolding report_all
    report_all-IsReporting [] done r v = subst (λ l. IsReporting l r) (sym (append-nil done)) v
    report_all-IsReporting ((msg, e) ∷ t) done r v =
        subst
          (λ b.
            IsReporting (done ++ expected ((msg, e) ∷ t))
              (if b then r else report_all answer accepted t (report_one answer accepted msg e r)))
          (sym v.calm)
          (subst
            (λ l. IsReporting l (report_all answer accepted t (report_one answer accepted msg e r)))
            (append_assoc done (embed_of msg e (is_known e.author_id) ∷ []) (expected t))
            (report_all-IsReporting t (done ++ (embed_of msg e (is_known e.author_id) ∷ []))
              (report_one answer accepted msg e r) (report_one-IsReporting msg e done r v)))

    pub report_rest-IsReporting :
        (done : List DeletionEmbed) (r : Reporting)
        → IsReporting done r
        → IsReporting done (report_rest answer accepted r)
          × ((report_rest answer accepted r).embeds ≡ [])
    unfolding report_rest send_embeds
    report_rest-IsReporting done r v =
        if-holds (λ (k : Reporting). IsReporting done k × (k.embeds ≡ []))
          (r.failed || is_empty r.embeds) _ _ (λ p. (v, over r.failed r.embeds v.calm p))
          (λ p. (
            send-IsReporting done r v.calm v.all
                (some_left r.failed r.embeds p, omega (arith, v.few)) v.sized v.missing v.right
                v.once,
            refl,
          ))
      where
        over : (b : Bool) (m : List DeletionEmbed) → b ≡ false → (b || is_empty m) ≡ true → m ≡ []
        over b [] q p = refl
        over b (x ∷ xs) q p = absurd (ground (arith, q, p))

        some_left : (b : Bool) (m : List DeletionEmbed) → (b || is_empty m) ≡ false → 1 ≤ length m
        some_left b [] p = absurd (ground (arith, p))
        some_left b (x ∷ xs) p = omega arith
