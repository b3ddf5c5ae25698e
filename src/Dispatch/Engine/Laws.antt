-- ===== src/Dispatch/Engine/Laws.antt =====
-- What a dispatch posts: the parts in order and then the media, up to the point of a failure.
use evo_bot_runtime.Prelude.{
  ℕ, ◌+◌, Bool, List, [], ◌∷◌, ◌++◌, Result, ok, err, length, if◌then◌else◌, ◌≡◌, ◌≢◌, refl, sym,
  ap, ◌∙◌, arith, ◌⊎◌, inl, inr, Bool-cases, append_assoc, append-nil,
}
use evo_bot_runtime.Prelude.Text.{Text, is_empty}
use evo_bot_runtime.Errors.{Err}
use evo_bot_runtime.Model.{BotConfig}
use evo_bot_runtime.Monad.{M, context, ◌>>◌}
use evo_bot_runtime.Dispatch.Segment.{segment_content}
use evo_bot_runtime.Dispatch.Media.{PostbackAttachment, extract_media_urls}
use evo_bot_runtime.Dispatch.Engine.{
  Post, Client, ClientLaws, post_of, sign_first, unless, pause, send_part, send_parts, send_media,
  dispatch, is_positive,
}

-- The posts of the parts that are not empty.
abbrev pub text_posts : Text → Text → List Text → List Post
text_posts secret url [] = []
text_posts secret url (p ∷ ps) =
    let rest = text_posts secret url ps in
    if is_empty p then rest else post_of secret url p [] ∷ rest

-- One post for all the media, if there are any.
abbrev pub media_posts : Text → Text → List PostbackAttachment → List Post
media_posts secret url [] = []
media_posts secret url (a ∷ atts) = post_of secret url [] (a ∷ atts) ∷ []

-- All that an answer is to be posted as.
abbrev pub answer_posts : Text → Text → BotConfig → Text → List Post
answer_posts secret content cfg url =
    let pulled = extract_media_urls content in
    text_posts secret url (sign_first cfg.message_signature (segment_content pulled.0 cfg))
    ++ media_posts secret url pulled.1

module _ (c : Client) (l : ClientLaws c) where
  -- A call that is to post `xs` posted a first part of it, all of it if it reports no error.
  pub record Posted (xs : List Post) (w : c.World) (out : c.World × Result Err (Unit {0}))
      : Type 0 where
    pub posted : List Post
    pub missing : List Post
    pub sent : l.sent out.0 ≡ l.sent w ++ posted
    pub order : posted ++ missing ≡ xs
    pub complete : out.1 ≡ ok tt → missing ≡ []

  abbrev Posts : List Post → M c.World (Unit {0}) → Type 0
  Posts xs m = (w : c.World) → Posted xs w (m w)

  nothing-Posted :
      (w w' : c.World) (res : Result Err (Unit {0})) → l.sent w' ≡ l.sent w → Posted [] w (w', res)
  nothing-Posted w w' res same = record {
    posted = [];
    missing = [];
    sent = same ∙ sym (append-nil (l.sent w));
    order = refl;
    complete = λ h. refl;
  }

  -- Two calls, one after the other.
  then-Posts :
      (xs ys : List Post) (m k : M c.World (Unit {0}))
      → Posts xs m
      → Posts ys k
      → Posts (xs ++ ys) (m >> k)
  then-Posts xs ys m k hm hk w = go (m w) (hm w)
    where
      go :
          (out : c.World × Result Err (Unit {0}))
          → Posted xs w out
          → Posted (xs ++ ys) w (◌>>◌ (λ v. out) k w)
      go (w', err e) p = record {
        posted = p.posted;
        missing = p.missing ++ ys;
        sent = p.sent;
        order = sym (append_assoc p.posted p.missing ys) ∙ ap (λ (z : List Post). z ++ ys) p.order;
        complete = λ h. absurd (cc h);
      }
      go (w', ok u) p =
          let q = hk w' in
          let whole : p.posted ≡ xs =
            sym (append-nil p.posted)
            ∙ ap (λ (z : List Post). p.posted ++ z) (sym (p.complete refl))
            ∙ p.order in
          record {
            posted = p.posted ++ q.posted;
            missing = q.missing;
            sent =
                q.sent
                ∙ ap (λ (z : List Post). z ++ q.posted) p.sent
                ∙ append_assoc (l.sent w) p.posted q.posted;
            order =
                append_assoc p.posted q.posted q.missing
                ∙ ap (λ (z : List Post). p.posted ++ z) q.order
                ∙ ap (λ (z : List Post). z ++ ys) whole;
            complete = λ h. q.complete h;
          }

  context-Posts :
      (xs : List Post) (label : Text) (m : M c.World (Unit {0}))
      → Posts xs m
      → Posts xs (context label m)
  context-Posts xs label m hm w = go (m w) (hm w)
    where
      go :
          (out : c.World × Result Err (Unit {0}))
          → Posted xs w out
          → Posted xs w (context label (λ v. out) w)
      go (w', ok u) p = p
      go (w', err e) p = record {
        posted = p.posted;
        missing = p.missing;
        sent = p.sent;
        order = p.order;
        complete = λ h. absurd (cc h);
      }

  unless-Posts :
      (poll : c.World → c.World × Bool)
      → ((w : c.World) → l.sent (poll w).0 ≡ l.sent w)
      → Posts [] (unless c poll)
  unless-Posts poll same w = elim (Bool-cases (poll w).1) [
    | inl stop ↦ rw stop (nothing-Posted w (poll w).0 _ (same w))
    | inr go ↦ rw go (nothing-Posted w (poll w).0 _ (same w))
  ]

  send_part-sent :
      (secret url content : Text) (atts : List PostbackAttachment) (w : c.World)
      → let out = send_part c secret url content atts w in
        ((l.sent out.0 ≡ l.sent w) × (out.1 ≢ ok tt))
        ⊎ (l.sent out.0 ≡ l.sent w ++ (post_of secret url content atts ∷ []))
  unfolding send_part
  send_part-sent secret url content atts w =
      let p = post_of secret url content atts in
      let made = (c.new_request p w).0 in
      ground (arith, l.new_request_sends p w, l.do_post_sends p made)

  send_part-Posts :
      (secret url content : Text) (atts : List PostbackAttachment)
      → Posts (post_of secret url content atts ∷ []) (send_part c secret url content atts)
  send_part-Posts secret url content atts w = elim (send_part-sent secret url content atts w) [
    | inl (same, failed) ↦ record {
      posted = [];
      missing = post_of secret url content atts ∷ [];
      sent = same ∙ sym (append-nil (l.sent w));
      order = refl;
      complete = λ h. absurd (failed h);
    }
    | inr all ↦ record {
      posted = post_of secret url content atts ∷ [];
      missing = [];
      sent = all;
      order = refl;
      complete = λ h. refl;
    }
  ]

  pause-Posts :
      (cfg : BotConfig) (part : Text) (rest : List Text) → Posts [] (pause c cfg part rest)
  pause-Posts cfg part [] w = nothing-Posted w w _ refl
  pause-Posts cfg part (q ∷ rest) w = elim (Bool-cases (is_positive cfg.delay_per_character)) [
    | inl slow ↦
        let ms = cfg.delay_per_character.times_trunc (length part) in
        rw slow (unless-Posts (c.wait ms) (l.wait_sends ms) w)
    | inr fast ↦ rw fast (nothing-Posted w w _ refl)
  ]

  send_parts-Posts :
      (secret url : Text) (cfg : BotConfig) (i : ℕ) (parts : List Text)
      → Posts (text_posts secret url parts) (send_parts c secret url cfg i parts)
  unfolding send_parts
  send_parts-Posts secret url cfg i [] w = nothing-Posted w w _ refl
  send_parts-Posts secret url cfg i (part ∷ rest) w = elim (Bool-cases (is_empty part)) [
    | inl empty ↦ rw empty (send_parts-Posts secret url cfg (i + 1) rest w)
    | inr full ↦
        let others = send_parts c secret url cfg (i + 1) rest in
        let others_post = send_parts-Posts secret url cfg (i + 1) rest in
        let this = post_of secret url part [] in
        rw full (
          then-Posts [] (this ∷ text_posts secret url rest) (unless c c.is_done) _
            (unless-Posts c.is_done l.is_done_sends)
            (then-Posts (this ∷ []) (text_posts secret url rest) _ _
              (context-Posts (this ∷ []) _ _ (send_part-Posts secret url part []))
              (then-Posts [] (text_posts secret url rest) (pause c cfg part rest) others
                (pause-Posts cfg part rest) others_post))
            w)
  ]

  send_media-Posts :
      (secret url : Text) (atts : List PostbackAttachment)
      → Posts (media_posts secret url atts) (send_media c secret url atts)
  unfolding send_media
  send_media-Posts secret url [] w = nothing-Posted w w _ refl
  send_media-Posts secret url (a ∷ atts) w =
      let this = post_of secret url [] (a ∷ atts) in
      then-Posts [] (this ∷ []) (unless c c.is_done) _ (unless-Posts c.is_done l.is_done_sends)
        (context-Posts (this ∷ []) _ _ (send_part-Posts secret url [] (a ∷ atts))) w

  -- A dispatch posts the parts of the answer that are not empty in their order, the first one with
  -- the signature, and then its media in one post: all of them, each once, if it reports no error, and
  -- otherwise the first of them up to some point.
  pub dispatch-Posted :
      (secret content url : Text) (cfg : BotConfig) (w : c.World)
      → Posted (answer_posts secret content cfg url) w (dispatch c secret content cfg url w)
  unfolding dispatch
  dispatch-Posted secret content url cfg w =
      let pulled = extract_media_urls content in
      let parts = sign_first cfg.message_signature (segment_content pulled.0 cfg) in
      then-Posts (text_posts secret url parts) (media_posts secret url pulled.1) _ _
        (send_parts-Posts secret url cfg 0 parts) (send_media-Posts secret url pulled.1) w
