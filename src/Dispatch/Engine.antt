-- ===== src/Dispatch/Engine.antt =====
-- `Dispatch` and `sendPart`: the parts of an answer, one postback after the other.
pub mod Laws
use evo_bot_runtime.Prelude.{
  ℕ, zero, suc, ◌+◌, ◌≤◌, Bool, true, false, ◌&&◌, ◌||◌, not, List, [], ◌∷◌, ◌++◌, Option, none,
  some, Result, ok, err, length, ltb, leb, if◌then◌else◌, ◌≡◌,
}
use evo_bot_runtime.Prelude.Int.{pos}
use evo_bot_runtime.Prelude.Float.{Float64, Sign}
use evo_bot_runtime.Prelude.Text.{Text, codes, is_empty}
use evo_bot_runtime.Errors.{Err, Sentinel}
use evo_bot_runtime.Model.{BotConfig}
use evo_bot_runtime.Keys.{format}
use evo_bot_runtime.Monad.{M, pure, fail, handle, context, ◌>>=◌, ◌>>◌}
use evo_bot_runtime.Dispatch.Segment.{segment_content}
use evo_bot_runtime.Dispatch.Media.{PostbackAttachment, extract_media_urls}

-- `postbackRequest`
pub record PostbackRequest : Type 0 where
  pub content : Text
  pub message_type : Text
  pub content_type : Text
  pub attachments : List PostbackAttachment

-- One POST: the address, the X-Bot-Runtime-Secret header if there is one, and the body.
pub record Post : Type 0 where
  pub url : Text
  pub secret : Option Text
  pub body : PostbackRequest

-- net/http and the context, which are parameters: the construction of a request, the exchange with its
-- status, whether the context is done, and a wait of milliseconds that says whether the context
-- was done before its end.
pub record Client : Type 1 where
  pub World : Type 0
  pub new_request : Post → M World (Unit {0})
  pub do_post : Post → M World ℕ
  pub is_done : World → World × Bool
  pub wait : ℕ → World → World × Bool

-- The posts that reached the client; nothing but an exchange adds one.
pub record ClientLaws (c : Client) : Type 0 where
  pub sent : c.World → List Post
  pub new_request_sends : (p : Post) (w : c.World) → sent (c.new_request p w).0 ≡ sent w
  pub do_post_sends : (p : Post) (w : c.World) → sent (c.do_post p w).0 ≡ sent w ++ (p ∷ [])
  pub is_done_sends : (w : c.World) → sent (c.is_done w).0 ≡ sent w
  pub wait_sends : (ms : ℕ) (w : c.World) → sent (c.wait ms w).0 ≡ sent w

-- the request of `sendPart`; the header is set for a secret that is not empty
abbrev pub post_of : Text → Text → Text → List PostbackAttachment → Post
post_of secret url content atts = record {
  url = url;
  secret = if is_empty secret then none else some secret;
  body = record {
    content = content;
    message_type = codes "outgoing";
    content_type = codes "text";
    attachments = atts;
  };
}

abbrev pub is_positive : Float64 → Bool
is_positive x = elim x.sign [ Sign.above_zero ↦ true | _ ↦ false ]

-- Prepends the signature to the first part.
abbrev pub sign_first : Text → List Text → List Text
sign_first signature [] = []
sign_first signature (p ∷ ps) = if is_empty signature then p ∷ ps else (signature ++ p) ∷ ps

module _ (c : Client) where
  abbrev interrupted : {A : Type 0} → M c.World A
  interrupted = fail (Err.sentinel Sentinel.dispatch_interrupted)

  -- `select { case <-ctx.Done(): return ErrDispatchInterrupted … }`
  abbrev pub unless : (c.World → c.World × Bool) → M c.World (Unit {0})
  unless poll w = if (poll w).1 then interrupted (poll w).0 else pure tt (poll w).0

  abbrev pub check_status : ℕ → M c.World (Unit {0})
  check_status code =
      if ltb code 200 || leb 300 code
      then fail (Err.foreign (codes "status: " ++ format (pos code)))
      else pure tt

  unfoldable pub send_part : Text → Text → Text → List PostbackAttachment → M c.World (Unit {0})
  send_part secret url content atts = do
    context (codes "new_request") (c.new_request (post_of secret url content atts))
    code ← context (codes "do") (c.do_post (post_of secret url content atts))
    check_status code

  -- the pause behind a part, unless it is the last one
  abbrev pub pause : BotConfig → Text → List Text → M c.World (Unit {0})
  pause cfg part [] = pure tt
  pause cfg part (q ∷ rest) =
      if is_positive cfg.delay_per_character
      then unless (c.wait (cfg.delay_per_character.times_trunc (length part)))
      else pure tt

  -- the loop over the parts from index `i` on
  unfoldable pub send_parts : Text → Text → BotConfig → ℕ → List Text → M c.World (Unit {0})
  unfolding send_part
  send_parts secret url cfg i [] = pure tt
  send_parts secret url cfg i (part ∷ rest) =
      let others = send_parts secret url cfg (i + 1) rest in
      let this = do
        unless c.is_done
        context (codes "pipeline.dispatch.send[" ++ format (pos i) ++ codes "]")
            (send_part secret url part [])
        pause cfg part rest
        others
      in if is_empty part then others else this

  -- the media postback behind the text
  unfoldable pub send_media : Text → Text → List PostbackAttachment → M c.World (Unit {0})
  unfolding send_part
  send_media secret url [] = pure tt
  send_media secret url (a ∷ atts) = do
    unless c.is_done
    context (codes "pipeline.dispatch.send[media]") (send_part secret url [] (a ∷ atts))

  unfoldable pub dispatch : Text → Text → BotConfig → Text → M c.World (Unit {0})
  unfolding send_parts send_media
  dispatch secret content cfg url = do
    let pulled = extract_media_urls content
    send_parts secret url cfg 0 (sign_first cfg.message_signature (segment_content pulled.0 cfg))
    send_media secret url pulled.1
