-- ===== src/Handler.antt =====
-- pkg/pipeline/handler/handler.go and middleware.go. Gin's binding of the body arrives as its result:
-- an event, or an error. The process goroutine that an accepted event launches is a value.
pub mod Laws
use evo_bot_runtime.Prelude.{
  ℕ, Bool, true, false, Option, none, some, Result, ok, err, if◌then◌else◌,
}
use evo_bot_runtime.Prelude.Text.{Text, codes, text_eq}
use evo_bot_runtime.Errors.{Err}
use evo_bot_runtime.Model.{
  MessageEvent, Stage, ValidationError, bad_contact, bad_conversation, no_postback, bad_debounce,
  bad_limit, bad_delay,
}
use evo_bot_runtime.Validation.{validate}
use evo_bot_runtime.Repository.{Repository}
use evo_bot_runtime.Service.State.{pair_of}
use evo_bot_runtime.Service.Process.{bare_state}

-- The status and the fields of the JSON body.
pub data Response : Type 0 where
  accepted healthy unauthorized internal_error redis_unreachable : Response
  invalid : Text → Response

pub status : Response → ℕ
status accepted = 202
status healthy = 200
status unauthorized = 401
status internal_error = 500
status redis_unreachable = 503
status (invalid message) = 400

abbrev pub message_of : ValidationError → Text
message_of bad_contact = codes "contact_id must be > 0"
message_of bad_conversation = codes "conversation_id must be > 0"
message_of no_postback = codes "postback_url is required"
message_of bad_debounce = codes "debounce_time must be >= 0"
message_of bad_limit = codes "text_segmentation_limit must be > 0 when segmentation is enabled"
message_of bad_delay = codes "delay_per_character must be >= 0"

-- The store afterwards, the response, and the event that a process goroutine was launched for.
pub record Handled (Db : Type 0) : Type 0 where
  pub db : Db
  pub response : Response
  pub launched : Option MessageEvent

module _ (r : Repository) where
  abbrev after_persist : MessageEvent → r.Db × Result Err (Unit {0}) → Handled r.Db
  after_persist ev (db, ok done) = record { db = db; response = accepted; launched = some ev }
  after_persist ev (db, err e) = record { db = db; response = internal_error; launched = none }

  abbrev after_validate : MessageEvent → ℕ → r.Db → Option ValidationError → Handled r.Db
  after_validate ev now db (some e) = record {
    db = db;
    response = invalid (message_of e);
    launched = none;
  }
  after_validate ev now db none =
      after_persist ev (r.set_state (pair_of ev) (bare_state Stage.incoming now) db)

  -- `handleEvent`; `none` is an error of ShouldBindJSON
  unfoldable pub handle_event : Option MessageEvent → ℕ → r.Db → Handled r.Db
  handle_event none now db = record {
    db = db;
    response = invalid (codes "invalid payload");
    launched = none;
  }
  handle_event (some ev) now db = after_validate ev now db (validate ev)

  -- `SecretMiddleware` in front of `handleEvent`
  unfoldable pub post_events : Text → Text → Option MessageEvent → ℕ → r.Db → Handled r.Db
  unfolding handle_event
  post_events secret header body now db =
      if text_eq header secret
      then handle_event body now db
      else record { db = db; response = unauthorized; launched = none }

  abbrev after_ping : Result Err (Unit {0}) → Response
  after_ping (ok done) = healthy
  after_ping (err e) = redis_unreachable

  -- `handleHealth`
  unfoldable pub handle_health : r.Db → r.Db × Response
  handle_health db = ((r.ping db).0, after_ping (r.ping db).1)
