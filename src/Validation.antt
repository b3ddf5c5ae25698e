-- ===== src/Validation.antt =====
-- `MessageEvent.Validate` of pkg/pipeline/model/pipeline.go, and what an accepted event satisfies.
use evo_bot_runtime.Prelude.{
  ℕ, zero, suc, refl, [], Bool, true, false, ◌&&◌, Option, none, some, if◌then◌else◌, ◌≡◌, ◌≢◌,
  arith, ◌↔◌,
}
use evo_bot_runtime.Prelude.Int.{ℤ, pos, negsuc, is_nonpos, is_neg}
use evo_bot_runtime.Prelude.Text.{is_empty}
use evo_bot_runtime.Prelude.Float.{Sign, Float64}
use evo_bot_runtime.Model.{
  MessageEvent, ValidationError, bad_contact, bad_conversation, no_postback, bad_debounce,
  bad_limit, bad_delay,
}

abbrev is_below_zero : Float64 → Bool
is_below_zero x = elim x.sign [ Sign.below_zero ↦ true | _ ↦ false ]

-- `none` is the nil error.
unfoldable pub validate : MessageEvent → Option ValidationError
validate e =
    if is_nonpos e.contact_id
    then some bad_contact
    else if is_nonpos e.conversation_id
    then some bad_conversation
    else if is_empty e.postback_url
    then some no_postback
    else if is_neg e.bot_config.debounce_time
    then some bad_debounce
    else if e.bot_config.text_segmentation_enabled && is_nonpos e.bot_config.text_segmentation_limit
    then some bad_limit
    else if is_below_zero e.bot_config.delay_per_character
    then some bad_delay
    else none

-- The constraints in the words of the field comments: ids at least 1, an address to answer to, no
-- negative time, and a segment limit of at least 1 where segmentation is on.
pub record IsAcceptable (e : MessageEvent) : Type 0 where
  pub contact : (n : ℕ) × (e.contact_id ≡ pos (suc n))
  pub conversation : (n : ℕ) × (e.conversation_id ≡ pos (suc n))
  pub postback : e.postback_url ≢ []
  pub debounce : (n : ℕ) × (e.bot_config.debounce_time ≡ pos n)
  pub limit :
      e.bot_config.text_segmentation_enabled ≡ true
      → (n : ℕ) × (e.bot_config.text_segmentation_limit ≡ pos (suc n))
  pub delay : e.bot_config.delay_per_character.sign ≢ Sign.below_zero

positive : (x : ℤ) → is_nonpos x ≡ false → (n : ℕ) × (x ≡ pos (suc n))
positive (pos zero) h = cc
positive (pos (suc n)) h = (n, refl)
positive (negsuc n) h = cc

at_least_zero : (x : ℤ) → is_neg x ≡ false → (n : ℕ) × (x ≡ pos n)
at_least_zero (pos n) h = (n, refl)
at_least_zero (negsuc n) h = cc

validate_sound : (e : MessageEvent) → validate e ≡ none → IsAcceptable e
unfolding validate
validate_sound e h = record {
  contact = positive e.contact_id (ground arith);
  conversation = positive e.conversation_id (ground arith);
  postback = ground arith;
  debounce = at_least_zero e.bot_config.debounce_time (ground arith);
  limit = λ on. positive e.bot_config.text_segmentation_limit (ground arith);
  delay = ground arith;
}

validate_complete : (e : MessageEvent) → IsAcceptable e → validate e ≡ none
unfolding validate
validate_complete e h =
    ground (arith, h.contact, h.conversation, h.postback, h.debounce, h.limit, h.delay)

-- An event passes validation exactly when its ids are at least 1, it has a postback address, its
-- debounce time and its delay per character are not negative, and its segment limit is at least 1
-- if segmentation is on.
pub validate-none_iff : (e : MessageEvent) → (validate e ≡ none) ↔ IsAcceptable e
validate-none_iff e = (validate_sound e, validate_complete e)
