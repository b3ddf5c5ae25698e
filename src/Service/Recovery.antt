-- ===== src/Service/Recovery.antt =====
-- `Start`, one round of `pollDebounceExpiry`, and `Shutdown`.
use evo_bot_runtime.Prelude.{
  ℕ, Bool, true, false, List, [], ◌∷◌, Option, none, some, Result, ok, err, if◌then◌else◌, ◌==◌,
}
use evo_bot_runtime.Prelude.Int.{ℤ, pos, negsuc}
use evo_bot_runtime.Prelude.Text.{Text, codes}
use evo_bot_runtime.Prelude.Assoc.{lookup}
use evo_bot_runtime.Errors.{Err}
use evo_bot_runtime.Model.{PairId, PipelineState}
use evo_bot_runtime.Keys.{pair_key, parse_pair_key}
use evo_bot_runtime.Monad.{M, context, modify, ◌>>=◌}
use evo_bot_runtime.Repository.{Repository}
use evo_bot_runtime.Service.State.{Entry, lift, store_entry, cancel_ctx}
use evo_bot_runtime.Service.Process.{S, in_debounce, advance_to_ai}

-- the entry of a pair found in Redis
abbrev pub entry_of_state : ℕ → PipelineState → Entry
entry_of_state c st = record {
  ctx = c;
  cfg = st.bot_config;
  postback_url = st.postback_url;
  outgoing_url = st.outgoing_url;
  api_key = st.api_key;
  metadata = st.metadata;
}

abbrev pub max_recovery_pairs : ℕ
max_recovery_pairs = 10_000

abbrev pub is_zero_id : ℤ → Bool
is_zero_id (pos n) = n == 0
is_zero_id (negsuc n) = false

module _ (r : Repository) where
  -- `if _, alreadyExists := s.entries.Load(key); !alreadyExists { … }`
  abbrev pub store_missing : PairId → PipelineState → Option Entry → S r → S r
  store_missing p st (some e) s = s
  store_missing p st none s = (store_entry p (λ c. entry_of_state c st) s).0

  -- `if err == nil && !timerExists`, on the result of `TimerExists`
  abbrev pub advance_if_expired : PairId → Result Err Bool → S r → S r
  advance_if_expired p (ok false) s = advance_to_ai r p s
  advance_if_expired p (ok true) s = s
  advance_if_expired p (err e) s = s

  abbrev pub recover_state : PairId → PipelineState → S r → S r
  recover_state p st s =
      let s' = store_missing p st (lookup (pair_key p) s.entries) s in
      let call = r.timer_exists p s'.db in advance_if_expired p call.1 (record s' { db = call.0 })

  abbrev pub recover_found : PairId → Result Err (Option PipelineState) → S r → S r
  recover_found p (err e) s = s
  recover_found p (ok none) s = s
  recover_found p (ok (some st)) s = if in_debounce (some st) then recover_state p st s else s

  -- one round of the recovery loop
  unfoldable pub recover_pair : PairId → S r → S r
  unfolding store_entry
  recover_pair p s =
      let call = r.get_state p s.db in recover_found p call.1 (record s { db = call.0 })

  unfoldable pub recover_all : List PairId → S r → S r
  unfolding recover_pair
  recover_all [] s = s
  recover_all (p ∷ ps) s = recover_all ps (recover_pair p s)

  -- `Start`, up to the launch of the poller
  unfoldable pub start : M (S r) (Unit {0})
  unfolding recover_all
  start = do
    pairs ← context (codes "pipeline.start.scan_states") (lift (r.scan_states max_recovery_pairs))
    modify (recover_all pairs)

  abbrev pub poll_timer : PairId → Result Err (Option PipelineState) → S r → S r
  poll_timer p (err e) s = s
  poll_timer p (ok o) s =
      let call = r.timer_exists p s.db in
      if in_debounce o then advance_if_expired p call.1 (record s { db = call.0 }) else s

  abbrev pub poll_pair : PairId → S r → S r
  poll_pair p s =
      let call = r.get_state p s.db in
      if is_zero_id p.contact_id then s else poll_timer p call.1 (record s { db = call.0 })

  -- the function that a tick hands to `entries.Range`
  unfoldable pub poll_entry : Text → Entry → S r → S r
  poll_entry key e s = if s.cancelled e.ctx then s else poll_pair (parse_pair_key key) s

  -- a tick, over the entries that `Range` visits
  unfoldable pub poll_entries : List (Text × Entry) → S r → S r
  unfolding poll_entry
  poll_entries [] s = s
  poll_entries ((key, e) ∷ m) s = poll_entries m (poll_entry key e s)

  -- A tick. Once Shutdown has closed `stopCh`, the select takes either case, so ticks may still follow
  -- until the poller ends, which is the absence of further ticks.
  unfoldable pub poll : S r → S r
  unfolding poll_entries
  poll s = poll_entries s.entries s

  unfoldable pub cancel_all : List (Text × Entry) → S r → S r
  cancel_all [] s = s
  cancel_all ((key, e) ∷ m) s = cancel_all m (cancel_ctx e.ctx s)

  -- `Shutdown`, less the wait for the poller
  unfoldable pub shutdown : S r → S r
  unfolding cancel_all
  shutdown s = let t = cancel_all s.entries s in record t { stopped = true }
