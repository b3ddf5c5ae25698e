-- ===== src/Arrival/Burst.antt =====
-- Messages of one customer in short order, with their handlers and goroutines in any order.
use evo_bot_runtime.Prelude.{
  ℕ, Bool, true, false, List, [], ◌∷◌, ◌++◌, Option, none, some, ok, ◌≡◌, ◌≢◌, refl, sym, ap, ◌∙◌,
  ◌⊎◌, inl, inr,
}
use evo_bot_runtime.Prelude.Text.{Text}
use evo_bot_runtime.Model.{PairId, Stage, PipelineState, MessageEvent, Attachment}
use evo_bot_runtime.Repository.{Repository, Cell, Contract}
use evo_bot_runtime.Handler.{post_events}
use evo_bot_runtime.Handler.Laws.{post_events-Admitted}
use evo_bot_runtime.Service.State.{pair_of}
use evo_bot_runtime.Service.Process.{S, bare_state, is_zero, process}
use evo_bot_runtime.Service.Refinement.{message_cell, state_cell, process-cell}
use evo_bot_runtime.Arrival.{Inbox, handle, run_process}

-- The steps of a burst, for a pair, in any order: handlers that accept a message of the pair, pending
-- goroutines of the pair, of which any may be the next and which report no error, and all other steps
-- of the service and of the store that leave the cell of the pair alone, such as those for other pairs.
-- The list has the messages whose goroutines have run, the last one first.
pub data Burst (r : Repository) (view : r.Db → PairId → Cell) (secret : Text) (p : PairId)
    (i : Inbox r) : List MessageEvent → Inbox r → Type 0 where
  quiet : Burst r view secret p i [] i
  handled :
      {evs : List MessageEvent} {t : Inbox r} (ev : MessageEvent) (header : Text)
      → Burst r view secret p i evs t
      → pair_of ev ≡ p
      → (post_events r secret header (some ev) t.service.now t.service.db).launched ≡ some ev
      → Burst r view secret p i evs (handle r secret header (some ev) t)
  processed :
      {evs : List MessageEvent} {t : Inbox r} (ev : MessageEvent)
      (before behind : List MessageEvent)
      → Burst r view secret p i evs t
      → t.pending ≡ before ++ (ev ∷ behind)
      → pair_of ev ≡ p
      → is_zero ev.bot_config.debounce_time ≡ false
      → (process r ev t.service).1 ≡ ok tt
      → Burst r view secret p i (ev ∷ evs) (run_process r ev (before ++ behind) t)
  beside :
      {evs : List MessageEvent} {t : Inbox r} (u : S r)
      → Burst r view secret p i evs t
      → view u.db p ≡ view t.service.db p
      → Burst r view secret p i evs (record t { service = u })

-- The cell after messages, of which the last one comes first: their texts and media behind what was
-- buffered, in the order in which their goroutines ran.
abbrev pub gathered : List MessageEvent → Cell → Cell
gathered [] v = v
gathered (ev ∷ evs) v =
    let before = gathered evs v in
    record before {
      buffer = before.buffer ++ (ev.message_content ∷ []);
      media = before.media ++ ev.attachments;
    }

-- the stages in which a message joins what is buffered
abbrev gathers_stage : Stage → Bool
gathers_stage Stage.incoming = true
gathers_stage Stage.debounce = true
gathers_stage Stage.ai = false
gathers_stage Stage.dispatch = false
gathers_stage Stage.done = false
gathers_stage (Stage.other name) = false

abbrev gathers : Option PipelineState → Bool
gathers none = true
gathers (some st) = gathers_stage st.stage

-- The message stands behind what was buffered.
record Added (ev : MessageEvent) (v w : Cell) : Type 0 where
  pub gathers : gathers w.state ≡ true
  pub buffer : w.buffer ≡ v.buffer ++ (ev.message_content ∷ [])
  pub media : w.media ≡ v.media ++ ev.attachments

Added-state :
    (o : Option PipelineState) (ev : MessageEvent) (now : ℕ) (v : Cell)
    → v.state ≡ o
    → gathers o ≡ true
    → is_zero ev.bot_config.debounce_time ≡ false
    → Added ev v (state_cell o ev now v)
Added-state none ev now v e g d = record { gathers = rw d refl; buffer = refl; media = refl }
Added-state (some st) ev now v e g d = by_stage st.stage refl g
  where
    by_stage :
        (k : Stage)
        → st.stage ≡ k
        → gathers_stage k ≡ true
        → Added ev v (state_cell (some st) ev now v)
    by_stage Stage.incoming q h = rw q (record { gathers = rw d refl; buffer = refl; media = refl })
    by_stage Stage.debounce q h =
        rw q (record { gathers = rw (e, q) refl; buffer = refl; media = refl })
    by_stage Stage.ai q h = absurd (cc h)
    by_stage Stage.dispatch q h = absurd (cc h)
    by_stage Stage.done q h = absurd (cc h)
    by_stage (Stage.other name) q h = absurd (cc h)

nothing_pending :
    (before behind : List MessageEvent) (ev : MessageEvent) → before ++ (ev ∷ behind) ≢ []
nothing_pending [] behind ev h = cc h
nothing_pending (x ∷ before) behind ev h = cc h

-- What a burst keeps: the buffers gather, and as long as a goroutine is pending, the stage is one in
-- which its message joins them.
record Gathers (v w : Cell) (evs pending : List MessageEvent) : Type 0 where
  pub buffer : w.buffer ≡ (gathered evs v).buffer
  pub media : w.media ≡ (gathered evs v).media
  pub joins : (pending ≡ []) ⊎ (gathers w.state ≡ true)

module _ (r : Repository) (c : Contract r) (secret : Text) (p : PairId) (i : Inbox r) where
  handled-Gathers :
      (ev : MessageEvent) (header : Text) (t : Inbox r) (evs : List MessageEvent)
      → pair_of ev ≡ p
      → (post_events r secret header (some ev) t.service.now t.service.db).launched ≡ some ev
      → Gathers (c.view i.service.db p) (c.view t.service.db p) evs t.pending
      → let u = handle r secret header (some ev) t in
        Gathers (c.view i.service.db p) (c.view u.service.db p) evs u.pending
  unfolding handle
  handled-Gathers ev header t evs same launched g =
      let admitted =
        post_events-Admitted r c secret header (some ev) t.service.now t.service.db ev launched in
      let cell : c.view (post_events r secret header (some ev) t.service.now t.service.db).db p
          ≡ record (c.view t.service.db p) {
            state = some (bare_state Stage.incoming t.service.now);
          } =
        rw (← same) admitted.cell in
      record { buffer = rw cell g.buffer; media = rw cell g.media; joins = inr (rw cell refl) }

  processed-Gathers :
      (ev : MessageEvent) (before behind : List MessageEvent) (t : Inbox r)
      (evs : List MessageEvent)
      → t.pending ≡ before ++ (ev ∷ behind)
      → pair_of ev ≡ p
      → is_zero ev.bot_config.debounce_time ≡ false
      → (process r ev t.service).1 ≡ ok tt
      → Gathers (c.view i.service.db p) (c.view t.service.db p) evs t.pending
      → let u = run_process r ev (before ++ behind) t in
        Gathers (c.view i.service.db p) (c.view u.service.db p) (ev ∷ evs) u.pending
  unfolding run_process
  processed-Gathers ev before behind t evs waits same debounced done g = elim g.joins [
    | inl none_pending ↦ absurd (nothing_pending before behind ev (sym waits ∙ none_pending))
    | inr joins ↦
        let v = c.view t.service.db p in
        let cell : c.view (process r ev t.service).0.db p ≡ message_cell ev t.service.now v =
          rw (← same) (process-cell r c ev t.service done) in
        let a = Added-state v.state ev t.service.now v refl joins debounced in
        record {
          buffer =
              rw cell (a.buffer ∙ ap (λ (z : List Text). z ++ (ev.message_content ∷ [])) g.buffer);
          media = rw cell (a.media ∙ ap (λ (z : List Attachment). z ++ ev.attachments) g.media);
          joins = inr (rw cell a.gathers);
        }
  ]

  Burst-Gathers :
      {evs : List MessageEvent} {t : Inbox r}
      → i.pending ≡ []
      → Burst r c.view secret p i evs t
      → Gathers (c.view i.service.db p) (c.view t.service.db p) evs t.pending
  Burst-Gathers none_pending quiet = record {
    buffer = refl;
    media = refl;
    joins = inl none_pending;
  }
  Burst-Gathers none_pending (handled {evs} {t} ev header b same launched) =
      handled-Gathers ev header t evs same launched (Burst-Gathers none_pending b)
  Burst-Gathers none_pending (processed {evs} {t} ev before behind b waits same debounced done) =
      processed-Gathers ev before behind t evs waits same debounced done
        (Burst-Gathers none_pending b)
  Burst-Gathers none_pending (beside {evs} {t} u b same) =
      let g = Burst-Gathers none_pending b in
      record { buffer = rw same g.buffer; media = rw same g.media; joins = rw same g.joins }

  -- A burst gathers its messages: in whatever order the handlers and the goroutines of a pair run, with
  -- any other steps in between that leave the cell of the pair alone, every goroutine that has run has
  -- put its text behind those that were buffered, in the order in which the goroutines ran, and its
  -- media likewise, if all the messages are debounced, no goroutine of the pair was pending at first
  -- and none reports an error.
  pub Burst-gathered :
      {evs : List MessageEvent} {t : Inbox r}
      → i.pending ≡ []
      → Burst r c.view secret p i evs t
      → ((c.view t.service.db p).buffer ≡ (gathered evs (c.view i.service.db p)).buffer)
        × ((c.view t.service.db p).media ≡ (gathered evs (c.view i.service.db p)).media)
  Burst-gathered none_pending b = let g = Burst-Gathers none_pending b in (g.buffer, g.media)
