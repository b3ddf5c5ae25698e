-- ===== src/Service/Opening.antt =====
-- The ways to begin a turn, `startDebounce` and `skipDebounce`: what they leave in memory.
use evo_bot_runtime.Prelude.{
  ℕ, suc, true, false, List, [], ◌∷◌, ◌++◌, none, some, Result, ok, err, ◌≡◌, arith, ◌⊎◌, inl, inr,
  Bool-cases, Result-cases,
}
use evo_bot_runtime.Prelude.Text.{Text, text_eq_refl}
use evo_bot_runtime.Prelude.Assoc.{lookup, insert, lookup-insert, lookup-erase}
use evo_bot_runtime.Errors.{Err}
use evo_bot_runtime.Model.{PairId, Stage, MessageEvent, Attachment}
use evo_bot_runtime.Keys.{pair_key}
use evo_bot_runtime.Repository.{Repository, Cell, Contract}
use evo_bot_runtime.Debounce
use evo_bot_runtime.Debounce.Laws.{get_buffer-join, get_buffer-view}
use evo_bot_runtime.Service.State.{Service, AiTask, pair_of, new_entry}
use evo_bot_runtime.Service.Process.{
  S, is_zero, bare_state, start_debounce, skip_debounce, begin_turn, launch_ai_stage,
}

-- The goroutine of a turn that skips the debounce.
abbrev pub turn_task : MessageEvent → ℕ → Text → List Attachment → AiTask
turn_task ev ctx buffer atts = record {
  ctx = ctx;
  pair = pair_of ev;
  buffer = buffer;
  attachments = atts;
  cfg = ev.bot_config;
  postback_url = ev.postback_url;
}

-- A call that opened a turn: the entry of the pair carries the event under a context of its own, and
-- the AI stage runs exactly if there is no debounce time, on all the text that is buffered, and on
-- all the media or on none.
pub record Opened {Db : Type 0} (view : Db → PairId → Cell) (ev : MessageEvent) (s t : Service Db)
    : Type 0 where
  pub entry : lookup (pair_key (pair_of ev)) t.entries ≡ some (new_entry s.fresh ev)
  pub context : t.fresh ≡ suc s.fresh
  pub waits : is_zero ev.bot_config.debounce_time ≡ false → t.ai_tasks ≡ s.ai_tasks
  pub runs :
      is_zero ev.bot_config.debounce_time ≡ true
      → (atts : List Attachment) × ((atts ≡ []) ⊎ (atts ≡ (view t.db (pair_of ev)).media))
        × (t.ai_tasks
            ≡ s.ai_tasks
              ++ (turn_task ev s.fresh (Debounce.join (view t.db (pair_of ev)).buffer) atts ∷ []))

-- A call that failed in the course of opening a turn: no entry is left for the pair, the context that
-- it made is cancelled, and no goroutine was launched.
pub record Abandoned {Db : Type 0} (ev : MessageEvent) (s t : Service Db) : Type 0 where
  pub entry : lookup (pair_key (pair_of ev)) t.entries ≡ none
  pub dead : t.fresh ≡ suc s.fresh → t.cancelled s.fresh ≡ true
  pub tasks : t.ai_tasks ≡ s.ai_tasks

or_none : Result Err (List Attachment) → List Attachment
or_none (ok atts) = atts
or_none (err e) = []

module _ (r : Repository) (c : Contract r) (ev : MessageEvent) where
  abbrev key : Text
  key = pair_key (pair_of ev)

  start_debounce-Opened :
      (s : S r)
      → is_zero ev.bot_config.debounce_time ≡ false
      → (start_debounce r ev s).1 ≡ ok tt
      → Opened c.view ev s (start_debounce r ev s).0
  unfolding start_debounce
  start_debounce-Opened s z h = record {
    entry =
        ground (arith, text_eq_refl key, lookup-insert key key (new_entry s.fresh ev) s.entries);
    context = ground arith;
    waits = λ e. ground arith;
    runs = λ e. cc;
  }

  start_debounce-Abandoned :
      (s : S r) (e : Err)
      → (start_debounce r ev s).1 ≡ err e
      → Abandoned ev s (start_debounce r ev s).0
  unfolding start_debounce
  start_debounce-Abandoned s e h =
      ground (
        arith,
        text_eq_refl key,
        lookup-erase key key (insert key (new_entry s.fresh ev) s.entries),
      )

  skip_debounce-Abandoned :
      (s : S r) (e : Err)
      → (skip_debounce r ev s).1 ≡ err e
      → Abandoned ev s (skip_debounce r ev s).0
  unfolding skip_debounce
  skip_debounce-Abandoned s e h =
      ground (
        arith,
        text_eq_refl key,
        lookup-erase key key (insert key (new_entry s.fresh ev) s.entries),
      )

  read_media :
      (p : PairId) (db : r.Db)
      → (or_none (r.get_attachments p db).1 ≡ [])
        ⊎ (or_none (r.get_attachments p db).1 ≡ (c.view db p).media)
  unfolding or_none
  read_media p db = elim (Result-cases (r.get_attachments p db).1) [
    | inl (l, e) ↦ inr (ground (arith, c.get_attachments_value p db l e))
    | inr (x, e) ↦ inl (ground arith)
  ]

  skip_debounce-Opened :
      (s : S r)
      → is_zero ev.bot_config.debounce_time ≡ true
      → (skip_debounce r ev s).1 ≡ ok tt
      → Opened c.view ev s (skip_debounce r ev s).0
  unfolding skip_debounce launch_ai_stage Debounce.get_attachments or_none
  skip_debounce-Opened s z h =
      let p = pair_of ev in
      let d = Debounce.start r p ev.message_content ev.attachments ev.bot_config s.db in
      let b = Debounce.get_buffer r p d.0 in
      let a = r.get_attachments p b.0 in
      let entry = lookup-insert key key (new_entry s.fresh ev) s.entries in
      let written = (c.set_state_writes p (bare_state Stage.ai s.now)).here a.0 in
      record {
        entry = ground (arith, text_eq_refl key, entry);
        context = ground arith;
        waits = λ e. cc;
        runs = λ e. (
          or_none a.1,
          ground (arith, written, read_media p b.0, c.get_attachments_reads p b.0 p),
          elim (Result-cases b.1) [
            | inl (text, found) ↦ ground (
              arith,
              text_eq_refl key,
              entry,
              written,
              get_buffer-join r c p d.0 text found,
              get_buffer-view r c p p d.0,
              c.get_attachments_reads p b.0 p,
            )
            | inr (x, lost) ↦ ground arith
          ],
        );
      }

  pub begin_turn-Opened :
      (s : S r) → (begin_turn r ev s).1 ≡ ok tt → Opened c.view ev s (begin_turn r ev s).0
  unfolding begin_turn
  begin_turn-Opened s h = elim (Bool-cases (is_zero ev.bot_config.debounce_time)) [
    | inl z ↦ rw z (skip_debounce-Opened s z (rw z at h))
    | inr z ↦ rw z (start_debounce-Opened s z (rw z at h))
  ]

  pub begin_turn-Abandoned :
      (s : S r) (e : Err) → (begin_turn r ev s).1 ≡ err e → Abandoned ev s (begin_turn r ev s).0
  unfolding begin_turn
  begin_turn-Abandoned s e h = elim (Bool-cases (is_zero ev.bot_config.debounce_time)) [
    | inl z ↦ rw z (skip_debounce-Abandoned s e (rw z at h))
    | inr z ↦ rw z (start_debounce-Abandoned s e (rw z at h))
  ]
