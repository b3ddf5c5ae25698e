-- ===== src/Debounce/Laws.antt =====
-- What the debounce engine does to the cell of a pair, over any repository that keeps the contract.
use evo_bot_runtime.Prelude.{
  Result-cases, inl, inr, ◌≢◌, zero, suc, List, [], ◌∷◌, ◌++◌, ok, ◌≡◌, arith, refl,
}
use evo_bot_runtime.Prelude.Int.{ℤ, pos, negsuc}
use evo_bot_runtime.Prelude.Text.{Text, codes}
use evo_bot_runtime.Model.{PairId, BotConfig, Attachment}
use evo_bot_runtime.Repository.{Repository, Cell, Contract}
use evo_bot_runtime.Keys.RoundTrip.{IsInt64Pair}
use evo_bot_runtime.Debounce.{join, arm_timer, start, reset, get_buffer}

-- The cell with one more message.
abbrev pub add_message : Text → List Attachment → Cell → Cell
add_message content atts c = record c {
  buffer = c.buffer ++ (content ∷ []);
  media = c.media ++ atts;
}

module _ (r : Repository) (c : Contract r) where
  arm_timer-view :
      (p q : PairId) (label : Text) (t : ℤ) (db : r.Db)
      → c.view (arm_timer r p label t db).0 q ≡ c.view db q
  unfolding arm_timer
  arm_timer-view p q label (pos zero) db = refl
  arm_timer-view p q label (pos (suc n)) db = ground (arith, c.set_timer_reads p (suc n) db q)
  arm_timer-view p q label (negsuc n) db = refl

  pub start-view :
      (p : PairId) (content : Text) (atts : List Attachment) (cfg : BotConfig) (db : r.Db)
      → (start r p content atts cfg db).1 ≡ ok tt
      → c.view (start r p content atts cfg db).0 p ≡ add_message content atts (c.view db p)
  unfolding start
  start-view p content atts cfg db h =
      let db1 = (r.append_to_buffer p content db).0 in
      let db2 = (r.append_attachments p atts db1).0 in
      ground (
        arith,
        (c.append_to_buffer_writes p content).here db,
        (c.append_attachments_writes p atts).here db1,
        arm_timer-view p p (codes "debounce.start.set_timer") cfg.debounce_time db2,
      )

  pub reset-view :
      (p : PairId) (content : Text) (atts : List Attachment) (cfg : BotConfig) (db : r.Db)
      → (reset r p content atts cfg db).1 ≡ ok tt
      → c.view (reset r p content atts cfg db).0 p ≡ add_message content atts (c.view db p)
  unfolding reset
  reset-view p content atts cfg db h =
      let db1 = (r.append_to_buffer p content db).0 in
      let db2 = (r.append_attachments p atts db1).0 in
      ground (
        arith,
        (c.append_to_buffer_writes p content).here db,
        (c.append_attachments_writes p atts).here db1,
        arm_timer-view p p (codes "debounce.reset.set_timer") cfg.debounce_time db2,
      )

  pub start-elsewhere :
      (p q : PairId) (content : Text) (atts : List Attachment) (cfg : BotConfig) (db : r.Db)
      → IsInt64Pair p
      → IsInt64Pair q
      → p ≢ q
      → c.view (start r p content atts cfg db).0 q ≡ c.view db q
  unfolding start
  start-elsewhere p q content atts cfg db hp hq ne =
      let db1 = (r.append_to_buffer p content db).0 in
      let db2 = (r.append_attachments p atts db1).0 in
      ground (
        arith,
        (c.append_to_buffer_writes p content).elsewhere db q hp hq ne,
        (c.append_attachments_writes p atts).elsewhere db1 q hp hq ne,
        arm_timer-view p q (codes "debounce.start.set_timer") cfg.debounce_time db2,
      )

  pub reset-elsewhere :
      (p q : PairId) (content : Text) (atts : List Attachment) (cfg : BotConfig) (db : r.Db)
      → IsInt64Pair p
      → IsInt64Pair q
      → p ≢ q
      → c.view (reset r p content atts cfg db).0 q ≡ c.view db q
  unfolding reset
  reset-elsewhere p q content atts cfg db hp hq ne =
      let db1 = (r.append_to_buffer p content db).0 in
      let db2 = (r.append_attachments p atts db1).0 in
      ground (
        arith,
        (c.append_to_buffer_writes p content).elsewhere db q hp hq ne,
        (c.append_attachments_writes p atts).elsewhere db1 q hp hq ne,
        arm_timer-view p q (codes "debounce.reset.set_timer") cfg.debounce_time db2,
      )

  pub get_buffer-view : (p q : PairId) (db : r.Db) → c.view (get_buffer r p db).0 q ≡ c.view db q
  unfolding get_buffer
  get_buffer-view p q db = ground (arith, c.get_buffer_reads p db q)

  -- What `GetBuffer` returns is the joined buffer of the pair's cell: the entries in the order in which
  -- they were appended, with a blank line between them.
  pub get_buffer-join :
      (p : PairId) (db : r.Db) (t : Text)
      → (get_buffer r p db).1 ≡ ok t
      → t ≡ join (c.view db p).buffer
  unfolding get_buffer
  get_buffer-join p db t h = elim (Result-cases (r.get_buffer p db).1) [
    | inl (b, e) ↦ ground (arith, c.get_buffer_value p db b e)
    | inr (x, e) ↦ ground arith
  ]
