-- ===== src/Service/Progress/Poll.antt =====
-- A tick of the poller, over the entries of all pairs.
use evo_bot_runtime.Prelude.{
  true, false, List, [], ◌∷◌, some, ◌≡◌, ◌≢◌, ap, ◌∙◌, arith, inl, inr, Bool-cases,
}
use evo_bot_runtime.Prelude.Text.{Text, text_eq, text_eq_iff, text_eq_refl}
use evo_bot_runtime.Prelude.Assoc.{lookup}
use evo_bot_runtime.Model.{PairId}
use evo_bot_runtime.Keys.{pair_key}
use evo_bot_runtime.Keys.RoundTrip.{IsInt64Pair, parse_pair_key-pair_key}
use evo_bot_runtime.Repository.{Repository, Cell, Contract}
use evo_bot_runtime.Service.State.{Service, Entry}
use evo_bot_runtime.Service.Process.{S, in_debounce}
use evo_bot_runtime.Service.Recovery.{is_zero_id, poll_entry, poll_entries, poll}
use evo_bot_runtime.Service.Contexts.{Keyed, lookup-Live}
use evo_bot_runtime.Service.Interleaving.{Reach, Reach-Consistent}
use evo_bot_runtime.Service.Progress.Idle.{poll_entry-idle}
use evo_bot_runtime.Service.Progress.{Serves, Spares, Launched, advance-Launched}
use evo_bot_runtime.Service.Progress.Growth.{Polled, Polled-first, Polled-later}
use evo_bot_runtime.Service.Progress.Aside.{Aside, poll_entry-Aside, poll_entries-Grows}

-- A turn that waits for the poller: its entry is live and its stage is the debounce stage.
pub record Waiting {Db : Type 0} (view : Db → PairId → Cell) (p : PairId) (e : Entry)
    (s : Service Db) : Type 0 where
  pub entry : lookup (pair_key p) s.entries ≡ some e
  pub live : s.cancelled e.ctx ≡ false
  pub stage : in_debounce (view s.db p).state ≡ true

module _ (r : Repository) (c : Contract r) (p : PairId) (hp : IsInt64Pair p)
    (named : is_zero_id p.contact_id ≡ false) (serves : Serves r p)
    (spares : Spares r p serves.idle) where
  poll_entry-Launched :
      (e : Entry) (s : S r)
      → serves.idle s.db ≡ true
      → Waiting c.view p e s
      → Launched c.view p e s (poll_entry r (pair_key p) e s)
  unfolding poll_entry
  poll_entry-Launched e s idle w =
      let (idle_g, o, eg) = serves.state s.db idle in
      let g = r.get_state p s.db in
      let kept_g = c.get_state_reads p s.db p in
      let x = r.timer_exists p g.0 in
      let kept_x = c.timer_exists_reads p g.0 p in
      let kept = kept_x ∙ kept_g in
      let u = record s { db = x.0 } in
      let waits : in_debounce o ≡ true = ground (arith, c.get_state_value p s.db o eg, w.stage) in
      let still = ap (λ (v : Cell). in_debounce v.state) kept ∙ w.stage in
      let (idle_x, ex) = serves.expired g.0 idle_g in
      let l = (advance-Launched r c p serves e u idle_x w.entry still).1 in
      rw (w.live, parse_pair_key-pair_key p hp, named, eg, waits, ex)
        (record { stage = l.stage; task = rw kept at l.task })

  false_of_other :
      (k : Text) (q : PairId) → text_eq k (pair_key p) ≡ false → k ≡ pair_key q → q ≡ p → ⊥
  false_of_other k q other key z = ground (arith, text_eq_refl (pair_key p), ap pair_key z)

  poll_entries-Polled :
      (m : List (Text × Entry)) (e : Entry) (s : S r)
      → Keyed m
      → lookup (pair_key p) m ≡ some e
      → serves.idle s.db ≡ true
      → Waiting c.view p e s
      → Polled c.view p e s (poll_entries r m s)
  unfolding poll_entries lookup
  poll_entries-Polled [] e s keyed found idle w = cc
  poll_entries-Polled ((k, f) ∷ m) e s ((q, hq, key), keyed) found idle w =
      let t = poll_entry r k f s in
      elim (Bool-cases (text_eq k (pair_key p))) [
        | inl same ↦
            let own : k ≡ pair_key p = (text_eq_iff k (pair_key p)).0 same in
            let mine : f ≡ e = cc (rw same at found) in
            let l : Launched c.view p e s t = rw (own, mine) (poll_entry-Launched e s idle w) in
            Polled-first c.view p e s t (poll_entries r m t) l (poll_entries-Grows r c m t)
        | inr other ↦
            let ne : q ≢ p = λ (z : q ≡ p). false_of_other k q other key z in
            let a : Aside c.view p s t = rw key (poll_entry-Aside r c p q hp hq ne f s) in
            let idle_t : serves.idle t.db ≡ true =
              rw key (poll_entry-idle r p serves.idle spares q hq ne f s idle) in
            let w' : Waiting c.view p e t = record {
              entry = rw a.entries w.entry;
              live = rw a.cancelled w.live;
              stage = rw a.cell w.stage;
            } in
            Polled-later c.view p e s t (poll_entries r m t) a.cell a.tasks
              (poll_entries-Polled m e t keyed (rw other at found) idle_t w')
      ]

  -- Liveness of debounced turns, in every state that the service can come to before Shutdown: when the
  -- timer of a waiting turn has expired and the lock of its pair, whose contact is not 0, is free, in a
  -- store that then answers the calls for the pair, the next tick of the poller launches the goroutine of
  -- its AI stage, on the joined text and the media of its buffers, wherever its entry stands among those
  -- of other pairs and whatever the calls for these come to, as long as they leave the timer and the lock
  -- of this pair alone.
  pub poll-Polled :
      (e : Entry) (s : S r)
      → Reach r s
      → s.stopped ≡ false
      → lookup (pair_key p) s.entries ≡ some e
      → in_debounce (c.view s.db p).state ≡ true
      → serves.idle s.db ≡ true
      → Polled c.view p e s (poll r s)
  unfolding poll
  poll-Polled e s reached running found waits idle =
      let i = Reach-Consistent r c reached in
      let w : Waiting c.view p e s = record {
        entry = found;
        live = lookup-Live (pair_key p) s.cancelled s.entries e (i.live running) found;
        stage = waits;
      } in
      poll_entries-Polled s.entries e s i.keyed found idle w
