-- ===== src/Service/Progress/Relaunch.antt =====
-- Recovery of the turns that waited when the program ended, and whose timers have expired since.
use evo_bot_runtime.Prelude.{
  ℕ, Bool, true, false, List, [], ◌∷◌, Option, none, some, Result, ok, err, ◌≡◌, ◌≢◌, refl, sym, ap,
  ◌∙◌, arith, ◌⊎◌, inl, inr, All, Bool-cases, Result-cases,
}
use evo_bot_runtime.Prelude.Text.{Text, text_eq, text_eq_iff, text_eq_refl}
use evo_bot_runtime.Prelude.Assoc.{lookup, lookup-insert}
use evo_bot_runtime.Errors.{Err}
use evo_bot_runtime.Model.{PairId, PipelineState}
use evo_bot_runtime.Keys.{pair_key}
use evo_bot_runtime.Keys.RoundTrip.{IsInt64Pair}
use evo_bot_runtime.Keys.Injective.{pair_key-injective}
use evo_bot_runtime.Repository.{Repository, Cell, Contract}
use evo_bot_runtime.Service.State.{Service, Entry, store_entry}
use evo_bot_runtime.Service.Process.{S, in_debounce}
use evo_bot_runtime.Service.Recovery.{
  entry_of_state, max_recovery_pairs, store_missing, advance_if_expired, recover_state,
  recover_pair, recover_all, start,
}
use evo_bot_runtime.Service.Interleaving.{new_service}
use evo_bot_runtime.Service.Consistency.{advance-Alike}
use evo_bot_runtime.Service.Progress.Idle.{recover_pair-idle}
use evo_bot_runtime.Service.Progress.{Spares, Serves, Launched, advance-Launched}
use evo_bot_runtime.Service.Progress.Growth.{
  Grows, Grows-refl, Grows-trans, Polled, Polled-first, Polled-later,
}
use evo_bot_runtime.Service.Progress.Aside.{advance_if_expired-Grows, advance-elsewhere}

-- A pair of the list.
abbrev pub Among : PairId → List PairId → Type 0
Among p [] = ⊥
Among p (q ∷ ps) = (p ≡ q) ⊎ Among p ps

-- A turn that waits in the store, and of which the memory knows nothing.
record Lost {Db : Type 0} (view : Db → PairId → Cell) (p : PairId) (st : PipelineState)
    (s : Service Db) : Type 0 where
  pub entry : lookup (pair_key p) s.entries ≡ none
  pub state : (view s.db p).state ≡ some st

module _ (r : Repository) (c : Contract r) where
  store_missing-Grows :
      (q : PairId) (st : PipelineState) (o : Option Entry) (s : S r)
      → Grows s (store_missing r q st o s)
  unfolding store_entry
  store_missing-Grows q st none s = Grows-refl s
  store_missing-Grows q st (some e) s = Grows-refl s

  recover_state-Grows :
      (q : PairId) (st : PipelineState) (s : S r) → Grows s (recover_state r q st s)
  recover_state-Grows q st s =
      let t = store_missing r q st (lookup (pair_key q) s.entries) s in
      let call = r.timer_exists q t.db in
      Grows-trans s t (recover_state r q st s)
        (store_missing-Grows q st (lookup (pair_key q) s.entries) s)
        (advance_if_expired-Grows r c q call.1 (record t { db = call.0 }))

  recover_pair-Grows : (q : PairId) (s : S r) → Grows s (recover_pair r q s)
  unfolding recover_pair
  recover_pair-Grows q s =
      let g = r.get_state q s.db in
      let t = record s { db = g.0 } in
      elim (Result-cases g.1) [
        | inr (x, z) ↦ rw z (Grows-refl s)
        | inl (none, z) ↦ rw z (Grows-refl s)
        | inl (some st, z) ↦ elim (Bool-cases (in_debounce (some st))) [
          | inl waits ↦ rw (z, waits) (recover_state-Grows q st t)
          | inr past ↦ rw (z, past) (Grows-refl s)
        ]
      ]

  recover_all-Grows : (ps : List PairId) (s : S r) → Grows s (recover_all r ps s)
  unfolding recover_all
  recover_all-Grows [] s = Grows-refl s
  recover_all-Grows (q ∷ ps) s =
      Grows-trans s (recover_pair r q s) (recover_all r ps (recover_pair r q s))
        (recover_pair-Grows q s) (recover_all-Grows ps (recover_pair r q s))

  module _ (p q : PairId) (hp : IsInt64Pair p) (hq : IsInt64Pair q) (ne : q ≢ p) where
    -- The cell of `p` and what is found under its key are as they were.
    abbrev Spared : S r → S r → Type 0
    Spared s t =
        (c.view t.db p ≡ c.view s.db p)
        × (lookup (pair_key p) t.entries ≡ lookup (pair_key p) s.entries)

    Spared-trans : (s t u : S r) → Spared s t → Spared t u → Spared s u
    Spared-trans s t u (a, b) (x, y) = (x ∙ a, y ∙ b)

    keys_differ : text_eq (pair_key q) (pair_key p) ≡ false
    keys_differ = elim (Bool-cases (text_eq (pair_key q) (pair_key p))) [
      | inl same ↦
          absurd
            (ne (pair_key-injective q p hq hp ((text_eq_iff (pair_key q) (pair_key p)).0 same)))
      | inr other ↦ other
    ]

    advance_if_expired-Spared :
        (o : Result Err Bool) (s : S r) → Spared s (advance_if_expired r q o s)
    advance_if_expired-Spared (ok false) s = (
      advance-elsewhere r c p q hp hq ne s,
      ap (λ (m : List (Text × Entry)). lookup (pair_key p) m) (advance-Alike r q s).entries,
    )
    advance_if_expired-Spared (ok true) s = (refl, refl)
    advance_if_expired-Spared (err e) s = (refl, refl)

    store_missing-Spared :
        (st : PipelineState) (o : Option Entry) (s : S r) → Spared s (store_missing r q st o s)
    unfolding store_entry
    store_missing-Spared st (some e) s = (refl, refl)
    store_missing-Spared st none s = (
      refl,
      rw
          (
            lookup-insert (pair_key q) (pair_key p) (entry_of_state s.fresh st) s.entries,
            keys_differ,
          )
          refl,
    )

    recover_state-Spared : (st : PipelineState) (s : S r) → Spared s (recover_state r q st s)
    recover_state-Spared st s =
        let t = store_missing r q st (lookup (pair_key q) s.entries) s in
        let call = r.timer_exists q t.db in
        let u = record t { db = call.0 } in
        Spared-trans s t (recover_state r q st s)
          (store_missing-Spared st (lookup (pair_key q) s.entries) s)
          (Spared-trans t u (recover_state r q st s) (c.timer_exists_reads q t.db p, refl)
            (advance_if_expired-Spared call.1 u))

    recover_pair-Spared : (s : S r) → Spared s (recover_pair r q s)
    unfolding recover_pair
    recover_pair-Spared s =
        let g = r.get_state q s.db in
        let t = record s { db = g.0 } in
        let read : Spared s t = (c.get_state_reads q s.db p, refl) in
        elim (Result-cases g.1) [
          | inr (x, z) ↦ rw z read
          | inl (none, z) ↦ rw z read
          | inl (some st, z) ↦ elim (Bool-cases (in_debounce (some st))) [
            | inl waits ↦
                rw (z, waits)
                  (Spared-trans s t (recover_state r q st t) read (recover_state-Spared st t))
            | inr past ↦ rw (z, past) read
          ]
        ]

  module _ (p : PairId) (hp : IsInt64Pair p) (serves : Serves r p) (spares : Spares r p serves.idle)
      (st : PipelineState) (waits : in_debounce (some st) ≡ true) where
    recover_pair-Launched :
        (s : S r)
        → serves.idle s.db ≡ true
        → Lost c.view p st s
        → Launched c.view p (entry_of_state s.fresh st) s (recover_pair r p s)
    unfolding recover_pair store_entry
    recover_pair-Launched s idle lost =
        let (idle_g, o, eg) = serves.state s.db idle in
        let g = r.get_state p s.db in
        let x = r.timer_exists p g.0 in
        let kept = c.timer_exists_reads p g.0 p ∙ c.get_state_reads p s.db p in
        let read : o ≡ some st = c.get_state_value p s.db o eg ∙ lost.state in
        let e = entry_of_state s.fresh st in
        let u = record (store_missing r p st none (record s { db = g.0 })) { db = x.0 } in
        let found : lookup (pair_key p) u.entries ≡ some e =
          rw (lookup-insert (pair_key p) (pair_key p) e s.entries, text_eq_refl (pair_key p))
            refl in
        let still : in_debounce (c.view u.db p).state ≡ true = rw (kept, lost.state) waits in
        let (idle_x, ex) = serves.expired g.0 idle_g in
        let l = (advance-Launched r c p serves e u idle_x found still).1 in
        rw (eg, read, waits, lost.entry, ex) (record { stage = l.stage; task = rw kept at l.task })

    recover_all-Polled :
        (ps : List PairId) (s : S r)
        → All IsInt64Pair ps
        → Among p ps
        → serves.idle s.db ≡ true
        → Lost c.view p st s
        → (d : ℕ) × Polled c.view p (entry_of_state d st) s (recover_all r ps s)
    unfolding recover_all
    recover_all-Polled [] s ints among idle lost = absurd among
    recover_all-Polled (q ∷ ps) s (hq, ints) among idle lost =
        let t = recover_pair r q s in
        elim (Bool-cases (text_eq (pair_key q) (pair_key p))) [
          | inl same ↦
              let own : q ≡ p =
                pair_key-injective q p hq hp ((text_eq_iff (pair_key q) (pair_key p)).0 same) in
              let l : Launched c.view p (entry_of_state s.fresh st) s t =
                rw own (recover_pair-Launched s idle lost) in
              (
                s.fresh,
                Polled-first c.view p (entry_of_state s.fresh st) s t (recover_all r ps t) l
                    (recover_all-Grows ps t),
              )
          | inr other ↦
              let ne : q ≢ p =
                λ (z : q ≡ p). ground (arith, text_eq_refl (pair_key p), ap pair_key z) in
              let (cell, entry) = recover_pair-Spared p q hp hq ne s in
              let still : Lost c.view p st t = record {
                entry = entry ∙ lost.entry;
                state = rw cell lost.state;
              } in
              let (d, b) =
                recover_all-Polled ps t ints (behind q ps ne among)
                  (recover_pair-idle r p serves.idle spares q hq ne s idle) still in
              (
                d,
                Polled-later c.view p (entry_of_state d st) s t (recover_all r ps t) cell
                    (recover_pair-Grows q s) b,
              )
        ]
      where
        behind : (q : PairId) (ps : List PairId) → q ≢ p → Among p (q ∷ ps) → Among p ps
        behind q ps ne (inl same) = absurd (ne (sym same))
        behind q ps ne (inr more) = more

    -- Recovery loses no turn that waits: when a program starts and its scan finds the pair of a turn that
    -- was being debounced, whose timer has expired and whose lock is free, in a store that then answers
    -- the calls for the pair, `Start` launches the goroutine of the AI stage, with the settings that are
    -- stored with the turn, on the joined text and the media of its buffers, whatever other pairs the
    -- scan finds and whatever the calls for these come to, as long as they leave the timer and the lock of
    -- this pair alone.
    pub start-Polled :
        (ps : List PairId) (db : r.Db) (now : ℕ)
        → (r.scan_states max_recovery_pairs db).1 ≡ ok ps
        → Among p ps
        → (c.view db p).state ≡ some st
        → serves.idle db ≡ true
        → let s = new_service r db now in
          (d : ℕ) × Polled c.view p (entry_of_state d st) s (start r s).0
    unfolding start lookup
    start-Polled ps db now scanned among state idle =
        let g = r.scan_states max_recovery_pairs db in
        let kept = c.scan_states_reads max_recovery_pairs db p in
        let s = new_service r db now in
        let t = record s { db = g.0 } in
        let lost : Lost c.view p st t = record { entry = refl; state = rw kept state } in
        let (d, b) =
          recover_all-Polled ps t (c.scan_states_pairs max_recovery_pairs db ps scanned) among
            (spares.scan max_recovery_pairs db idle) lost in
        rw (scanned, start)
          (
            d,
            Polled-later c.view p (entry_of_state d st) s t (recover_all r ps t) kept (Grows-refl s)
                b,
          )
