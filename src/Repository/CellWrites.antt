-- ===== src/Repository/CellWrites.antt =====
-- The cell that Redis holds for a pair, and what the writing operations do to it.
use evo_bot_runtime.Prelude.{
  List, [], ◌∷◌, ◌++◌, Option, none, some, ok, err, ◌≡◌, map, refl, sym, arith, Result-cases,
  Option-cases, inl, inr, append-nil,
}
use mathlib.Core.List.{map-append}
use evo_bot_runtime.Prelude.Text.{Text, codes}
use evo_bot_runtime.Model.{PairId, PipelineState, Attachment}
use evo_bot_runtime.Keys.{state_key, buffer_key, attach_buffer_key, timer_key}
use evo_bot_runtime.Monad.{M}
use evo_bot_runtime.Repository.{Cell, Writes, Reads, stored, empty_cell}
use evo_bot_runtime.Repository.Redis.{
  Redis, Codec, attach_buffer_ttl, marshal_all, unmarshal_all, set_state, get_state, clear_state,
  append_to_buffer, append_attachments,
}
use evo_bot_runtime.Repository.Server.{Slot, Touches, RedisLaws, CodecLaws}
use evo_bot_runtime.Repository.Separation.{
  state_buffer, state_attach, state_timer, buffer_attach, buffer_timer, attach_timer, pairs_apart,
  not-Member,
}

unmarshal_all-append :
    {Value : Type 0} (k : Codec Value) (xs ys : List Value)
    → unmarshal_all k (xs ++ ys) ≡ unmarshal_all k xs ++ unmarshal_all k ys
unfolding unmarshal_all
unmarshal_all-append k [] ys = refl
unmarshal_all-append k (x ∷ xs) ys = ground (arith, unmarshal_all-append k xs ys)

unmarshal_all-marshal_all :
    {Value : Type 0} (k : Codec Value) (cl : CodecLaws k) (items : List Attachment)
    (bs : List Value)
    → marshal_all k items ≡ ok bs
    → unmarshal_all k bs ≡ items
unfolding unmarshal_all marshal_all
unmarshal_all-marshal_all k cl [] bs h = ground arith
unmarshal_all-marshal_all k cl (a ∷ items) bs h = elim (Result-cases (k.marshal_attachment a)) [
  | inr (x, e) ↦ absurd (ground arith)
  | inl (b, e) ↦ elim (Result-cases (marshal_all k items)) [
    | inr (x, f) ↦ absurd (ground arith)
    | inl (cs, f) ↦
        ground (arith, cl.attachment_back a b e, unmarshal_all-marshal_all k cl items cs f)
  ]
]

module _ (d : Redis) (k : Codec d.Value) (rl : RedisLaws d) (cl : CodecLaws k) where
  abbrev pub decode_state : Option d.Value → Option PipelineState
  decode_state none = none
  decode_state (some b) = elim (k.unmarshal_state b) [ ok st ↦ some st | err e ↦ none ]

  abbrev pub cell_of : Slot d.Value → Slot d.Value → Slot d.Value → Cell
  cell_of s b a = record {
    state = decode_state s.string;
    buffer = map d.to_text b.list;
    media = unmarshal_all k a.list;
  }

  -- The cell of a pair, from its three keys.
  abbrev pub view : d.Db → PairId → Cell
  view db p =
      cell_of (rl.slot db (state_key p)) (rl.slot db (buffer_key p))
        (rl.slot db (attach_buffer_key p))

  same_slots :
      (db db' : d.Db) (q : PairId)
      → rl.slot db' (state_key q) ≡ rl.slot db (state_key q)
      → rl.slot db' (buffer_key q) ≡ rl.slot db (buffer_key q)
      → rl.slot db' (attach_buffer_key q) ≡ rl.slot db (attach_buffer_key q)
      → view db' q ≡ view db q
  same_slots db db' q s b a = λ i. cell_of (s i) (b i) (a i)

  pub get_state-db : (p : PairId) (db : d.Db) → (get_state d k p db).0 ≡ (d.get (state_key p) db).0
  unfolding get_state
  get_state-db p db = ground arith

  pub get_state-value :
      (p : PairId) (db : d.Db) (o : Option PipelineState)
      → (get_state d k p db).1 ≡ ok o
      → o ≡ (view db p).state
  unfolding get_state
  get_state-value p db o h = elim (Result-cases (d.get (state_key p) db).1) [
    | inr (x, e) ↦ absurd (ground arith)
    | inl (f, e) ↦
        let v = rl.get_value (state_key p) db f e in
        elim (Option-cases f) [ inl n ↦ ground (arith, v) | inr (b, m) ↦ ground (arith, v) ]
  ]

  pub set_state-Writes :
      (p : PairId) (st : PipelineState)
      → Writes view p (λ c. record c { state = some (stored st) }) (set_state d k p st)
  unfolding set_state
  set_state-Writes p st = record {
    here = λ db h. elim (Result-cases (k.marshal_state st)) [
      | inr (x, e) ↦ absurd (ground arith)
      | inl (b, e) ↦
          let key = state_key p in
          let set = d.set key b 0 db in
          let put : set.1 ≡ ok tt = ground arith in
          ground (
            arith,
            rl.set_here key b 0 db put,
            cl.state_back st b e,
            rl.set_touches key b 0 db (buffer_key p) (λ q. state_buffer p p (sym q)),
            rl.set_touches key b 0 db (attach_buffer_key p) (λ q. state_attach p p (sym q)),
          )
    ];
    elsewhere = λ db q hp hq ne. elim (Result-cases (k.marshal_state st)) [
      | inr (x, e) ↦ ground arith
      | inl (b, e) ↦
          let key = state_key p in
          ground (
            arith,
            rl.set_touches key b 0 db (state_key q)
                (pairs_apart (codes "state") p q (omega arith) hp hq ne),
            rl.set_touches key b 0 db (buffer_key q) (λ y. state_buffer p q (sym y)),
            rl.set_touches key b 0 db (attach_buffer_key q) (λ y. state_attach p q (sym y)),
          )
    ];
  }

  pub clear_state-Writes : (p : PairId) → Writes view p (λ c. empty_cell) (clear_state d k p)
  unfolding clear_state unmarshal_all
  clear_state-Writes p =
      let keys = state_key p ∷ buffer_key p ∷ attach_buffer_key p ∷ timer_key p ∷ [] in
      record {
        here = λ db h. ground (
          arith,
          rl.del_here keys (state_key p) db (inl refl) h,
          rl.del_here keys (buffer_key p) db (inr (inl refl)) h,
          rl.del_here keys (attach_buffer_key p) db (inr (inr (inl refl))) h,
        );
        elsewhere = λ db q hp hq ne.
            same_slots db (d.del keys db).0 q
              (rl.del_touches keys db (state_key q) (
                not-Member (pairs_apart (codes "state") p q (omega arith) hp hq ne)
                  (state_buffer q p) (state_attach q p) (state_timer q p)))
              (rl.del_touches keys db (buffer_key q) (
                not-Member (λ y. state_buffer p q (sym y))
                  (pairs_apart (codes "buffer") p q (omega arith) hp hq ne) (buffer_attach q p)
                  (buffer_timer q p)))
              (rl.del_touches keys db (attach_buffer_key q) (
                not-Member (λ y. state_attach p q (sym y)) (λ y. buffer_attach p q (sym y))
                  (pairs_apart (codes "attach") p q (omega arith) hp hq ne) (attach_timer q p)));
      }

  pub append_to_buffer-Writes :
      (p : PairId) (t : Text)
      → Writes view p (λ c. record c { buffer = c.buffer ++ (t ∷ []) }) (append_to_buffer d k p t)
  unfolding append_to_buffer
  append_to_buffer-Writes p t =
      let key = buffer_key p in
      record {
        here = λ db h. ground (
          arith,
          rl.rpush_here key (d.of_text t ∷ []) db h,
          rl.text_back t,
          map-append d.to_text (rl.slot db key).list (d.of_text t ∷ []),
          rl.rpush_touches key (d.of_text t ∷ []) db (state_key p) (state_buffer p p),
          rl.rpush_touches key (d.of_text t ∷ []) db (attach_buffer_key p)
              (λ q. buffer_attach p p (sym q)),
        );
        elsewhere = λ db q hp hq ne. ground (
          arith,
          rl.rpush_touches key (d.of_text t ∷ []) db (state_key q) (state_buffer q p),
          rl.rpush_touches key (d.of_text t ∷ []) db (buffer_key q)
              (pairs_apart (codes "buffer") p q (omega arith) hp hq ne),
          rl.rpush_touches key (d.of_text t ∷ []) db (attach_buffer_key q)
              (λ y. buffer_attach p q (sym y)),
        );
      }

  -- Reads and other commands that touch none of the three keys.
  pub leaves_view :
      {A : Type 0} (Keys : Text → Type 0) (call : M d.Db A)
      → Touches rl.slot Keys call
      → ((q : PairId) → ¬ (Keys (state_key q)))
      → ((q : PairId) → ¬ (Keys (buffer_key q)))
      → ((q : PairId) → ¬ (Keys (attach_buffer_key q)))
      → Reads view call
  leaves_view Keys call touches s b a db q =
      same_slots db (call db).0 q (touches db (state_key q) (s q)) (touches db (buffer_key q) (b q))
        (touches db (attach_buffer_key q) (a q))

  pub append_attachments-Writes :
      (p : PairId) (items : List Attachment)
      → Writes view p (λ c. record c { media = c.media ++ items }) (append_attachments d k p items)
  unfolding append_attachments
  append_attachments-Writes p [] = record {
    here = λ db h. ground (arith, append-nil (view db p).media);
    elsewhere = λ db q hp hq ne. refl;
  }
  append_attachments-Writes p (a ∷ rest) =
      let key = attach_buffer_key p in
      elim (Result-cases (marshal_all k (a ∷ rest))) [
        | inr (x, e) ↦ record {
          here = λ db h. absurd (ground arith);
          elsewhere = λ db q hp hq ne. ground arith;
        }
        | inl (bs, e) ↦ record {
          here = λ db h.
              let push = d.rpush key bs db in
              let pushed : push.1 ≡ ok tt = ground arith in
              let still = λ (j : Text). rl.expire_touches key attach_buffer_ttl push.0 j (λ z. z) in
              ground (
                arith,
                rl.rpush_here key bs db pushed,
                still (state_key p),
                still (buffer_key p),
                still key,
                rl.rpush_touches key bs db (state_key p) (state_attach p p),
                rl.rpush_touches key bs db (buffer_key p) (buffer_attach p p),
                unmarshal_all-append k (rl.slot db key).list bs,
                unmarshal_all-marshal_all k cl (a ∷ rest) bs e,
              );
          elsewhere = λ db q hp hq ne.
              let push = d.rpush key bs db in
              let still = λ (j : Text). rl.expire_touches key attach_buffer_ttl push.0 j (λ z. z) in
              ground (
                arith,
                still (state_key q),
                still (buffer_key q),
                still (attach_buffer_key q),
                rl.rpush_touches key bs db (state_key q) (state_attach q p),
                rl.rpush_touches key bs db (buffer_key q) (buffer_attach q p),
                rl.rpush_touches key bs db (attach_buffer_key q)
                    (pairs_apart (codes "attach") p q (omega arith) hp hq ne),
              );
        }
      ]
