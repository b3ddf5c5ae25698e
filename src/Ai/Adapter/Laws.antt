-- ===== src/Ai/Adapter/Laws.antt =====
-- What the attempts of a call post, and how long they take.
use evo_bot_runtime.Prelude.{
  ℕ, zero, suc, ◌+◌, ◌≤◌, List, [], ◌∷◌, ◌++◌, ok, ◌≡◌, refl, sym, ap, ◌∙◌, arith, ◌⊎◌, inl, inr,
  Result-cases, append-nil, append_assoc,
}
use evo_bot_runtime.Prelude.Text.{Text}
use evo_bot_runtime.Ai.Wire.{A2aRequest}
use evo_bot_runtime.Ai.Files.{Platform}
use evo_bot_runtime.Ai.Request.{build_request}
use evo_bot_runtime.Ai.Retry.{Adapter, call}
use evo_bot_runtime.Ai.Retry.Laws.{Ledger, call-ledger}
use evo_bot_runtime.Ai.Retry.Rule.{Keeps, call-Keeps}
use evo_bot_runtime.Ai.Adapter.{Sender, network_of, call_ai}

-- A POST to the AI service.
pub record Sent : Type 0 where
  pub url : Text
  pub api_key : Text
  pub body : List ℕ

abbrev pub replicate : ℕ → Sent → List Sent
replicate zero x = []
replicate (suc k) x = x ∷ replicate k x

-- The posts that a sender made; nothing but `post` makes one.
pub record SenderLaws (n : Sender) : Type 0 where
  pub sent : n.World → List Sent
  pub post_sends :
      (url api_key : Text) (body : List ℕ) (w : n.World)
      → sent (n.post url api_key body w).0
        ≡ sent w ++ (record { url = url; api_key = api_key; body = body } ∷ [])
  pub random_sends : (k : ℕ) (w : n.World) → sent (n.random k w).0 ≡ sent w
  pub wait_sends : (d : ℕ) (w : n.World) → sent (n.wait d w).0 ≡ sent w

replicate-snoc : (k : ℕ) (x : Sent) → replicate k x ++ (x ∷ []) ≡ x ∷ replicate k x
replicate-snoc zero x = refl
replicate-snoc (suc k) x = ap (λ (z : List Sent). x ∷ z) (replicate-snoc k x)

-- Some number of posts of one request, as many as the ledger counts.
abbrev Repeated :
    (n : Sender) (l : SenderLaws n) (req : A2aRequest) (body : List ℕ)
    → Ledger (network_of n req body)
    → n.World
    → n.World
    → Type 0
Repeated n l req body g w u =
    (k : ℕ) × (l.sent u
      ≡ l.sent w
        ++ replicate k (record { url = req.outgoing_url; api_key = req.api_key; body = body }))
    × (g.posts u ≡ g.posts w + k)

module _ (n : Sender) (l : SenderLaws n) (req : A2aRequest) (body : List ℕ)
    (g : Ledger (network_of n req body)) where
  abbrev posted : Sent
  posted = record { url = req.outgoing_url; api_key = req.api_key; body = body }

  Repeated-Keeps : (w : n.World) → Keeps (network_of n req body) (Repeated n l req body g w)
  Repeated-Keeps w = record {
    exchange = λ u (k, e, c). (
      suc k,
      l.post_sends req.outgoing_url req.api_key body u
          ∙ ap (λ (z : List Sent). z ++ (posted ∷ [])) e
          ∙ append_assoc (l.sent w) (replicate k posted) (posted ∷ [])
          ∙ ap (λ (z : List Sent). l.sent w ++ z) (replicate-snoc k posted),
      omega (arith, g.exchange_posts u, c),
    );
    random = λ d u (k, e, c). (k, l.random_sends d u ∙ e, g.random_posts d u ∙ c);
    wait = λ d u (k, e, c). (k, l.wait_sends d u ∙ e, g.wait_posts d u ∙ c);
  }

  call-Repeated :
      (a : Adapter) (w : n.World) → Repeated n l req body g w (call (network_of n req body) a w).0
  call-Repeated a w =
      call-Keeps (network_of n req body) (Repeated n l req body g w) (Repeated-Keeps w) a w
        (0, sym (append-nil (l.sent w)), omega arith)

-- What a call posts: nothing if its request has no body, and otherwise that body, to the address of the
-- request with its key.
abbrev pub Posts :
    (f : Platform) (n : Sender) (l : SenderLaws n) (env : Text) (a : Adapter) (req : A2aRequest)
    → f.World
    → n.World
    → n.World
    → Type 0
Posts f n l env a req wf wn u =
    (l.sent u ≡ l.sent wn)
    ⊎ ((body : List ℕ) × (k : ℕ) × (n.marshal (build_request f env req wf).1 ≡ ok body)
        × (k ≤ a.max_retries + 1)
        × (l.sent u
            ≡ l.sent wn
              ++ replicate k
                  (record { url = req.outgoing_url; api_key = req.api_key; body = body })))

-- All the attempts of a call post one and the same body, which is made once from the downloaded media,
-- to the address and with the key of the request, at most once more than there are retries.
pub call_ai-Posts :
    (f : Platform) (n : Sender) (l : SenderLaws n)
    (ledger : (req : A2aRequest) (body : List ℕ) → Ledger (network_of n req body)) (env : Text)
    (a : Adapter) (req : A2aRequest) (wf : f.World) (wn : n.World)
    → Posts f n l env a req wf wn (call_ai f n env a req wf wn).1
unfolding call_ai
call_ai-Posts f n l ledger env a req wf wn =
    elim (Result-cases (n.marshal (build_request f env req wf).1)) [
      | inr (x, e) ↦ inl (rw e refl)
      | inl (body, e) ↦
          let (k, sent, count) = call-Repeated n l req body (ledger req body) a wn in
          let most = (call-ledger (network_of n req body) (ledger req body) a wn).0 in
          inr (body, k, e, omega (arith, count, most), rw e sent)
    ]
