-- ===== src/Service/Contexts.antt =====
-- The contexts of the entries, and the operations on the map of entries as changes of them.
use evo_bot_runtime.Prelude.{
  ℕ, suc, ◌<◌, ◌≤◌, Bool, false, List, [], ◌∷◌, some, ◌≡◌, ◌≢◌, sym, arith, inl, inr, Bool-cases,
  All,
}
use evo_bot_runtime.Prelude.Text.{Text, text_eq, text_eq_refl, text_eq_iff}
use evo_bot_runtime.Prelude.Assoc.{lookup, insert, erase}
use evo_bot_runtime.Model.{PairId}
use evo_bot_runtime.Keys.{pair_key}
use evo_bot_runtime.Keys.RoundTrip.{IsInt64Pair}
use evo_bot_runtime.Service.State.{Entry, mark}

-- Each entry has a context that was made, and no other entry has it.
abbrev pub OwnContext : ℕ → List (Text × Entry) → Type 0
OwnContext d = All (λ (k, e). e.ctx ≢ d)

abbrev pub Distinct : ℕ → List (Text × Entry) → Type 0
Distinct n [] = Unit
Distinct n ((k, e) ∷ m) = (e.ctx < n) × OwnContext e.ctx m × Distinct n m

erase-OwnContext :
    (k : Text) (d : ℕ) (m : List (Text × Entry)) → OwnContext d m → OwnContext d (erase k m)
unfolding erase
erase-OwnContext k d [] h = tt
erase-OwnContext k d ((j, e) ∷ m) (h, hs) = ground (arith, erase-OwnContext k d m hs)

-- The key is that of a pair of int64 ids.
abbrev pub IsPairKey : Text → Type 0
IsPairKey k = (q : PairId) × IsInt64Pair q × (k ≡ pair_key q)

-- The entries are those of pairs of int64 ids.
abbrev pub Keyed : List (Text × Entry) → Type 0
Keyed = All (λ x. IsPairKey x.0)

erase-Keyed : (k : Text) (m : List (Text × Entry)) → Keyed m → Keyed (erase k m)
unfolding erase
erase-Keyed k [] h = tt
erase-Keyed k ((j, e) ∷ m) (h, hs) = elim (Bool-cases (text_eq j k)) [
  | inl same ↦ rw same (erase-Keyed k m hs)
  | inr other ↦ rw other (h, erase-Keyed k m hs)
]

-- What every state reached by the service keeps of its entries and contexts.
pub record Inv (m : List (Text × Entry)) (f : ℕ → Bool) (n : ℕ) (stopped : Bool) : Type 0 where
  pub distinct : Distinct n m
  pub live : stopped ≡ false → All (λ (k, e). f e.ctx ≡ false) m
  pub unmade : (d : ℕ) → n ≤ d → f d ≡ false
  pub keyed : Keyed m

abbrev Live : (ℕ → Bool) → List (Text × Entry) → Type 0
Live f = All (λ (k, e). f e.ctx ≡ false)

Distinct-suc : (n : ℕ) (m : List (Text × Entry)) → Distinct n m → Distinct (suc n) m
Distinct-suc n [] h = tt
Distinct-suc n ((k, e) ∷ m) (h, o, hs) = (omega arith, o, Distinct-suc n m hs)

pub Distinct-OwnContext : (n : ℕ) (m : List (Text × Entry)) → Distinct n m → OwnContext n m
Distinct-OwnContext n [] h = tt
Distinct-OwnContext n ((k, e) ∷ m) (h, o, hs) = (omega arith, Distinct-OwnContext n m hs)

erase-Distinct :
    (k : Text) (n : ℕ) (m : List (Text × Entry)) → Distinct n m → Distinct n (erase k m)
unfolding erase
erase-Distinct k n [] h = tt
erase-Distinct k n ((j, e) ∷ m) (h, o, hs) = elim (Bool-cases (text_eq j k)) [
  | inl same ↦ rw same (erase-Distinct k n m hs)
  | inr other ↦ rw other (h, erase-OwnContext k e.ctx m o, erase-Distinct k n m hs)
]

erase-Live : (k : Text) (f : ℕ → Bool) (m : List (Text × Entry)) → Live f m → Live f (erase k m)
unfolding erase
erase-Live k f [] h = tt
erase-Live k f ((j, e) ∷ m) (h, hs) = elim (Bool-cases (text_eq j k)) [
  | inl same ↦ rw same (erase-Live k f m hs)
  | inr other ↦ rw other (h, erase-Live k f m hs)
]

-- Cancelling a context leaves the entries with another context live.
mark-Live :
    (f : ℕ → Bool) (c : ℕ) (m : List (Text × Entry)) → OwnContext c m → Live f m → Live (mark f c) m
mark-Live f c [] o h = tt
mark-Live f c ((k, e) ∷ m) (o, os) (h, hs) = (ground arith, mark-Live f c m os hs)

lookup-OwnContext :
    (k : Text) (d : ℕ) (m : List (Text × Entry)) (e : Entry)
    → OwnContext d m
    → lookup k m ≡ some e
    → e.ctx ≢ d
unfolding lookup
lookup-OwnContext k d [] e o h = absurd (cc h)
lookup-OwnContext k d ((j, x) ∷ m) e (o, os) h = elim (Bool-cases (text_eq j k)) [
  | inl same ↦ let q : x ≡ e = ground arith in rw (← q) o
  | inr other ↦ lookup-OwnContext k d m e os (ground arith)
]

-- Once the entry that is found is erased, no entry has its context.
pub erase_found-OwnContext :
    (k : Text) (n : ℕ) (m : List (Text × Entry)) (e : Entry)
    → Distinct n m
    → lookup k m ≡ some e
    → OwnContext e.ctx (erase k m)
unfolding lookup erase
erase_found-OwnContext k n [] e d h = tt
erase_found-OwnContext k n ((j, x) ∷ m) e (l, o, d) h = elim (Bool-cases (text_eq j k)) [
  | inl same ↦ let q : x ≡ e = ground arith in rw same (rw (← q) (erase-OwnContext k x.ctx m o))
  | inr other ↦
      let found : lookup k m ≡ some e = ground arith in
      rw other
        (λ y. lookup-OwnContext k x.ctx m e o found (sym y), erase_found-OwnContext k n m e d found)
]

pub store-Inv :
    (k : Text) (e : Entry) (m : List (Text × Entry)) (f : ℕ → Bool) (n : ℕ) (b : Bool)
    → e.ctx ≡ n
    → IsPairKey k
    → Inv m f n b
    → Inv (insert k e m) f (suc n) b
unfolding insert
store-Inv k e m f n b q own i = record {
  distinct = (
    omega arith,
    rw q (erase-OwnContext k n m (Distinct-OwnContext n m i.distinct)),
    Distinct-suc n (erase k m) (erase-Distinct k n m i.distinct),
  );
  live = λ z. (rw q (i.unmade n (omega arith)), erase-Live k f m (i.live z));
  unmade = λ d h. i.unmade d (omega arith);
  keyed = (own, erase-Keyed k m i.keyed);
}

pub erase-Inv :
    (k : Text) (m : List (Text × Entry)) (f : ℕ → Bool) (n : ℕ) (b : Bool)
    → Inv m f n b
    → Inv (erase k m) f n b
erase-Inv k m f n b i = record {
  distinct = erase-Distinct k n m i.distinct;
  live = λ z. erase-Live k f m (i.live z);
  unmade = i.unmade;
  keyed = erase-Keyed k m i.keyed;
}

pub cancel-Inv :
    (m : List (Text × Entry)) (f : ℕ → Bool) (n c : ℕ) (b : Bool)
    → OwnContext c m
    → c < n
    → Inv m f n b
    → Inv m (mark f c) n b
cancel-Inv m f n c b o lt i = record {
  distinct = i.distinct;
  live = λ z. mark-Live f c m o (i.live z);
  unmade = λ d h. ground (arith, i.unmade d h);
  keyed = i.keyed;
}

pub lookup-Live :
    (k : Text) (f : ℕ → Bool) (m : List (Text × Entry)) (e : Entry)
    → Live f m
    → lookup k m ≡ some e
    → f e.ctx ≡ false
unfolding lookup
lookup-Live k f [] e d h = absurd (cc h)
lookup-Live k f ((j, x) ∷ m) e (l, d) h = elim (Bool-cases (text_eq j k)) [
  | inl same ↦ let q : x ≡ e = ground arith in rw (← q) l
  | inr other ↦ lookup-Live k f m e d (ground arith)
]

pub lookup-Distinct :
    (k : Text) (n : ℕ) (m : List (Text × Entry)) (e : Entry)
    → Distinct n m
    → lookup k m ≡ some e
    → e.ctx < n
unfolding lookup
lookup-Distinct k n [] e d h = absurd (cc h)
lookup-Distinct k n ((j, x) ∷ m) e (l, o, d) h = elim (Bool-cases (text_eq j k)) [
  | inl same ↦ let q : x ≡ e = ground arith in rw (← q) l
  | inr other ↦ lookup-Distinct k n m e d (ground arith)
]

pub erase-insert-OwnContext :
    (k : Text) (e : Entry) (n : ℕ) (m : List (Text × Entry))
    → OwnContext n m
    → OwnContext n (erase k (insert k e m))
unfolding insert erase
erase-insert-OwnContext k e n m o =
    rw (text_eq_refl k) (erase-OwnContext k n (erase k m) (erase-OwnContext k n m o))

-- The entries of two keys have different contexts.
pub lookup-differs :
    (j k : Text) (n : ℕ) (m : List (Text × Entry)) (x y : Entry)
    → Distinct n m
    → text_eq j k ≡ false
    → lookup j m ≡ some x
    → lookup k m ≡ some y
    → x.ctx ≢ y.ctx
unfolding lookup
lookup-differs j k n [] x y d other f g = absurd (cc f)
lookup-differs j k n ((i, z) ∷ m) x y (l, o, d) other f g = elim (Bool-cases (text_eq i j)) [
  | inl at_j ↦ elim (Bool-cases (text_eq i k)) [
    | inl at_k ↦ absurd (ground (arith, text_eq_iff i j, text_eq_iff i k, text_eq_refl i))
    | inr not_k ↦
        let first : z ≡ x = cc (rw at_j at f) in
        let found : lookup k m ≡ some y = rw not_k at g in
        rw (← first) (λ e. lookup-OwnContext k z.ctx m y o found (sym e))
  ]
  | inr not_j ↦ elim (Bool-cases (text_eq i k)) [
    | inl at_k ↦
        let first : z ≡ y = cc (rw at_k at g) in
        rw (← first) (lookup-OwnContext j z.ctx m x o (rw not_j at f))
    | inr not_k ↦ lookup-differs j k n m x y d other (rw not_j at f) (rw not_k at g)
  ]
]
