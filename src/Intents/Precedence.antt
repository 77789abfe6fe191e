-- ===== src/Intents/Precedence.antt =====
-- Which intent comes first (kis_trend_atr_trading/engine/pullback_pipeline_stores.py): by time, by the
-- strategy's rank, by number; and that putting an entry in keeps a queue sorted.
use mathlib.Core.Path.{subst}
use kis_api_trend_atr.Base.{
  ℕ, suc, ◌<◌, ◌≡◌, ◌≢◌, refl, true, false, not, ◌&&◌, ◌||◌, ◌⊎◌, Option, none, List, [], ◌∷◌, some,
  arith, All, Bool-cases, inl, inr, if◌then◌else◌, ltb, eqb,
}
use kis_api_trend_atr.Base.Eq.{◌==◌}
use kis_api_trend_atr.Base.Text.{Text, codes, strip, text_keyed}
use kis_api_trend_atr.Intents.{
  Intent, Entry, strategy_rank, is_before, comes_first, enqueue, entry_of,
}

-- Nothing in the queue comes before an entry that stands in front of it.
abbrev pub IsSorted : List Entry → Type 0
IsSorted [] = Unit
IsSorted (e ∷ q) = All (λ f. comes_first f e ≡ false) q × IsSorted q

comes_first-asymm : (e f : Entry) → comes_first e f ≡ true → comes_first f e ≡ false
unfolding comes_first
comes_first-asymm e f h = ground arith

-- What is not before `f` is not before anything that `f` is behind.
comes_first_trans :
    (e f g : Entry) → comes_first e f ≡ true → comes_first g f ≡ false → comes_first g e ≡ false
unfolding comes_first
comes_first_trans e f g h k = ground arith

All-later :
    (e f : Entry) (q : List Entry)
    → comes_first e f ≡ true
    → All (λ g. comes_first g f ≡ false) q
    → All (λ g. comes_first g e ≡ false) q
All-later e f [] h a = tt
All-later e f (g ∷ q) h (a, as') = (comes_first_trans e f g h a, All-later e f q h as')

pub All-enqueue :
    (P : Entry → Type 0) (e : Entry) (q : List Entry) → P e → All P q → All P (enqueue e q)
unfolding enqueue
All-enqueue P e [] p a = (p, tt)
All-enqueue P e (f ∷ q) p (a, as') = elim (Bool-cases (comes_first e f)) [
  | inl h ↦ rw h (p, (a, as'))
  | inr h ↦ rw h (a, All-enqueue P e q p as')
]

-- A put keeps the queue in order.
pub enqueue-IsSorted : (e : Entry) (q : List Entry) → IsSorted q → IsSorted (enqueue e q)
unfolding enqueue
enqueue-IsSorted e [] s = (tt, tt)
enqueue-IsSorted e (f ∷ q) (a, s) = elim (Bool-cases (comes_first e f)) [
  | inl h ↦ rw h ((comes_first-asymm e f h, All-later e f q h a), (a, s))
  | inr h ↦ rw h (All-enqueue (λ g. comes_first g f ≡ false) e q h a, enqueue-IsSorted e q s)
]

-- An entry is made of its number and its intent.
abbrev pub IsMade : Entry → Type 0
IsMade e = e ≡ entry_of e.seq e.intent

-- the strategies that have a rank, the first first; all others come after them
abbrev pub ranked : List Text
ranked = codes "pullback_rebreakout" ∷ codes "trend_atr" ∷ codes "opening_range_breakout" ∷ []

abbrev pub position : Text → List Text → ℕ
position tag [] = 0
position tag (t ∷ ts) = if tag == t then 0 else suc (position tag ts)

abbrev pub rank_of : Intent → ℕ
rank_of i = position (strip i.strategy_tag) ranked

-- a time is earlier than a later one, and than none at all
abbrev pub IsEarlier : Option ℕ → Option ℕ → Type 0
IsEarlier a b = (x : ℕ) × (a ≡ some x) × ((b ≡ none) ⊎ ((y : ℕ) × (b ≡ some y) × (x < y)))

-- An intent with its number comes before another: by time, then by rank, then by number.
abbrev pub Precedes : Intent → ℕ → Intent → ℕ → Type 0
Precedes i m j n =
    IsEarlier i.created_at j.created_at
    ⊎ ((i.created_at ≡ j.created_at) × (rank_of i < rank_of j))
    ⊎ ((i.created_at ≡ j.created_at) × (rank_of i ≡ rank_of j) × (m < n))

strategy_rank-position :
    (i j : Intent)
    → (ltb (strategy_rank i.strategy_tag) (strategy_rank j.strategy_tag)
        ≡ ltb (rank_of i) (rank_of j))
      × (eqb (strategy_rank i.strategy_tag) (strategy_rank j.strategy_tag)
          ≡ eqb (rank_of i) (rank_of j))
unfolding strategy_rank
strategy_rank-position i j = (ground arith, ground arith)

-- by rank and number, where the times are the same
by_rank :
    (r q m n : ℕ)
    → (ltb q r || (eqb q r && ltb n m)) ≡ false
    → n ≢ m
    → (r < q) ⊎ ((r ≡ q) × (m < n))
by_rank r q m n h other = elim (Bool-cases (ltb r q)) [
  | inl lower ↦ inl (ground arith)
  | inr not_lower ↦ inr (ground arith, grind arith)
]

by_keys :
    (a b : Option ℕ) (r q m n : ℕ)
    → (is_before b a || (not (is_before a b) && (ltb q r || (eqb q r && ltb n m)))) ≡ false
    → n ≢ m
    → IsEarlier a b ⊎ ((a ≡ b) × (r < q)) ⊎ ((a ≡ b) × (r ≡ q) × (m < n))
by_keys none none r q m n h other = elim (by_rank r q m n h other) [
  | inl lower ↦ inr (inl (refl, lower))
  | inr (same, first) ↦ inr (inr (refl, same, first))
]
by_keys none (some y) r q m n h other = absurd (cc)
by_keys (some x) none r q m n h other = inl (x, refl, inl refl)
by_keys (some x) (some y) r q m n h other = elim (Bool-cases (ltb x y)) [
  | inl earlier ↦ inl (x, refl, inr (y, refl, ground arith))
  | inr later ↦
      let same : some x ≡ some y = ground arith in
      elim (by_rank r q m n (ground arith) other) [
        | inl lower ↦ inr (inl (same, lower))
        | inr (level, first) ↦ inr (inr (same, level, first))
      ]
]

made_precede :
    (i j : Intent) (m n : ℕ)
    → comes_first (entry_of n j) (entry_of m i) ≡ false
    → n ≢ m
    → Precedes i m j n
unfolding comes_first entry_of
made_precede i j m n h other =
    let (less, same) = strategy_rank-position j i in
    by_keys i.created_at j.created_at (rank_of i) (rank_of j) m n (rw (less, same) at h) other

pub precedes_lem :
    (e f : Entry)
    → IsMade e
    → IsMade f
    → comes_first f e ≡ false
    → f.seq ≢ e.seq
    → Precedes e.intent e.seq f.intent f.seq
precedes_lem e f me mf h other =
    made_precede e.intent f.intent e.seq f.seq
      (subst (λ g. comes_first g (entry_of e.seq e.intent) ≡ false) mf
        (subst (λ g. comes_first f g ≡ false) me h))
      other
