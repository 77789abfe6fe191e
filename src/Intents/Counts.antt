-- ===== src/Intents/Counts.antt =====
-- How the lists and the dictionary of the intent queue count.
use kis_api_trend_atr.Base.{
  ℕ, suc, ◌+◌, ◌-◌, ◌≡◌, refl, false, List, [], ◌∷◌, none, some, if◌then◌else◌, length, arith,
}
use kis_api_trend_atr.Base.Eq.{◌==◌}
use kis_api_trend_atr.Base.Dict.{Dict, lookup, lookup-insert, lookup-erase}
use kis_api_trend_atr.Base.Text.{Text, text_keyed, text_beq_iff, zfill_idem}
use kis_api_trend_atr.Intents.{
  Intent, intent_key, code_of, Entry, enqueue, is_member, discard, symbol_count, inc_symbol_count,
  dec_symbol_count,
}

-- How often a key stands in a list.
unfoldable pub occurrences : Text → List Text → ℕ
occurrences k [] = 0
occurrences k (j ∷ ks) = (if j == k then 1 else 0) + occurrences k ks

pub occurrences-discard :
    (k j : Text) (ks : List Text)
    → occurrences j (discard k ks) ≡ (if k == j then 0 else occurrences j ks)
unfolding occurrences discard
occurrences-discard k j [] = ground arith
occurrences-discard k j (i ∷ ks) =
    ground (arith, text_beq_iff k j, text_beq_iff i k, text_beq_iff i j, occurrences-discard k j ks)

pub absent_occurrences : (k : Text) (ks : List Text) → is_member k ks ≡ false → occurrences k ks ≡ 0
unfolding occurrences
absent_occurrences k [] h = refl
absent_occurrences k (j ∷ ks) h = ground (arith, absent_occurrences k ks)

-- A sum over intents.
unfoldable pub total : (Intent → ℕ) → List Intent → ℕ
total f [] = 0
total f (i ∷ is) = f i + total f is

unfoldable pub intents : List Entry → List Intent
intents [] = []
intents (e ∷ q) = e.intent ∷ intents q

pub total-enqueue :
    (f : Intent → ℕ) (e : Entry) (q : List Entry)
    → total f (intents (enqueue e q)) ≡ f e.intent + total f (intents q)
unfolding total intents enqueue
total-enqueue f e [] = refl
total-enqueue f e (g ∷ q) = ground (arith, total-enqueue f e q)

pub length-enqueue : (e : Entry) (q : List Entry) → length (enqueue e q) ≡ suc (length q)
unfolding enqueue
length-enqueue e [] = refl
length-enqueue e (g ∷ q) = ground (arith, length-enqueue e q)

-- The two indicators that the queue keeps counts of.
unfoldable pub has_key : Text → Intent → ℕ
has_key k i = if intent_key i == k then 1 else 0

unfoldable pub has_code : Text → Intent → ℕ
has_code s i = if code_of i.symbol == s then 1 else 0

-- The count of a code, as it is stored.
unfoldable pub count_of : Text → Dict Text ℕ → ℕ
count_of s counts = elim (lookup s counts) [ none ↦ 0 | some n ↦ n ]

pub count_of-inc :
    (counts : Dict Text ℕ) (i : Intent) (s : Text)
    → count_of s (inc_symbol_count counts i.symbol) ≡ has_code s i + count_of s counts
unfolding count_of inc_symbol_count has_code
count_of-inc counts i s = ground (
  arith,
  zfill_idem 6 i.symbol,
  text_beq_iff (code_of i.symbol) s,
  lookup-insert (code_of i.symbol) s (symbol_count counts (code_of i.symbol) + 1) counts,
)

pub count_of-dec :
    (counts : Dict Text ℕ) (i : Intent) (s : Text)
    → count_of s (dec_symbol_count counts i.symbol) ≡ count_of s counts - has_code s i
unfolding count_of dec_symbol_count has_code
count_of-dec counts i s = ground (
  arith,
  zfill_idem 6 i.symbol,
  text_beq_iff (code_of i.symbol) s,
  lookup-erase (code_of i.symbol) s counts,
  lookup-insert (code_of i.symbol) s (count_of (code_of i.symbol) counts - 1) counts,
)
