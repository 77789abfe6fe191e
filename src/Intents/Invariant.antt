-- ===== src/Intents/Invariant.antt =====
-- The books of the intent queue balance: what is reserved is what is queued or being worked on.
use mathlib.Core.Path.{subst, sym}
use kis_api_trend_atr.Base.{
  ℕ, ◌+◌, ◌-◌, ◌≤◌, ◌<◌, ◌≡◌, refl, ap, Bool, false, Option, none, not, ◌||◌, List, [], ◌∷◌, some,
  length, arith, Bool-cases, List-cases, Option-cases, inl, inr,
}
use kis_api_trend_atr.Base.Int.{ℤ}
use kis_api_trend_atr.Base.Dict.{lookup}
use kis_api_trend_atr.Base.Text.{Text, text_keyed, text_beq_iff}
use kis_api_trend_atr.Intents.{
  Intent, intent_key, Entry, IntentQueue, init, enqueue, is_member, remove_active, drop_oldest,
  put_nowait, reserve, give_back, at_cap, entry_of, admit,
}
use kis_api_trend_atr.Intents.Put.{
  Phase, first_try, found_full, second_try, still_full, entered, Progress, goes_on, returns,
  try_put, advance,
}
use kis_api_trend_atr.Intents.Counts.{
  occurrences, occurrences-discard, absent_occurrences, total, intents, total-enqueue,
  length-enqueue, has_key, has_code, count_of, count_of-inc, count_of-dec,
}

-- The intents in the queue and those that were taken out and not completed.
abbrev pub held : (Intent → ℕ) → IntentQueue → List Intent → ℕ
held f q taken = total f (intents q.queue) + total f taken

-- Every reserved key belongs to exactly one intent that is queued or taken, each symbol's count is
-- the number of its intents, and the queue is within its size.
pub record Books (q : IntentQueue) (taken : List Intent) : Type 0 where
  pub keys : (k : Text) → occurrences k q.active_keys ≡ held (has_key k) q taken
  pub once : (k : Text) → occurrences k q.active_keys ≤ 1
  pub symbols : (s : Text) → count_of s q.active_symbol_counts ≡ held (has_code s) q taken
  pub bounded : length q.queue ≤ q.maxsize

pub init-Books :
    (maxsize : ℤ) (authoritative : Bool) (policy : Text) (pending : ℤ)
    → Books (init maxsize authoritative policy pending) []
unfolding init occurrences total intents count_of lookup
init-Books maxsize authoritative policy pending = record {
  keys = λ k. refl;
  once = λ k. omega arith;
  symbols = λ s. refl;
  bounded = omega arith;
}

-- A reserved intent counts as taken until it is queued or given back.
pub reserve-Books :
    (q : IntentQueue) (taken : List Intent) (i : Intent)
    → is_member (intent_key i) q.active_keys ≡ false
    → Books q taken
    → Books (reserve q i) (i ∷ taken)
unfolding reserve occurrences total has_key
reserve-Books q taken i new v = record {
  keys = λ k. ground (arith, v.keys k);
  once = λ k.
      ground (arith, v.once k, text_beq_iff (intent_key i) k, absent_occurrences k q.active_keys);
  symbols = λ s. ground (arith, v.symbols s, count_of-inc q.active_symbol_counts i s);
  bounded = v.bounded;
}

pub remove_active-Books :
    (q : IntentQueue) (taken : List Intent) (i : Intent)
    → Books q (i ∷ taken)
    → Books (remove_active q i) taken
unfolding remove_active total has_key
remove_active-Books q taken i v = record {
  keys =
      λ k. ground (arith, v.keys k, v.once k, occurrences-discard (intent_key i) k q.active_keys);
  once = λ k. ground (arith, v.once k, occurrences-discard (intent_key i) k q.active_keys);
  symbols = λ s. ground (arith, v.symbols s, count_of-dec q.active_symbol_counts i s);
  bounded = v.bounded;
}

-- The queue with one more entry.
abbrev pub with_entry : IntentQueue → Entry → IntentQueue
with_entry q e = record q { queue = enqueue e q.queue; unfinished = q.unfinished + 1 }

pub put_nowait_inv :
    (q : IntentQueue) (e : Entry) {q' : IntentQueue}
    → put_nowait q e ≡ some q'
    → (with_entry q e ≡ q') × (length q.queue < q.maxsize)
unfolding put_nowait
put_nowait_inv q e h = (ground arith, ground arith)

-- Queueing a taken intent.
pub put_nowait-Books :
    (q : IntentQueue) (taken : List Intent) (e : Entry) {q' : IntentQueue}
    → Books q (e.intent ∷ taken)
    → put_nowait q e ≡ some q'
    → Books q' taken
unfolding total
put_nowait-Books q taken e v h =
    let (same, free) = put_nowait_inv q e h in
    subst (λ p. Books p taken) same
      (record {
        keys = λ k. omega (arith, v.keys k, total-enqueue (has_key k) e q.queue);
        once = v.once;
        symbols = λ s. omega (arith, v.symbols s, total-enqueue (has_code s) e q.queue);
        bounded = omega (arith, length-enqueue e q.queue);
      })

-- Taking the first entry out.
pub take_head-Books :
    (q : IntentQueue) (taken : List Intent) (e : Entry) (rest : List Entry)
    → q.queue ≡ e ∷ rest
    → Books q taken
    → Books (record q { queue = rest }) (e.intent ∷ taken)
unfolding total intents
take_head-Books q taken e rest h v = record {
  keys = λ k. omega (arith, v.keys k, ap (λ l. total (has_key k) (intents l)) h);
  once = v.once;
  symbols = λ s. omega (arith, v.symbols s, ap (λ l. total (has_code s) (intents l)) h);
  bounded = omega (arith, ap length h);
}

-- The same books, where an operation has changed other fields.
again :
    (p q : IntentQueue) (taken : List Intent)
    → p.active_keys ≡ q.active_keys
    → p.active_symbol_counts ≡ q.active_symbol_counts
    → p.queue ≡ q.queue
    → p.maxsize ≡ q.maxsize
    → Books p taken
    → Books q taken
again p q taken ks cs qs ms v = record {
  keys = λ k. ground (arith, v.keys k);
  once = λ k. ground (arith, v.once k);
  symbols = λ s. ground (arith, v.symbols s);
  bounded = ground (arith, v.bounded);
}

drop_head-Books :
    (q : IntentQueue) (taken : List Intent) (e : Entry) (rest : List Entry)
    → q.queue ≡ e ∷ rest
    → Books q taken
    → Books
        (record (remove_active q e.intent) {
          queue = rest;
          unfinished = q.unfinished - 1;
          dropped_count = q.dropped_count + 1;
        })
        taken
unfolding remove_active
drop_head-Books q taken e rest h v =
    let head_taken = take_head-Books q taken e rest h v in
    again (remove_active (record q { queue = rest }) e.intent) _ taken refl refl refl refl
      (remove_active-Books (record q { queue = rest }) taken e.intent head_taken)

drop_oldest-Books :
    (q : IntentQueue) (taken : List Intent) → Books q taken → Books (drop_oldest q).0 taken
unfolding drop_oldest
drop_oldest-Books q taken v = elim (Bool-cases (q.authoritative || not q.drops_oldest)) [
  | inl keeps ↦ rw (keeps, drop_oldest) v
  | inr drops ↦ elim (List-cases q.queue) [
    | inl e ↦ rw (drops, e, drop_oldest) v
    | inr (e, rest, h) ↦ rw (drops, h, drop_oldest) (drop_head-Books q taken e rest h v)
  ]
]

give_back-Books :
    (q : IntentQueue) (taken : List Intent) (i : Intent)
    → Books q (i ∷ taken)
    → Books (give_back q i) taken
unfolding give_back
give_back-Books q taken i v =
    again (remove_active q i) _ taken refl refl refl refl (remove_active-Books q taken i v)

-- The reservations of a call that stands there, and those of the others.
abbrev pub reserving : Phase → Intent → List Intent → List Intent
reserving entered i taken = taken
reserving _ i taken = i ∷ taken

abbrev pub reserving_after : Progress → Intent → List Intent → List Intent
reserving_after (goes_on phase) i taken = reserving phase i taken
reserving_after (returns ok) i taken = taken

try_put-Books :
    (if_full : Phase) (q : IntentQueue) (taken : List Intent) (e : Entry)
    → ((taken' : List Intent) → reserving if_full e.intent taken' ≡ e.intent ∷ taken')
    → Books q (e.intent ∷ taken)
    → let x = try_put if_full q (put_nowait q e) in Books x.0 (reserving_after x.1 e.intent taken)
unfolding try_put
try_put-Books if_full q taken e keeps v = elim (Option-cases (put_nowait q e)) [
  | inr (q', h) ↦ rw (h, try_put) (put_nowait-Books q taken e v h)
  | inl full ↦ rw (full, try_put) (subst (Books q) (sym (keeps taken)) v)
]

-- A call's next access to the queue keeps the books.
pub advance-Books :
    (phase : Phase) (i : Intent) (seq : ℕ) (q : IntentQueue) (taken : List Intent)
    → Books q (reserving phase i taken)
    → let x = advance phase i seq q in Books x.0 (reserving_after x.1 i taken)
unfolding advance entry_of
advance-Books first_try i seq q taken v =
    try_put-Books found_full q taken (entry_of seq i) (λ t. refl) v
advance-Books second_try i seq q taken v =
    try_put-Books still_full q taken (entry_of seq i) (λ t. refl) v
advance-Books still_full i seq q taken v = give_back-Books q taken i v
advance-Books entered i seq q taken v = again q _ taken refl refl refl refl v
advance-Books found_full i seq q taken v = elim (Bool-cases (drop_oldest q).1) [
  | inl drops ↦ rw drops (drop_oldest-Books q (i ∷ taken) v)
  | inr keeps ↦ rw keeps (give_back-Books q taken i v)
]

-- the reservation that the first critical section has made
abbrev pub admitted_taken : Option ℕ → Intent → List Intent → List Intent
admitted_taken none i taken = taken
admitted_taken (some seq) i taken = i ∷ taken

-- So does the first critical section.
pub admit-Books :
    (q : IntentQueue) (taken : List Intent) (i : Intent)
    → Books q taken
    → Books (admit q i).0 (admitted_taken (admit q i).1 i taken)
unfolding admit
admit-Books q taken i v = elim (Bool-cases (is_member (intent_key i) q.active_keys)) [
  | inl old ↦ rw old (again q _ taken refl refl refl refl v)
  | inr new ↦ elim (Bool-cases (at_cap q i)) [
    | inl full ↦ rw (new, full) (again q _ taken refl refl refl refl v)
    | inr room ↦ rw (new, room) (reserve-Books q taken i new v)
  ]
]
