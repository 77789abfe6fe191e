-- ===== src/Intents/Admission.antt =====
-- The threads of the intent queue (kis_trend_atr_trading/engine/pullback_pipeline_stores.py): their steps
-- in any order, and what holds of the queue at every time.
use mathlib.Core.Path.{subst, sym}
use kis_api_trend_atr.Base.{
  ℕ, ◌+◌, ◌≤◌, ◌≡◌, refl, ◌∙◌, Bool, Option, none, some, List, [], ◌∷◌, ◌++◌, length, arith,
  List-cases, inl, inr,
}
use kis_api_trend_atr.Base.Int.{ℤ}
use kis_api_trend_atr.Base.Text.{Text}
use kis_api_trend_atr.Intents.{
  Intent, Entry, IntentQueue, init, remove_active, admit, get, task_done,
}
use kis_api_trend_atr.Intents.Put.{
  Phase, first_try, entered, found_full, second_try, still_full, Putting, Progress, goes_on,
  returns, advance,
}
use kis_api_trend_atr.Intents.Counts.{total, has_key, has_code}
use kis_api_trend_atr.Intents.Invariant.{
  held, reserving, reserving_after, admitted_taken, Books, init-Books, admit-Books, advance-Books,
  take_head-Books, remove_active-Books,
}

-- The queue, the calls of `put_if_absent` under way, and the intents that were taken out of the queue and
-- are being worked on.
pub record System : Type 0 where
  pub queue : IntentQueue
  pub putting : List Putting
  pub taken : List Intent

-- One access to the shared state by any thread: a call of `put_if_absent` begins or goes on, `get` takes
-- an intent, `complete` gives its reservation back and, some time after, reports it done. A drop is one
-- step, though others may use the queue between its two halves: the first is of the queue alone and the
-- second of the reservations alone, which nobody else has access to then.
pub data Step : System → System → Type 0 where
  refuse :
      (s : System) (i : Intent) (q : IntentQueue)
      → admit s.queue i ≡ (q, none)
      → Step s (record s { queue = q })
  begin :
      (s : System) (i : Intent) (seq : ℕ) (q : IntentQueue)
      → admit s.queue i ≡ (q, some seq)
      → Step s (record s {
        queue = q;
        putting = record { intent = i; seq = seq; phase = first_try } ∷ s.putting;
      })
  go_on :
      (q : IntentQueue) (before : List Putting) (p : Putting) (after : List Putting)
      (taken : List Intent) (q' : IntentQueue) (phase : Phase)
      → advance p.phase p.intent p.seq q ≡ (q', goes_on phase)
      → Step
          (record { queue = q; putting = before ++ p ∷ after; taken = taken })
          (record {
            queue = q';
            putting = before ++ record p { phase = phase } ∷ after;
            taken = taken;
          })
  end :
      (q : IntentQueue) (before : List Putting) (p : Putting) (after : List Putting)
      (taken : List Intent) (q' : IntentQueue) (ok : Bool)
      → advance p.phase p.intent p.seq q ≡ (q', returns ok)
      → Step
          (record { queue = q; putting = before ++ p ∷ after; taken = taken })
          (record { queue = q'; putting = before ++ after; taken = taken })
  take :
      (s : System) (i : Intent) (q : IntentQueue)
      → get s.queue ≡ some (i, q)
      → Step s (record s { queue = q; taken = i ∷ s.taken })
  give_up :
      (q : IntentQueue) (putting : List Putting) (before : List Intent) (i : Intent)
      (after : List Intent)
      → Step
          (record { queue = q; putting = putting; taken = before ++ i ∷ after })
          (record { queue = remove_active q i; putting = putting; taken = before ++ after })
  report_done : (s : System) → Step s (record s { queue = (task_done s.queue).0 })

pub data Reach (s : System) : System → Type 0 where
  here : Reach s s
  next : {t u : System} → Reach s t → Step t u → Reach s u

-- the reservations of the calls under way, before some others
unfoldable pub reserved : List Putting → List Intent → List Intent
reserved [] taken = taken
reserved (p ∷ putting) taken = reserving p.phase p.intent (reserved putting taken)

module _ (f : Intent → ℕ) where
  total-reserving :
      (phase : Phase) (i : Intent) (xs : List Intent)
      → total f (reserving phase i xs) ≡ total f (reserving phase i []) + total f xs
  unfolding total
  total-reserving first_try i xs = omega arith
  total-reserving found_full i xs = omega arith
  total-reserving second_try i xs = omega arith
  total-reserving still_full i xs = omega arith
  total-reserving entered i xs = omega arith

  -- A call's reservation counts wherever the call stands in the list.
  total-reserved :
      (before : List Putting) (p : Putting) (after : List Putting) (taken : List Intent)
      → total f (reserved (before ++ p ∷ after) taken)
        ≡ total f (reserving p.phase p.intent (reserved (before ++ after) taken))
  unfolding reserved
  total-reserved [] p after taken = refl
  total-reserved (b ∷ before) p after taken = omega (
    arith,
    total-reserved before p after taken,
    total-reserving b.phase b.intent (reserved (before ++ p ∷ after) taken),
    total-reserving b.phase b.intent (reserved (before ++ after) taken),
    total-reserving p.phase p.intent (reserved (before ++ after) taken),
    total-reserving p.phase p.intent
        (reserving b.phase b.intent (reserved (before ++ after) taken)),
  )

  total-taken :
      (before : List Intent) (i : Intent) (after : List Intent)
      → total f (before ++ i ∷ after) ≡ total f (i ∷ (before ++ after))
  unfolding total
  total-taken [] i after = refl
  total-taken (b ∷ before) i after = omega (arith, total-taken before i after)

  total-reserved_taken :
      (putting : List Putting) (xs ys : List Intent)
      → total f xs ≡ total f ys
      → total f (reserved putting xs) ≡ total f (reserved putting ys)
  unfolding reserved
  total-reserved_taken [] xs ys e = e
  total-reserved_taken (p ∷ putting) xs ys e = omega (
    arith,
    total-reserved_taken putting xs ys e,
    total-reserving p.phase p.intent (reserved putting xs),
    total-reserving p.phase p.intent (reserved putting ys),
  )

  total-reserved_head :
      (putting : List Putting) (i : Intent) (xs : List Intent)
      → total f (reserved putting (i ∷ xs)) ≡ total f (i ∷ reserved putting xs)
  unfolding reserved total
  total-reserved_head [] i xs = refl
  total-reserved_head (p ∷ putting) i xs = omega (
    arith,
    total-reserved_head putting i xs,
    total-reserving p.phase p.intent (reserved putting (i ∷ xs)),
    total-reserving p.phase p.intent (reserved putting xs),
  )

-- The books depend on the sums alone.
moved :
    (q : IntentQueue) (xs ys : List Intent)
    → ((f : Intent → ℕ) → total f xs ≡ total f ys)
    → Books q xs
    → Books q ys
moved q xs ys same v = record {
  keys = λ k. omega (arith, v.keys k, same (has_key k));
  once = v.once;
  symbols = λ s. omega (arith, v.symbols s, same (has_code s));
  bounded = v.bounded;
}

pub get_inv :
    (q q' : IntentQueue) (i : Intent)
    → get q ≡ some (i, q')
    → (e : Entry) × (rest : List Entry) × (q.queue ≡ e ∷ rest)
      × (e.intent ≡ i)
      × (record q { queue = rest } ≡ q')
unfolding get
get_inv q q' i h = elim (List-cases q.queue) [
  | inl e ↦ ground arith
  | inr (e, rest, p) ↦ (e, rest, p, ground arith, ground arith)
]

abbrev SystemBooks : System → Type 0
SystemBooks s = Books s.queue (reserved s.putting s.taken)

done-Books : (q : IntentQueue) (taken : List Intent) → Books q taken → Books (task_done q).0 taken
unfolding task_done
done-Books q taken v = record {
  keys = λ k. ground (arith, v.keys k);
  once = λ k. ground (arith, v.once k);
  symbols = λ s. ground (arith, v.symbols s);
  bounded = ground (arith, v.bounded);
}

Step-Books : {s t : System} → Step s t → SystemBooks s → SystemBooks t
unfolding reserved
Step-Books (refuse s i q h) v =
    subst
      (λ (x : IntentQueue × Option ℕ).
        Books x.0 (admitted_taken x.1 i (reserved s.putting s.taken)))
      h (admit-Books s.queue (reserved s.putting s.taken) i v)
Step-Books (begin s i seq q h) v =
    subst
      (λ (x : IntentQueue × Option ℕ).
        Books x.0 (admitted_taken x.1 i (reserved s.putting s.taken)))
      h (admit-Books s.queue (reserved s.putting s.taken) i v)
Step-Books (go_on q before p after taken q' phase h) v =
    let others = reserved (before ++ after) taken in
    moved q' (reserving phase p.intent others)
      (reserved (before ++ record p { phase = phase } ∷ after) taken)
      (λ f. sym (total-reserved f before (record p { phase = phase }) after taken))
      (subst (λ (x : IntentQueue × Progress). Books x.0 (reserving_after x.1 p.intent others)) h
        (advance-Books p.phase p.intent p.seq q others (
          moved q (reserved (before ++ p ∷ after) taken) (reserving p.phase p.intent others)
            (λ f. total-reserved f before p after taken) v)))
Step-Books (end q before p after taken q' ok h) v =
    let others = reserved (before ++ after) taken in
    subst (λ (x : IntentQueue × Progress). Books x.0 (reserving_after x.1 p.intent others)) h
      (advance-Books p.phase p.intent p.seq q others (
        moved q (reserved (before ++ p ∷ after) taken) (reserving p.phase p.intent others)
          (λ f. total-reserved f before p after taken) v))
Step-Books (take s i q h) v =
    let (e, rest, p, same, same') = get_inv s.queue q i h in
    let others = reserved s.putting s.taken in
    moved q (i ∷ others) (reserved s.putting (i ∷ s.taken))
      (λ f. sym (total-reserved_head f s.putting i s.taken))
      (subst (λ q'. Books q' (i ∷ others)) same'
        (subst (λ j. Books (record s.queue { queue = rest }) (j ∷ others)) same
          (take_head-Books s.queue others e rest p v)))
Step-Books (give_up q putting before i after) v =
    remove_active-Books q (reserved putting (before ++ after)) i (
      moved q (reserved putting (before ++ i ∷ after)) (i ∷ reserved putting (before ++ after))
        (λ f.
          total-reserved_taken f putting (before ++ i ∷ after) (i ∷ (before ++ after))
            (total-taken f before i after)
          ∙ total-reserved_head f putting i (before ++ after))
        v)
Step-Books (report_done s) v = done-Books s.queue (reserved s.putting s.taken) v

Reach-Books : {s t : System} → SystemBooks s → Reach s t → SystemBooks t
Reach-Books v here = v
Reach-Books v (next r st) = Step-Books st (Reach-Books v r)

abbrev pub empty : ℤ → Bool → Text → ℤ → System
empty maxsize authoritative policy pending = record {
  queue = init maxsize authoritative policy pending;
  putting = [];
  taken = [];
}

-- In whatever order the threads take their steps, from an empty queue no key is ever held by two intents,
-- be they queued, being worked on or on their way into the queue, and the queue never outgrows its size.
pub held_once :
    (maxsize : ℤ) (authoritative : Bool) (policy : Text) (pending : ℤ) {t : System}
    → Reach (empty maxsize authoritative policy pending) t
    → ((k : Text) → held (has_key k) t.queue (reserved t.putting t.taken) ≤ 1)
      × (length t.queue.queue ≤ t.queue.maxsize)
unfolding reserved
held_once maxsize authoritative policy pending r =
    let v = Reach-Books (init-Books maxsize authoritative policy pending) r in
    (λ k. omega (arith, v.keys k, v.once k), v.bounded)
