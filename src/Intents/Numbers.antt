-- ===== src/Intents/Numbers.antt =====
-- The numbers that EntryIntentQueue (kis_trend_atr_trading/engine/pullback_pipeline_stores.py) gives its
-- intents: no two that are queued or on their way have the same.
use mathlib.Core.Path.{subst, sym}
use kis_api_trend_atr.Base.{
  ℕ, ◌+◌, ◌≤◌, ◌≡◌, ◌≢◌, refl, ap, ◌∙◌, not, ◌||◌, Option, none, some, List, [], ◌∷◌, ◌++◌,
  if◌then◌else◌, eqb, leb, arith, All, Bool-cases, List-cases, Option-cases, inl, inr,
}
use kis_api_trend_atr.Intents.{
  Intent, Entry, IntentQueue, enqueue, remove_active, drop_oldest, put_nowait, reserve, give_back,
  entry_of, admit, task_done,
}
use kis_api_trend_atr.Intents.Put.{
  Phase, first_try, found_full, second_try, still_full, entered, Putting, Progress, goes_on,
  returns, try_put, advance,
}
use kis_api_trend_atr.Intents.Invariant.{put_nowait_inv}
use kis_api_trend_atr.Intents.Admission.{
  System, Step, refuse, begin, go_on, end, take, give_up, report_done, get_inv,
}

-- how many entries have a number
unfoldable pub numbered : ℕ → List Entry → ℕ
numbered n [] = 0
numbered n (e ∷ q) = (if eqb e.seq n then 1 else 0) + numbered n q

-- whether a call has the number of an entry that is not in the queue yet
abbrev pub carries : ℕ → ℕ → Phase → ℕ
carries n seq entered = 0
carries n seq _ = if eqb seq n then 1 else 0

abbrev pub carries_after : ℕ → ℕ → Progress → ℕ
carries_after n seq (goes_on phase) = carries n seq phase
carries_after n seq (returns ok) = 0

unfoldable pub under_way : ℕ → List Putting → ℕ
under_way n [] = 0
under_way n (p ∷ putting) = carries n p.seq p.phase + under_way n putting

-- a number that has been given is there at most once
abbrev pub places_for : ℕ → IntentQueue → ℕ
places_for n q = if leb n q.enqueue_seq then 1 else 0

-- No number is there twice, and none that is yet to be given.
abbrev pub AreNumbered : System → Type 0
AreNumbered s = (n : ℕ) → numbered n s.queue.queue + under_way n s.putting ≤ places_for n s.queue

under_way-append :
    (n : ℕ) (before : List Putting) (p : Putting) (after : List Putting)
    → under_way n (before ++ p ∷ after) ≡ carries n p.seq p.phase + under_way n (before ++ after)
unfolding under_way
under_way-append n [] p after = refl
under_way-append n (b ∷ before) p after = omega (arith, under_way-append n before p after)

numbered-enqueue :
    (n : ℕ) (e : Entry) (q : List Entry)
    → numbered n (enqueue e q) ≡ (if eqb e.seq n then 1 else 0) + numbered n q
unfolding numbered enqueue
numbered-enqueue n e [] = refl
numbered-enqueue n e (g ∷ q) = ground (arith, numbered-enqueue n e q)

-- An access keeps the numbers that are given, and makes no more of the others.
abbrev Keeps : ℕ → ℕ → Phase → IntentQueue → IntentQueue × Progress → Type 0
Keeps n seq phase q x =
    (numbered n x.0.queue + carries_after n seq x.1 ≤ numbered n q.queue + carries n seq phase)
    × (x.0.enqueue_seq ≡ q.enqueue_seq)

try_put-Keeps :
    (n seq : ℕ) (phase if_full : Phase) (i : Intent) (q : IntentQueue)
    → carries n seq phase ≡ (if eqb seq n then 1 else 0)
    → carries n seq if_full ≡ (if eqb seq n then 1 else 0)
    → Keeps n seq phase q (try_put if_full q (put_nowait q (entry_of seq i)))
unfolding try_put entry_of
try_put-Keeps n seq phase if_full i q c d = elim (Option-cases (put_nowait q (entry_of seq i))) [
  | inr (q', h) ↦
      let same = (put_nowait_inv q (entry_of seq i) h).0 in
      rw h (
        omega (
          arith,
          c,
          numbered-enqueue n (entry_of seq i) q.queue,
          ap (λ (p : IntentQueue). numbered n p.queue) same,
        ),
        sym (ap (λ (p : IntentQueue). p.enqueue_seq) same),
      )
  | inl full ↦ rw full (omega (arith, c, d), refl)
]

drop_oldest-numbered :
    (n : ℕ) (q : IntentQueue)
    → (numbered n (drop_oldest q).0.queue ≤ numbered n q.queue)
      × ((drop_oldest q).0.enqueue_seq ≡ q.enqueue_seq)
unfolding drop_oldest numbered remove_active
drop_oldest-numbered n q = elim (Bool-cases (q.authoritative || not q.drops_oldest)) [
  | inl keeps ↦ rw (keeps, drop_oldest) (omega arith, refl)
  | inr drops ↦ elim (List-cases q.queue) [
    | inl e ↦ rw (drops, e, drop_oldest) (omega (arith, ap (numbered n) e), refl)
    | inr (e, rest, h) ↦ rw (drops, h, drop_oldest) (omega (arith, ap (numbered n) h), refl)
  ]
]

advance-Keeps :
    (n : ℕ) (phase : Phase) (i : Intent) (seq : ℕ) (q : IntentQueue)
    → Keeps n seq phase q (advance phase i seq q)
unfolding advance give_back remove_active
advance-Keeps n first_try i seq q = try_put-Keeps n seq first_try found_full i q refl refl
advance-Keeps n second_try i seq q = try_put-Keeps n seq second_try still_full i q refl refl
advance-Keeps n still_full i seq q = (omega arith, refl)
advance-Keeps n entered i seq q = (omega arith, refl)
advance-Keeps n found_full i seq q =
    let dropped = drop_oldest-numbered n q in
    elim (Bool-cases (drop_oldest q).1) [
      | inl drops ↦ rw drops (omega (arith, dropped.0), dropped.1)
      | inr keeps ↦ rw keeps (omega arith, refl)
    ]

-- An access of a call, with the other calls as they were.
progressed :
    (q q' : IntentQueue) (before : List Putting) (p : Putting) (after : List Putting) (x : Progress)
    → advance p.phase p.intent p.seq q ≡ (q', x)
    → ((n : ℕ)
        → numbered n q.queue + under_way n (before ++ p ∷ after)
          ≤ (if leb n q.enqueue_seq then 1 else 0))
    → (n : ℕ)
    → numbered n q'.queue + (carries_after n p.seq x + under_way n (before ++ after))
      ≤ (if leb n q'.enqueue_seq then 1 else 0)
progressed q q' before p after x h v n =
    let (kept, same) =
      subst (λ (y : IntentQueue × Progress). Keeps n p.seq p.phase q y) h
        (advance-Keeps n p.phase p.intent p.seq q) in
    rw same (omega (arith, v n, kept, under_way-append n before p after))

admit-queue : (q : IntentQueue) (i : Intent) → (admit q i).0.queue ≡ q.queue
unfolding admit reserve
admit-queue q i = ground arith

refused-same :
    (q q' : IntentQueue) (i : Intent) → admit q i ≡ (q', none) → q'.enqueue_seq ≡ q.enqueue_seq
unfolding admit reserve
refused-same q q' i h = ground arith

begun-next :
    (q q' : IntentQueue) (i : Intent) (seq : ℕ)
    → admit q i ≡ (q', some seq)
    → (seq ≡ q.enqueue_seq + 1) × (q'.enqueue_seq ≡ q.enqueue_seq + 1)
unfolding admit reserve
begun-next q q' i seq h = (ground arith, ground arith)

pub admitted-queue :
    (q q' : IntentQueue) (i : Intent) {o : Option ℕ} → admit q i ≡ (q', o) → q'.queue ≡ q.queue
admitted-queue q q' i h = sym (ap (λ (x : IntentQueue × Option ℕ). x.0.queue) h) ∙ admit-queue q i

pub Step-AreNumbered : {s t : System} → Step s t → AreNumbered s → AreNumbered t
unfolding under_way numbered remove_active task_done
Step-AreNumbered (refuse s i q h) v n =
    rw (admitted-queue s.queue q i h, refused-same s.queue q i h) (v n)
Step-AreNumbered (begin s i seq q h) v n =
    let (new, up) = begun-next s.queue q i seq h in
    rw (admitted-queue s.queue q i h, up) (ground (arith, v n, new))
Step-AreNumbered (go_on q before p after taken q' phase h) v n = omega (
  arith,
  progressed q q' before p after (goes_on phase) h v n,
  under_way-append n before (record p { phase = phase }) after,
)
Step-AreNumbered (end q before p after taken q' ok h) v n =
    omega (arith, progressed q q' before p after (returns ok) h v n)
Step-AreNumbered (take s i q h) v n =
    let (e, rest, p, same, same') = get_inv s.queue q i h in
    omega (
      arith,
      v n,
      ap (numbered n) p,
      ap (λ (r : IntentQueue). numbered n r.queue) same',
      ap (places_for n) same',
    )
Step-AreNumbered (give_up q putting before i after) v n = v n
Step-AreNumbered (report_done s) v n = ground (arith, v n)

-- Behind an entry that is alone with its number there is no other of that number.
pub other_numbers : (n : ℕ) (q : List Entry) → numbered n q ≡ 0 → All (λ (e : Entry). e.seq ≢ n) q
unfolding numbered
other_numbers n [] h = tt
other_numbers n (e ∷ q) h =
    (λ same. absurd (ground (arith, same)), other_numbers n q (ground arith))
