-- ===== src/Lock/Runs.antt =====
-- Runs of processes around SingleInstanceLock (kis_trend_atr_trading/engine/order_synchronizer.py), in
-- which the calls of the lock follow one another and no start is refused.
use mathlib.Core.Path.{subst}
use native.Mathlib.Decide.{ℕ_discrete}
use kis_api_trend_atr.Base.{
  ℕ, ◌≡◌, ◌≢◌, refl, ap, sym, ◌∙◌, Bool, true, false, Option, none, some, if◌then◌else◌, eqb, arith,
  inl, inr, Bool-cases,
}
use kis_api_trend_atr.Base.Text.{text_keyed}
use kis_api_trend_atr.Lock.{
  IsoFormat, LockObject, World, new_lock, empty_world, set, acquire, release,
  cleanup_stale_lock_file, open_for_writing, lock_opened, unlink, clean, lock_held, open_named,
  release_file,
}
use kis_api_trend_atr.Lock.Exclusion.{IsPlain, Holds, acquire-refused, set_same, set_other}

-- What processes do: they start, call the lock, and end, with or without `release`.
unfoldable pub spawn : ℕ → World → World
spawn p w = record w { is_alive = set p true w.is_alive; locks = set p new_lock w.locks }

free_of : ℕ → Option ℕ → Option ℕ
free_of p none = none
free_of p (some other) = if eqb other p then none else some other

unfoldable pub crash : ℕ → World → World
unfolding free_of
crash p w = record w {
  is_alive = set p false w.is_alive;
  locks = set p new_lock w.locks;
  holder = λ inode. free_of p (w.holder inode);
}

-- Steps in which no start is refused.
pub data Step (iso : IsoFormat) : World → World → Type 0 where
  starts : (p : ℕ) (w : World) → w.is_alive p ≡ false → Step iso w (spawn p w)
  acquires :
      (p now : ℕ) (w : World)
      → w.is_alive p ≡ true
      → (acquire iso p now w).1 ≡ true
      → Step iso w (acquire iso p now w).0
  releases : (p : ℕ) (w : World) → Step iso w (release p w)
  crashes : (p : ℕ) (w : World) → Step iso w (crash p w)

pub data Reach (iso : IsoFormat) : World → Type 0 where
  here : Reach iso empty_world
  next : {w v : World} → Reach iso w → Step iso w v → Reach iso v

abbrev IsExclusive : IsoFormat → World → Type 0
IsExclusive iso w = (p : ℕ) → (w.locks p).acquired ≡ true → Holds iso p w

same_holder : (iso : IsoFormat) (p q : ℕ) (w : World) → Holds iso p w → Holds iso q w → p ≡ q
same_holder iso p q w h k =
    let same : h.inode ≡ k.inode = cc (h.named, k.named) in cc (h.locked, k.locked, same)

module _ (iso : IsoFormat) where
  clean-locks :
      (now : ℕ) (w : World) (name : Option ℕ)
      → ((clean iso now w name).locks ≡ w.locks) × ((clean iso now w name).is_alive ≡ w.is_alive)
  unfolding clean unlink
  clean-locks now w none = (refl, refl)
  clean-locks now w (some inode) = ground arith

  open_named-named :
      (w : World) (name : Option ℕ)
      → w.name ≡ name
      → ((open_named iso w name).0.name ≡ some (open_named iso w name).1)
        × ((open_named iso w name).0.locks ≡ w.locks)
        × ((open_named iso w name).0.is_alive ≡ w.is_alive)
  unfolding open_named
  open_named-named w none h = (refl, refl, refl)
  open_named-named w (some inode) h = (h, refl, refl)

  -- A start that takes the lock holds it, and leaves the others' locks.
  lock_held-Holds :
      (p now inode : ℕ) (w : World) (holder : Option ℕ)
      → w.name ≡ some inode
      → w.is_alive p ≡ true
      → (lock_held iso p now w inode holder).1 ≡ true
      → Holds iso p (lock_held iso p now w inode holder).0
        × ((q : ℕ) → p ≢ q → (lock_held iso p now w inode holder).0.locks q ≡ w.locks q)
  unfolding lock_held
  lock_held-Holds p now inode w none named alive e = (
    record {
      inode = inode;
      started = now;
      named = named;
      locked = set_same inode (some p) w.holder;
      object = set_same p _ w.locks;
      says = set_same inode _ w.content;
      alive = alive;
    },
    λ q other. set_other p q _ w.locks other,
  )
  lock_held-Holds p now inode w (some other) named alive e = cc

  acquire-Holds :
      (p now : ℕ) (w : World)
      → (w.locks p).acquired ≡ false
      → w.is_alive p ≡ true
      → (acquire iso p now w).1 ≡ true
      → Holds iso p (acquire iso p now w).0
        × ((q : ℕ) → p ≢ q → (acquire iso p now w).0.locks q ≡ w.locks q)
  unfolding acquire lock_opened open_for_writing cleanup_stale_lock_file
  acquire-Holds p now w free alive e =
      let cleaned : World = clean iso now w w.name in
      let (cleaned_locks, cleaned_alive) = clean-locks now w w.name in
      let (named, locks, same_alive) = open_named-named cleaned cleaned.name refl in
      let opened = open_named iso cleaned cleaned.name in
      let there : opened.0.is_alive p ≡ true = ap (λ f. f p) (same_alive ∙ cleaned_alive) ∙ alive in
      let took : (lock_held iso p now opened.0 opened.1 (opened.0.holder opened.1)).1 ≡ true =
        rw free at e in
      let (holds, others) =
        lock_held-Holds p now opened.1 opened.0 (opened.0.holder opened.1) named there took in
      rw free (holds, λ q other. others q other ∙ ap (λ f. f q) (locks ∙ cleaned_locks))

module _ (iso : IsoFormat) (plain : IsPlain iso) where
  -- Another process starts or ends.
  spawn-Holds : (p q : ℕ) (w : World) → p ≢ q → Holds iso q w → Holds iso q (spawn p w)
  unfolding spawn
  spawn-Holds p q w other h = record {
    inode = h.inode;
    started = h.started;
    named = h.named;
    locked = h.locked;
    object = set_other p q _ w.locks other ∙ h.object;
    says = h.says;
    alive = set_other p q _ w.is_alive other ∙ h.alive;
  }

  crash-Holds : (p q : ℕ) (w : World) → p ≢ q → Holds iso q w → Holds iso q (crash p w)
  unfolding crash free_of
  crash-Holds p q w other h = record {
    inode = h.inode;
    started = h.started;
    named = h.named;
    locked = ap (free_of p) h.locked ∙ ground arith;
    object = set_other p q _ w.locks other ∙ h.object;
    says = h.says;
    alive = set_other p q _ w.is_alive other ∙ h.alive;
  }

  spawn-acquired :
      (p q : ℕ) (w : World)
      → ((spawn p w).locks q).acquired ≡ true
      → (p ≢ q) × ((w.locks q).acquired ≡ true)
  unfolding spawn
  spawn-acquired p q w h = (ground arith, ground arith)

  crash-acquired :
      (p q : ℕ) (w : World)
      → ((crash p w).locks q).acquired ≡ true
      → (p ≢ q) × ((w.locks q).acquired ≡ true)
  unfolding crash
  crash-acquired p q w h = (ground arith, ground arith)

  acquire_again :
      (p now : ℕ) (w : World) → (w.locks p).acquired ≡ true → acquire iso p now w ≡ (w, true)
  unfolding acquire
  acquire_again p now w h = rw h refl

  acquire-IsExclusive :
      (p now : ℕ) (w : World)
      → w.is_alive p ≡ true
      → (acquire iso p now w).1 ≡ true
      → IsExclusive iso w
      → IsExclusive iso (acquire iso p now w).0
  acquire-IsExclusive p now w alive taken safe = elim (Bool-cases (w.locks p).acquired) [
    | inl had ↦ rw (acquire_again p now w had) safe
    | inr free ↦
        let (holds, others) = acquire-Holds iso p now w free alive taken in
        λ q h. elim (ℕ_discrete p q) [
          | yes same ↦ subst (λ r. Holds iso r (acquire iso p now w).0) same holds
          | no other ↦
              let had : (w.locks q).acquired ≡ true =
                ap (λ (l : LockObject). l.acquired) (sym (others q other)) ∙ h in
              let refused : (acquire iso p now w).1 ≡ false =
                ap (λ r. r.1) (acquire-refused iso plain now q p w (safe q had) free) in
              absurd (cc)
        ]
  ]

  release-IsExclusive :
      (p : ℕ) (w : World) (lock_fd : Option ℕ) (acquired : Bool)
      → acquired ≡ (w.locks p).acquired
      → IsExclusive iso w
      → IsExclusive iso (release_file p w lock_fd acquired)
  unfolding release_file
  release-IsExclusive p w (some inode) true e safe q h =
      let kept : (p ≢ q) × ((w.locks q).acquired ≡ true) = (ground arith, ground arith) in
      absurd (kept.0 (same_holder iso p q w (safe p (sym e)) (safe q kept.1)))
  release-IsExclusive p w (some inode) false e safe q h = safe q h
  release-IsExclusive p w none acquired e safe q h = safe q h

  Step-IsExclusive : {w v : World} → Step iso w v → IsExclusive iso w → IsExclusive iso v
  unfolding release
  Step-IsExclusive (starts p w asleep) safe q h =
      let (other, had) = spawn-acquired p q w h in spawn-Holds p q w other (safe q had)
  Step-IsExclusive (acquires p now w alive taken) safe q h =
      acquire-IsExclusive p now w alive taken safe q h
  Step-IsExclusive (releases p w) safe q h =
      release-IsExclusive p w (w.locks p).lock_fd (w.locks p).acquired refl safe q h
  Step-IsExclusive (crashes p w) safe q h =
      let (other, had) = crash-acquired p q w h in crash-Holds p q w other (safe q had)

  Reach-IsExclusive : {w : World} → Reach iso w → IsExclusive iso w
  Reach-IsExclusive here = λ p h. cc
  Reach-IsExclusive (next r st) = Step-IsExclusive st (Reach-IsExclusive r)

  -- From no lock file on, whatever processes start, release the lock and crash, and as long as no call of
  -- `acquire` is refused: two processes never have the lock together.
  pub at_most_one :
      {w : World}
      → Reach iso w
      → (p q : ℕ) → (w.locks p).acquired ≡ true
      → (w.locks q).acquired ≡ true
      → p ≡ q
  at_most_one {w} r p q h k =
      same_holder iso p q w (Reach-IsExclusive r p h) (Reach-IsExclusive r q k)
