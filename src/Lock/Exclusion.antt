-- ===== src/Lock/Exclusion.antt =====
-- Who holds the lock of SingleInstanceLock (kis_trend_atr_trading/engine/order_synchronizer.py).
use kis_api_trend_atr.Base.{
  ℕ, ◌+◌, ◌≡◌, ◌≢◌, refl, ap, ◌∙◌, true, false, none, some, [], if◌then◌else◌, length, ◌<◌, arith,
}
use kis_api_trend_atr.Base.Dict.{lookup}
use kis_api_trend_atr.Base.Text.{decimal, text_keyed, text_beq, strip, lstrip}
use kis_api_trend_atr.Session.Numerals.{split_once}
use kis_api_trend_atr.Lock.{
  IsoFormat, LockObject, World, set, acquire, cleanup_stale_lock_file, open_for_writing,
  lock_opened, keeps_file, process_alive, is_recent, unlink, clean, lock_held, open_named,
}
use kis_api_trend_atr.Lock.Info.{written, read_info, read_lines, split_on, parse_pid, IsWord}
use kis_api_trend_atr.Lock.Info.Reading.{read_info-written, parse_pid-decimal, decimal-IsWord}

pub set_same {ℓ} : {A : Type ℓ} (i : ℕ) (a : A) (f : ℕ → A) → set i a f i ≡ a
set_same i a f = ground arith

pub set_other {ℓ} : {A : Type ℓ} (i j : ℕ) (a : A) (f : ℕ → A) → i ≢ j → set i a f j ≡ f j
set_other i j a f h = ground arith

-- An instant's text is not empty and has no blanks.
pub record IsPlain (iso : IsoFormat) : Type 0 where
  pub is_word : (t : ℕ) → IsWord (iso.isoformat t)
  pub is_some : (t : ℕ) → 0 < length (iso.isoformat t)

-- A running process holds the named file's lock, and the file says so.
pub record Holds (iso : IsoFormat) (p : ℕ) (w : World) : Type 0 where
  pub inode : ℕ
  pub started : ℕ
  pub named : w.name ≡ some inode
  pub locked : w.holder inode ≡ some p
  pub object : w.locks p ≡ record { lock_fd = some inode; acquired = true }
  pub says : w.content inode ≡ written (decimal p) (iso.isoformat started)
  pub alive : w.is_alive p ≡ true

module _ (iso : IsoFormat) (plain : IsPlain iso) where
  keeps_file-written :
      (now p t : ℕ) (w : World)
      → w.is_alive p ≡ true
      → keeps_file iso now w (read_info (written (decimal p) (iso.isoformat t))) ≡ true
  unfolding keeps_file lookup text_beq
  keeps_file-written now p t w h =
      rw
        (
          read_info-written (decimal p) (iso.isoformat t) (decimal-IsWord p) (plain.is_word t)
              (plain.is_some t),
          parse_pid-decimal p,
        )
        (rw h refl)

  -- A new start does not take away the file of a running holder.
  cleanup-Holds : (now p : ℕ) (w : World) → Holds iso p w → cleanup_stale_lock_file iso now w ≡ w
  unfolding cleanup_stale_lock_file clean
  cleanup-Holds now p w h =
      ap (clean iso now w) h.named
      ∙ ap (λ t. if keeps_file iso now w (read_info t) then w else unlink w) h.says
      ∙ ap (λ b. if b then w else unlink w) (keeps_file-written now p h.started w h.alive)

  -- The world after a refused start: the file is empty.
  abbrev emptied : (q : ℕ) (w : World) → ℕ → World
  emptied q w inode = record w {
    content = set inode [] w.content;
    locks = set q (record { lock_fd = none; acquired = false }) w.locks;
  }

  -- A second start is refused: the holder keeps the file and the lock, but the file is now empty.
  pub acquire-refused :
      (now p q : ℕ) (w : World) (h : Holds iso p w)
      → (w.locks q).acquired ≡ false
      → acquire iso q now w ≡ (emptied q w h.inode, false)
  unfolding acquire lock_opened lock_held open_for_writing open_named
  acquire-refused now p q w h free = rw free (
      ap (λ v. lock_opened iso q now (open_for_writing iso v)) (cleanup-Holds now p w h)
      ∙ ap (λ o. lock_opened iso q now (open_named iso w o)) h.named
      ∙ ap (lock_held iso q now (record w { content = set h.inode [] w.content }) h.inode) h.locked)

  -- The world after a start that made a file of its own.
  abbrev own_file : (r now : ℕ) → World → World
  own_file r now w = record w {
    name = some w.next_inode;
    next_inode = w.next_inode + 1;
    content =
        set w.next_inode (written (decimal r) (iso.isoformat now)) (set w.next_inode [] w.content);
    holder = set w.next_inode (some r) (set w.next_inode none w.holder);
    locks = set r (record { lock_fd = some w.next_inode; acquired = true }) w.locks;
  }

  keeps_file-empty : (now : ℕ) (w : World) → keeps_file iso now w (read_info []) ≡ false
  unfolding keeps_file process_alive is_recent parse_pid read_info read_lines split_on split_once
      strip lstrip lookup
  keeps_file-empty now w = refl

  -- A start that finds an empty file takes it for stale and makes a file of its own.
  pub acquire-emptied :
      (now q r : ℕ) (w : World) (inode : ℕ)
      → w.name ≡ some inode
      → ((emptied q w inode).locks r).acquired ≡ false
      → acquire iso r now (emptied q w inode) ≡ (own_file r now (emptied q w inode), true)
  unfolding acquire lock_opened lock_held open_for_writing open_named cleanup_stale_lock_file clean
      unlink
  acquire-emptied now q r w inode named free =
      let e : World = emptied q w inode in
      rw free (
        ap (λ o. lock_opened iso r now (open_for_writing iso (clean iso now e o))) named
        ∙ ap
            (λ t.
              lock_opened iso r now
                (open_for_writing iso (if keeps_file iso now e (read_info t) then e else unlink e)))
            (set_same inode [] w.content)
        ∙ ap (λ b. lock_opened iso r now (open_for_writing iso (if b then e else unlink e)))
            (keeps_file-empty now e)
        ∙ ap (lock_held iso r now (open_for_writing iso (unlink e)).0 w.next_inode)
            (set_same w.next_inode none w.holder))

  -- A start while process `p` runs and holds the lock is refused, and leaves the lock file empty: the
  -- next start, at any time, takes the file for stale and also acquires the lock, while `p` has it.
  pub refused_then_admitted :
      (p q r now later : ℕ) (w : World)
      → Holds iso p w
      → (w.locks q).acquired ≡ false
      → (w.locks r).acquired ≡ false
      → let (w1, first) = acquire iso q now w in
        let (w2, second) = acquire iso r later w1 in
        (first ≡ false)
        × (second ≡ true)
        × ((w2.locks p).acquired ≡ true)
        × ((w2.locks r).acquired ≡ true)
  refused_then_admitted p q r now later w h q_free r_free =
      let refused = acquire-refused now p q w h q_free in
      let e : World = emptied q w h.inode in
      let r_free' : (e.locks r).acquired ≡ false = ground arith in
      let admitted = acquire-emptied later q r w h.inode h.named r_free' in
      let has : (w.locks p).acquired ≡ true = ap (λ (l : LockObject). l.acquired) h.object in
      rw refused (rw admitted (refl, refl, ground arith, ground arith))
