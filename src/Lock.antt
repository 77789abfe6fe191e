-- ===== src/Lock.antt =====
-- SingleInstanceLock of kis_trend_atr_trading/engine/order_synchronizer.py: `acquire`,
-- `_cleanup_stale_lock_file`, `release` and `ensure_single_instance`. The state is the lock file as
-- the operating system sees it, with a lock object for each process. A file is an inode: it lives on
-- for those that hold it open when its name is removed, and `flock` locks the inode, not the name.
-- The operations on the file do not fail, but for `flock` on a locked inode. The calls of several
-- processes follow one another; what happens when they overlap is not modelled.
pub mod Info
pub mod Exclusion
pub mod Runs
use kis_api_trend_atr.Base.{
  ℕ, ◌+◌, ◌-◌, ◌*◌, Bool, true, false, ◌&&◌, Option, none, some, List, [], ◌∷◌, if◌then◌else◌, eqb,
  ltb, is_some,
}
use kis_api_trend_atr.Base.Dict.{Dict, lookup}
use kis_api_trend_atr.Base.Text.{Text, codes, decimal, text_keyed}
use Info.{parse_pid, read_info, written}

-- Python's `isoformat` and `fromisoformat` on the instants that the program writes; `none` is a
-- text that is no instant, or one without a time zone.
pub record IsoFormat : Type 0 where
  pub isoformat : ℕ → Text
  pub fromisoformat : Text → Option ℕ

-- one process's lock object: the inode that `_lock_fd` has open, and `_acquired`
pub record LockObject : Type 0 where
  pub lock_fd : Option ℕ
  pub acquired : Bool

abbrev pub new_lock : LockObject
new_lock = record { lock_fd = none; acquired = false }

pub record World : Type 0 where
  -- the inode that the lock file's name leads to
  pub name : Option ℕ
  -- an inode that is not in use
  pub next_inode : ℕ
  pub content : ℕ → Text
  -- the process that has the inode locked
  pub holder : ℕ → Option ℕ
  -- by the number of the process
  pub locks : ℕ → LockObject
  -- the processes that `os.kill(pid, 0)` finds
  pub is_alive : ℕ → Bool

abbrev pub set {ℓ} : {A : Type ℓ} → ℕ → A → (ℕ → A) → ℕ → A
set i a f j = if eqb i j then a else f j

-- nothing runs and there is no lock file
abbrev pub empty_world : World
empty_world = record {
  name = none;
  next_inode = 0;
  content = λ _. [];
  holder = λ _. none;
  locks = λ _. new_lock;
  is_alive = λ _. false;
}

-- `LOCK_STALE_TIMEOUT_SECONDS`, in microseconds
abbrev pub stale_timeout : ℕ
stale_timeout = 3600 * 1000000

process_alive : Option ℕ → World → Bool
process_alive none w = false
process_alive (some pid) w = w.is_alive pid

unlink : World → World
unlink w = record w { name = none }

module _ (iso : IsoFormat) where
  -- whether the file's start is younger than the time-out
  is_recent : ℕ → Option Text → Bool
  is_recent now none = false
  is_recent now (some started_raw) = elim (iso.fromisoformat started_raw) [
    | none ↦ false
    | some started_at ↦ ltb now (started_at + stale_timeout)
  ]

  -- the decision on the file's text
  keeps_file : ℕ → World → Dict Text Text → Bool
  unfolding process_alive is_recent
  keeps_file now w info =
      if process_alive (parse_pid (lookup (codes "PID") info)) w
      then true
      else is_recent now (lookup (codes "Started") info)

  -- for the inode of the file's name, which is all that is removed
  clean : ℕ → World → Option ℕ → World
  unfolding keeps_file unlink
  clean now w none = w
  clean now w (some inode) = if keeps_file now w (read_info (w.content inode)) then w else unlink w

  cleanup_stale_lock_file : ℕ → World → World
  unfolding clean
  cleanup_stale_lock_file now w = clean now w w.name

  open_named : World → Option ℕ → World × ℕ
  open_named w none = (
    record w {
      name = some w.next_inode;
      next_inode = w.next_inode + 1;
      content = set w.next_inode [] w.content;
      holder = set w.next_inode none w.holder;
    },
    w.next_inode,
  )
  open_named w (some inode) = (record w { content = set inode [] w.content }, inode)

  -- `open(self.lock_file, 'w')`: the file is made, or emptied
  open_for_writing : World → World × ℕ
  unfolding open_named
  open_for_writing w = open_named w w.name

  -- from `flock` on, by who has the open file locked
  lock_held : ℕ → ℕ → World → ℕ → Option ℕ → World × Bool
  lock_held p now w inode none = (
    record w {
      holder = set inode (some p) w.holder;
      content = set inode (written (decimal p) (iso.isoformat now)) w.content;
      locks = set p (record { lock_fd = some inode; acquired = true }) w.locks;
    },
    true,
  )
  lock_held p now w inode (some other) =
      (record w { locks = set p (record { lock_fd = none; acquired = false }) w.locks }, false)

  lock_opened : ℕ → ℕ → World × ℕ → World × Bool
  unfolding lock_held
  lock_opened p now (w, inode) = lock_held p now w inode (w.holder inode)

  unfoldable pub acquire : ℕ → ℕ → World → World × Bool
  unfolding cleanup_stale_lock_file open_for_writing lock_opened
  acquire p now w =
      if (w.locks p).acquired
      then (w, true)
      else lock_opened p now (open_for_writing (cleanup_stale_lock_file now w))

-- by the open file and `_acquired`
release_file : ℕ → World → Option ℕ → Bool → World
unfolding unlink
release_file p w (some inode) true = unlink (record w {
  holder = set inode none w.holder;
  locks = set p (record { lock_fd = none; acquired = false }) w.locks;
})
release_file p w lock_fd acquired = w

-- `ensure_single_instance` returns what `acquire` does; `release` also runs at a normal exit.
unfoldable pub release : ℕ → World → World
unfolding release_file
release p w = release_file p w (w.locks p).lock_fd (w.locks p).acquired
