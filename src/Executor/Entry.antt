-- ===== src/Executor/Entry.antt =====
-- The permission of new entries of MultidayExecutor (kis_trend_atr_trading/engine/multiday_executor.py): a
-- sync with the account that failed blocks them until one succeeds.
pub mod Blocked
use kis_api_trend_atr.Base.{Bool, true, false, ◌&&◌, not, if◌then◌else◌, ◌++◌, []}
use kis_api_trend_atr.Base.Floats.{Floats}
use kis_api_trend_atr.Base.Text.{Text, codes}
use kis_api_trend_atr.Trading.{is_blank}
use kis_api_trend_atr.Resync.Account.{
  Action, no_position, matched, api_failed, untracked_holding, auto_recovered_from_api,
  auto_recovered_cleared, qty_adjusted, avg_adjusted, critical_mismatch, auto_recovered_replaced,
  Outcome, ApiAnswer, Resynchronizer, System, Clock,
}
use kis_api_trend_atr.Resync.Startup.{synchronize_on_startup}
use kis_api_trend_atr.Resync.Database.{has_text}

pub record EntryControl : Type 0 where
  pub allowed : Bool
  pub block_reason : Text
  pub is_sticky : Bool

-- `__init__`
abbrev pub open_entry : EntryControl
open_entry = record { allowed = true; block_reason = []; is_sticky = false }

pub action_value : Action → Text
action_value no_position = codes "NO_POSITION"
action_value matched = codes "MATCHED"
action_value api_failed = codes "API_FAILED"
action_value untracked_holding = codes "UNTRACKED_HOLDING"
action_value auto_recovered_from_api = codes "AUTO_RECOVERED_FROM_API"
action_value auto_recovered_cleared = codes "AUTO_RECOVERED_CLEARED"
action_value qty_adjusted = codes "QTY_ADJUSTED"
action_value avg_adjusted = codes "AVG_ADJUSTED"
action_value critical_mismatch = codes "CRITICAL_MISMATCH"
action_value auto_recovered_replaced = codes "AUTO_RECOVERED_REPLACED"

-- while the block is sticky and the call does not force
kept_blocked : Bool → Text → EntryControl → EntryControl
kept_blocked true reason c = c
kept_blocked false reason c = record c {
  allowed = false;
  block_reason = if has_text (codes "blocked by reconcile") reason then reason else c.block_reason;
}

unfoldable pub set_entry_control : Bool → Text → Bool → EntryControl → EntryControl
unfolding kept_blocked
set_entry_control allow_entry reason force c =
    if c.is_sticky && not force then kept_blocked allow_entry reason c else record {
      allowed = allow_entry;
      block_reason = reason;
      is_sticky = if force && allow_entry then false else c.is_sticky;
    }

unfoldable pub set_reconcile_entry_block : Text → EntryControl → EntryControl
set_reconcile_entry_block reason c = record {
  allowed = false;
  block_reason =
      if is_blank reason then codes "[ENTRY] blocked by reconcile: reconcile_failed" else reason;
  is_sticky = true;
}

-- the permission after a sync, with what the call returns
released : {A : Type 0} → Outcome A → EntryControl → EntryControl × Bool
released o c = if o.allow_new_entries then (set_entry_control true [] true c, true) else (
  set_reconcile_entry_block (codes "[ENTRY] blocked by reconcile: " ++ action_value o.action) c,
  false,
)

module _ {A E D : Type 0} ⦃f : Floats A⦄ where
  unfoldable pub retry_entry_unblock :
      Resynchronizer A D
      → Clock
      → ApiAnswer
      → System A E D
      → EntryControl
      → System A E D × EntryControl × Bool
  unfolding released
  retry_entry_unblock r clock answer s c =
      let (s', outcome) = synchronize_on_startup r clock answer s in
      let (c', allowed) = released outcome c in
      if c.is_sticky then (s', c', allowed) else (s, c, c.allowed)
