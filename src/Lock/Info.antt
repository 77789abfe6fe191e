-- ===== src/Lock/Info.antt =====
-- The text of the lock file of SingleInstanceLock in kis_trend_atr_trading/engine/order_synchronizer.py:
-- what `acquire` writes and how `get_running_instance_info` reads it.
pub mod Reading
use mathlib.Core.List.{reverse, reverse-append, reverse-reverse}
use kis_api_trend_atr.Base.{
  ℕ, zero, suc, ◌+◌, ◌-◌, ◌*◌, ◌/◌, ◌%◌, ◌≡◌, refl, sym, ap, ◌∙◌, Bool, true, false, ◌&&◌, Option,
  none, some, List, [], ◌∷◌, ◌++◌, arith, if◌then◌else◌, eqb, leb, ltb, ◌<◌, All,
}
use kis_api_trend_atr.Base.Dict.{Dict, lookup, insert}
use kis_api_trend_atr.Base.Text.{Text, codes, strip, is_space, decimal, text_keyed, text_beq_iff}
use kis_api_trend_atr.Session.Numerals.{split_once, is_digit}

-- puts a character in front of the first line
push : ℕ → List Text → List Text
push c [] = (c ∷ []) ∷ []
push c (line ∷ lines) = (c ∷ line) ∷ lines

-- `s.split(sep)`
unfoldable pub split_on : ℕ → Text → List Text
unfolding push
split_on sep [] = [] ∷ []
split_on sep (c ∷ s) = let rest = split_on sep s in if eqb c sep then [] ∷ rest else push c rest

-- the loop over the lines
unfoldable pub read_lines : Dict Text Text → List Text → Dict Text Text
read_lines info [] = info
read_lines info (line ∷ lines) =
    read_lines
      (elim (split_once b':' line) [
        | none ↦ info
        | some (key, value) ↦ insert (strip key) (strip value) info
      ])
      lines

-- what the file's text says
unfoldable pub read_info : Text → Dict Text Text
unfolding split_on read_lines
read_info content = read_lines [] (split_on 10 (strip content))

-- the two lines that `acquire` writes
unfoldable pub written : Text → Text → Text
written pid started = (codes "PID: " ++ pid) ++ 10 ∷ (codes "Started: " ++ (started ++ 10 ∷ []))

abbrev pub IsWord : Text → Type 0
IsWord s = All (λ c. is_space c ≡ false) s

-- `int` of a text of digits
to_int : ℕ → Text → ℕ
to_int acc [] = acc
to_int acc (c ∷ s) = to_int (acc * 10 + (c - 48)) s

all_digits : Text → Bool
all_digits [] = true
all_digits (c ∷ s) = is_digit c && all_digits s

-- `pid_raw and pid_raw.isdigit()`, for ASCII, and the number
unfoldable pub parse_pid : Option Text → Option ℕ
unfolding to_int all_digits
parse_pid none = none
parse_pid (some []) = none
parse_pid (some (c ∷ s)) = if all_digits (c ∷ s) then some (to_int 0 (c ∷ s)) else none
