-- ===== src/Tests/StoresExamples.antt =====
-- Examples for the modules under Stores.
use kis_api_trend_atr.Base.{ℕ, ◌≡◌, Option, none, some, List, [], ◌∷◌, if◌then◌else◌}
use kis_api_trend_atr.Base.Text.{Text, codes, text_keyed}
use kis_api_trend_atr.Stores.{Candidate, get_candidate, pop_expired}
use kis_api_trend_atr.Stores.Candidates.{Op, upsert, run, expired_of, sweep_after_run}

abbrev candidate : Text → Option ℕ → Candidate ℕ
candidate symbol expires_at = record { symbol = symbol; expires_at = expires_at; rest = 0 }

abbrev ops : List (Op ℕ)
ops =
    upsert (candidate (codes "5930") (some 10))
    ∷ upsert (candidate (codes "660") none)
    ∷ upsert (candidate (codes "5930") (some 30))
    ∷ []

sweep_after_run_example :
    let d = run ops [] in
    get_candidate (codes "5930") (pop_expired 20 d).0 ≡ (
      if expired_of 20 (get_candidate (codes "5930") d)
      then none
      else get_candidate (codes "5930") d)
sweep_after_run_example = sweep_after_run ops 20 (codes "5930")
