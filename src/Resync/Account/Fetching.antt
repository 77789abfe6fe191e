-- ===== src/Resync/Account/Fetching.antt =====
-- Getting the account's holdings (kis_trend_atr_trading/engine/order_synchronizer.py) leaves the file and the
-- database of PositionResynchronizer.
use kis_api_trend_atr.Base.{
  ℕ, ◌+◌, ◌*◌, ◌≡◌, refl, ◌∙◌, Option, none, some, ltb, Bool-cases, inl, inr,
}
use kis_api_trend_atr.Base.Dict.{Dict}
use kis_api_trend_atr.Base.Text.{Text, text_keyed}
use kis_api_trend_atr.Resync.{Holding}
use kis_api_trend_atr.Resync.Account.{
  System, ApiAnswer, account_holdings, load_startup_holdings_cache, fetched, expire,
  fetch_ssot_holdings, save_startup_holdings_cache,
}

-- Getting the holdings leaves the file and the database.
abbrev pub IsSame : {A E D : Type 0} → System A E D → System A E D → Type 0
IsSame s s' = (s'.store ≡ s.store) × (s'.database ≡ s.database)

module _ {A E D : Type 0} where
  fetched-IsSame :
      (instant : ℕ) (s : System A E D) (o : Option (Dict Text Holding))
      → IsSame s (fetched instant s o).0
  unfolding fetched save_startup_holdings_cache
  fetched-IsSame instant s none = (refl, refl)
  fetched-IsSame instant s (some holdings) = (refl, refl)

  expire-IsSame :
      (instant : ℕ) (s : System A E D) (o : Option (Dict Text Holding × ℕ))
      → IsSame s (expire instant s o).0
  unfolding expire
  expire-IsSame instant s none = (refl, refl)
  expire-IsSame instant s (some (holdings, cached_at)) =
      elim (Bool-cases (ltb (cached_at + 120 * 1000000) instant)) [
        | inl e ↦ rw e (refl, refl)
        | inr e ↦ rw e (refl, refl)
      ]

  account_holdings-IsSame :
      (answer : ApiAnswer) (instant : ℕ) (s : System A E D) (o : Option (Dict Text Holding))
      → IsSame s (account_holdings answer instant (s, o)).0
  unfolding account_holdings
  account_holdings-IsSame answer instant s none =
      fetched-IsSame instant s (fetch_ssot_holdings answer)
  account_holdings-IsSame answer instant s (some holdings) = (refl, refl)

  pub load-IsSame :
      (answer : ApiAnswer) (instant : ℕ) (s : System A E D)
      → IsSame s (account_holdings answer instant (load_startup_holdings_cache instant s)).0
  unfolding load_startup_holdings_cache
  load-IsSame answer instant s =
      let (x, o) = expire instant s s.holdings_cache in
      let first = expire-IsSame instant s s.holdings_cache in
      let second = account_holdings-IsSame answer instant x o in
      (second.0 ∙ first.0, second.1 ∙ first.1)
