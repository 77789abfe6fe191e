-- ===== src/Bars/Groups.antt =====
-- The bars of kis_trend_atr_trading/adapters/kis_ws/bar_aggregator.py against a description that groups
-- the ticks of a code by their minute.
use mathlib.Core.List.{append_assoc}
use kis_api_trend_atr.Base.{
  ℕ, ◌+◌, ◌≡◌, ◌∙◌, sym, ap, refl, true, false, Option, none, some, List, [], ◌∷◌, ◌++◌, map, foldl,
  if◌then◌else◌, arith, Bool-cases, inl, inr,
}
use kis_api_trend_atr.Base.Eq.{◌==◌, nat_keyed}
use kis_api_trend_atr.Base.Dict.{lookup, insert, lookup-insert}
use kis_api_trend_atr.Base.Floats.{Floats}
use kis_api_trend_atr.Base.Text.{Text, zfill, text_keyed, text_beq_iff}
use kis_api_trend_atr.Bars.{
  MarketTick, OhlcvBar, Aggregator, one_minute, minute_floor, tick_code, new_bar, flush, larger,
  smaller, extend, next_bar, add_tick,
}

module _ {A : Type 0} where
  abbrev pub minute_of : MarketTick A → ℕ
  minute_of t = minute_floor t.timestamp

  -- A group is its first tick and the others; a tick joins the group after it if the minutes agree.
  unfoldable pub join :
      MarketTick A
      → List (MarketTick A × List (MarketTick A))
      → List (MarketTick A × List (MarketTick A))
  join t [] = (t, []) ∷ []
  join t ((u, us) ∷ groups) =
      if minute_of u == minute_of t then (t, u ∷ us) ∷ groups else (t, []) ∷ (u, us) ∷ groups

  unfoldable pub groups_of : List (MarketTick A) → List (MarketTick A × List (MarketTick A))
  unfolding join
  groups_of [] = []
  groups_of (t ∷ ts) = join t (groups_of ts)

  -- the ticks of a code
  unfoldable pub ticks_of : Text → List (MarketTick A) → List (MarketTick A)
  ticks_of code [] = []
  ticks_of code (t ∷ ts) =
      let rest = ticks_of code ts in if tick_code t == code then t ∷ rest else rest

  unfoldable pub last_price : A → List A → A
  last_price p [] = p
  last_price p (q ∷ prices) = last_price q prices

  abbrev pub to_list : Option (OhlcvBar A) → List (OhlcvBar A)
  to_list none = []
  to_list (some b) = b ∷ []

  abbrev pub prices : List (MarketTick A) → List A
  prices ts = map (λ (t : MarketTick A). t.price) ts

  abbrev pub volumes : List (MarketTick A) → List A
  volumes ts = map (λ (t : MarketTick A). t.volume) ts

module _ {A : Type 0} ⦃f : Floats A⦄ where
  -- The bar of a group, field by field.
  unfoldable pub bar_of : MarketTick A × List (MarketTick A) → OhlcvBar A
  bar_of (t, ts) = record {
    stock_code = tick_code t;
    start_at = minute_of t;
    end_at = minute_of t + one_minute;
    open_price = t.price;
    high = foldl larger t.price (prices ts);
    low = foldl smaller t.price (prices ts);
    close = last_price t.price (prices ts);
    volume = foldl f.add t.volume (volumes ts);
  }

  -- a bar with the ticks of a group
  unfoldable pub extend_all : OhlcvBar A → List (MarketTick A) → OhlcvBar A
  extend_all b [] = b
  extend_all b (t ∷ ts) = extend_all (extend b t) ts

  extend_all-fields :
      (b : OhlcvBar A) (ts : List (MarketTick A))
      → extend_all b ts ≡ record b {
        high = foldl larger b.high (prices ts);
        low = foldl smaller b.low (prices ts);
        close = last_price b.close (prices ts);
        volume = foldl f.add b.volume (volumes ts);
      }
  unfolding extend_all extend last_price
  extend_all-fields b [] = refl
  extend_all-fields b (t ∷ ts) = extend_all-fields (extend b t) ts

  pub bar_of-extend_all :
      (t : MarketTick A) (ts : List (MarketTick A)) → bar_of (t, ts) ≡ extend_all (new_bar t) ts
  unfolding bar_of new_bar
  bar_of-extend_all t ts = sym (extend_all-fields (new_bar t) ts)

  -- What a code's own ticks give from a bar on.
  bars_from : OhlcvBar A → List (MarketTick A) → List (OhlcvBar A)
  bars_from b [] = b ∷ []
  bars_from b (t ∷ ts) =
      let more = bars_from (extend b t) ts in
      let next = bars_from (new_bar t) ts in if minute_of t == b.start_at then more else b ∷ next

  -- The bar takes the ticks of the first group if they are of its minute.
  absorb : OhlcvBar A → List (MarketTick A × List (MarketTick A)) → List (OhlcvBar A)
  absorb b [] = b ∷ []
  absorb b ((u, us) ∷ groups) =
      if minute_of u == b.start_at
      then extend_all b (u ∷ us) ∷ map bar_of groups
      else b ∷ map bar_of ((u, us) ∷ groups)

  absorb-new_bar :
      (t : MarketTick A) (groups : List (MarketTick A × List (MarketTick A)))
      → absorb (new_bar t) groups ≡ map bar_of (join t groups)
  unfolding absorb join new_bar extend_all
  absorb-new_bar t [] = ap (λ x. x ∷ []) (sym (bar_of-extend_all t []))
  absorb-new_bar t ((u, us) ∷ groups) = elim (Bool-cases (minute_of u == minute_of t)) [
    | inl e ↦
        rw (e, join, absorb) (ap (λ x. x ∷ map bar_of groups) (sym (bar_of-extend_all t (u ∷ us))))
    | inr e ↦
        rw (e, join, absorb)
          (ap (λ x. x ∷ map bar_of ((u, us) ∷ groups)) (sym (bar_of-extend_all t [])))
  ]

  absorb-join_same :
      (b : OhlcvBar A) (t : MarketTick A) (groups : List (MarketTick A × List (MarketTick A)))
      → (minute_of t == b.start_at) ≡ true
      → absorb (extend b t) groups ≡ absorb b (join t groups)
  unfolding absorb join extend_all extend
  absorb-join_same b t [] e = rw e refl
  absorb-join_same b t ((u, us) ∷ groups) e = elim (Bool-cases (minute_of u == minute_of t)) [
    | inl h ↦ let k : (minute_of u == b.start_at) ≡ true = ground arith in rw k (rw h (rw e refl))
    | inr h ↦ let k : (minute_of u == b.start_at) ≡ false = ground arith in rw k (rw h (rw e refl))
  ]

  absorb-join_other :
      (b : OhlcvBar A) (t : MarketTick A) (groups : List (MarketTick A × List (MarketTick A)))
      → (minute_of t == b.start_at) ≡ false
      → b ∷ map bar_of (join t groups) ≡ absorb b (join t groups)
  unfolding absorb join
  absorb-join_other b t [] e = rw e refl
  absorb-join_other b t ((u, us) ∷ groups) e = elim (Bool-cases (minute_of u == minute_of t)) [
    | inl h ↦ rw h (rw e refl)
    | inr h ↦ rw h (rw e refl)
  ]

  bars_from-absorb :
      (b : OhlcvBar A) (ts : List (MarketTick A)) → bars_from b ts ≡ absorb b (groups_of ts)
  unfolding bars_from groups_of absorb
  bars_from-absorb b [] = refl
  bars_from-absorb b (t ∷ ts) = elim (Bool-cases (minute_of t == b.start_at)) [
    | inl e ↦ rw e (bars_from-absorb (extend b t) ts ∙ absorb-join_same b t (groups_of ts) e)
    | inr e ↦ rw e (
        ap (λ x. b ∷ x) (bars_from-absorb (new_bar t) ts ∙ absorb-new_bar t (groups_of ts))
        ∙ absorb-join_other b t (groups_of ts) e)
  ]

  -- The bars that the calls with a tick of a code return, in order.
  unfoldable pub returned : Text → List (MarketTick A) → Aggregator A → List (OhlcvBar A)
  returned code [] d = []
  returned code (t ∷ ts) d =
      let (d', bar) = add_tick t d in
      let rest = returned code ts d' in if tick_code t == code then to_list bar ++ rest else rest

  unfoldable pub feed : List (MarketTick A) → Aggregator A → Aggregator A
  feed [] d = d
  feed (t ∷ ts) d = feed ts (add_tick t d).0

  -- what a code's ticks give when its entry in the dict is known
  given : Option (OhlcvBar A) → List (MarketTick A) → List (OhlcvBar A)
  given (some b) ts = bars_from b ts
  given none [] = []
  given none (t ∷ ts) = bars_from (new_bar t) ts

  given_nothing : (found : Option (OhlcvBar A)) → to_list found ≡ given found []
  unfolding given bars_from
  given_nothing none = refl
  given_nothing (some b) = refl

  given-groups : (ts : List (MarketTick A)) → given none ts ≡ map bar_of (groups_of ts)
  unfolding given groups_of
  given-groups [] = refl
  given-groups (t ∷ ts) = bars_from-absorb (new_bar t) ts ∙ absorb-new_bar t (groups_of ts)

  next_bar-given :
      (t : MarketTick A) (found : Option (OhlcvBar A)) (ts : List (MarketTick A))
      → to_list (next_bar t found).1 ++ bars_from (next_bar t found).0 ts ≡ given found (t ∷ ts)
  unfolding next_bar given bars_from
  next_bar-given t none ts = refl
  next_bar-given t (some b) ts = elim (Bool-cases (minute_of t == b.start_at)) [
    | inl e ↦ rw e refl
    | inr e ↦ rw e refl
  ]

  returned-given :
      (code : Text) (ts : List (MarketTick A)) (d : Aggregator A)
      → returned code ts d ++ to_list (lookup code (feed ts d))
        ≡ given (lookup code d) (ticks_of code ts)
  unfolding returned feed ticks_of add_tick given bars_from
  returned-given code [] d = given_nothing (lookup code d)
  returned-given code (t ∷ ts) d =
      let (bar, completed) = next_bar t (lookup (tick_code t) d) in
      let own = ticks_of code ts in
      let rest = returned-given code ts (insert (tick_code t) bar d) in
      let found = lookup-insert (tick_code t) code bar d in
      elim (Bool-cases (tick_code t == code)) [
        | inl e ↦
            let kept : lookup code (insert (tick_code t) bar d) ≡ some bar =
              ground (arith, found) in
            rw e (
              append_assoc (to_list completed) _ _
              ∙ ap (λ (x : List (OhlcvBar A)). to_list completed ++ x)
                  (rest ∙ ap (λ (o : Option (OhlcvBar A)). given o own) kept)
              ∙ next_bar-given t (lookup (tick_code t) d) own
              ∙ ap (λ (c : Text). given (lookup c d) (t ∷ own))
                  ((text_beq_iff (tick_code t) code).0 e))
        | inr e ↦
            let kept : lookup code (insert (tick_code t) bar d) ≡ lookup code d =
              ground (arith, found) in
            rw e (rest ∙ ap (λ (o : Option (OhlcvBar A)). given o own) kept)
      ]

  -- From an empty aggregator on: the bars that the ticks of a code complete, followed by the one that a flush gives, are one for
  -- each group of that code's ticks of one minute; ticks of other codes in between change nothing.
  pub returned-groups :
      (stock_code : Text) (ts : List (MarketTick A))
      → let code = zfill 6 stock_code in
        returned code ts [] ++ to_list (flush (some stock_code) (feed ts [])).1
        ≡ map bar_of (groups_of (ticks_of code ts))
  unfolding flush lookup
  returned-groups stock_code ts =
      returned-given (zfill 6 stock_code) ts [] ∙ given-groups (ticks_of (zfill 6 stock_code) ts)
