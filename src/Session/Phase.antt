-- ===== src/Session/Phase.antt =====
-- kis_trend_atr_trading/utils/market_phase.py: the phase of a venue's market, and where entries are
-- allowed. Where the code takes an enum or its text, the model takes the text (`none` for Python's
-- None); an enum is its own value's text.
use kis_api_trend_atr.Base.{
  ◌≡◌, ◌⊎◌, ◌↔◌, Bool, true, false, ◌||◌, Option, none, some, List, [], ◌∷◌, arith, if◌then◌else◌,
}
use kis_api_trend_atr.Base.Eq.{◌==◌}
use kis_api_trend_atr.Base.Text.{Text, codes, strip, upper, text_keyed}
use kis_api_trend_atr.Session.{
  MarketSessionState, off_session, preopen_warmup, in_session, auction_guard, postclose,
}

pub data TradingVenue : Type 0 where
  krx nxt : TradingVenue

pub data VenueMarketPhase : Type 0 where
  off krx_preopen krx_continuous krx_auction krx_postclose : VenueMarketPhase
  nxt_premarket nxt_main_market nxt_auction_pause nxt_aftermarket : VenueMarketPhase

pub record MarketPhaseContext : Type 0 where
  pub venue : TradingVenue
  pub phase : VenueMarketPhase
  pub source_session_state : MarketSessionState

-- None and the empty text read as "KRX"
unfoldable pub normalize_venue : Option Text → TradingVenue
normalize_venue none = krx
normalize_venue (some raw) = if upper (strip raw) == codes "NXT" then nxt else krx

-- the session's state where it is given and known, else the state of the clock
unfoldable pub normalize_session_state : Option Text → Option MarketSessionState
normalize_session_state none = none
normalize_session_state (some raw) =
    let token = upper (strip raw) in
    if token == codes "OFF_SESSION"
    then some off_session
    else if token == codes "PREOPEN_WARMUP"
    then some preopen_warmup
    else if token == codes "IN_SESSION"
    then some in_session
    else if token == codes "AUCTION_GUARD"
    then some auction_guard
    else if token == codes "POSTCLOSE"
    then some postclose
    else none

phase_of : MarketSessionState → TradingVenue → VenueMarketPhase
phase_of in_session nxt = nxt_main_market
phase_of in_session krx = krx_continuous
phase_of preopen_warmup nxt = nxt_premarket
phase_of preopen_warmup krx = krx_preopen
phase_of auction_guard nxt = nxt_auction_pause
phase_of auction_guard krx = krx_auction
phase_of postclose nxt = nxt_aftermarket
phase_of postclose krx = krx_postclose
phase_of off_session _ = off

-- `clock_state` is what `get_market_session_state` says at the time asked about
unfoldable pub resolve_market_phase_context :
    MarketSessionState → Option Text → Option Text → MarketPhaseContext
unfolding normalize_venue normalize_session_state phase_of
resolve_market_phase_context clock_state venue session_state =
    let v = normalize_venue venue in
    let s : MarketSessionState = elim (normalize_session_state session_state) [
      | none ↦ clock_state
      | some s ↦ s
    ] in
    record { venue = v; phase = phase_of s v; source_session_state = s }

-- the phase as an enum, or a text that reads as one
abbrev pub is_main_market_phase : VenueMarketPhase → Bool
is_main_market_phase krx_continuous = true
is_main_market_phase nxt_main_market = true
is_main_market_phase _ = false

abbrev same_venue : TradingVenue → TradingVenue → Bool
same_venue krx krx = true
same_venue nxt nxt = true
same_venue _ _ = false

holds_venue : TradingVenue → List TradingVenue → Bool
holds_venue v [] = false
holds_venue v (w ∷ ws) = same_venue v w || holds_venue v ws

venues : List (Option Text) → List TradingVenue
venues [] = []
venues (raw ∷ items) = normalize_venue raw ∷ venues items

-- `none` and an empty list allow every venue
unfoldable pub phase_allowed_for_entry : VenueMarketPhase → Option (List (Option Text)) → Bool
unfolding holds_venue venues
phase_allowed_for_entry phase none = is_main_market_phase phase
phase_allowed_for_entry phase (some []) = is_main_market_phase phase
phase_allowed_for_entry krx_continuous (some (v ∷ vs)) = holds_venue krx (venues (v ∷ vs))
phase_allowed_for_entry nxt_main_market (some (v ∷ vs)) = holds_venue nxt (venues (v ∷ vs))
phase_allowed_for_entry _ (some (v ∷ vs)) = false

-- Some listed venue reads as this one.
abbrev pub IsListed : TradingVenue → List (Option Text) → Type 0
IsListed v [] = ⊥
IsListed v (raw ∷ items) = (normalize_venue raw ≡ v) ⊎ IsListed v items

holds_venue_iff :
    (v : TradingVenue) (items : List (Option Text))
    → (holds_venue v (venues items) ≡ true) ↔ IsListed v items
unfolding holds_venue venues
holds_venue_iff v [] = ground arith
holds_venue_iff v (raw ∷ items) = ground (arith, holds_venue_iff v items)

allowed_iff :
    (s : MarketSessionState) (v : TradingVenue) (raw : Option Text) (items : List (Option Text))
    → ((phase_allowed_for_entry (phase_of s v) none ≡ true) ↔ (s ≡ in_session))
      × ((phase_allowed_for_entry (phase_of s v) (some (raw ∷ items)) ≡ true)
          ↔ ((s ≡ in_session) × IsListed v (raw ∷ items)))
unfolding phase_allowed_for_entry phase_of
allowed_iff s krx raw items = ground (arith, holds_venue_iff krx (raw ∷ items))
allowed_iff s nxt raw items = ground (arith, holds_venue_iff nxt (raw ∷ items))

-- For the phase that the code resolves, an entry is allowed exactly in session and, where venues
-- are listed, on a listed venue.
pub entry_allowed_iff :
    (clock_state : MarketSessionState) (venue session_state raw : Option Text)
    (items : List (Option Text))
    → let c = resolve_market_phase_context clock_state venue session_state in
      ((phase_allowed_for_entry c.phase none ≡ true) ↔ (c.source_session_state ≡ in_session))
      × ((phase_allowed_for_entry c.phase (some (raw ∷ items)) ≡ true)
          ↔ ((c.source_session_state ≡ in_session) × IsListed c.venue (raw ∷ items)))
unfolding resolve_market_phase_context
entry_allowed_iff clock_state venue session_state raw items =
    let c = resolve_market_phase_context clock_state venue session_state in
    allowed_iff c.source_session_state c.venue raw items
