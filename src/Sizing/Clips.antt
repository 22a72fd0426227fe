-- ===== src/Sizing/Clips.antt =====
-- The quantity that the sizing chain of src/a3_risk/sizing.py returns, against its bounds.
use news_pipeline.Base.{
  true, false, ◌≡◌, none, some, List, [], ◌∷◌, arith, All, Bool-cases, default_to, inl, inr, ◌++◌,
  sym, subst,
}
use news_pipeline.Base.Int.{ℤ, pos, ltb_ℤ}
use news_pipeline.Num.{Num, IsFloat, ◌≤f◌, min_f}
use news_pipeline.Direction.Laws.{le_of_not_lt}
use news_pipeline.Sizing.{
  Horizon, Flag, size, Clip, SizingInputs, LimitsCfg, Profile, ShortingCfg, CapitalCfg,
  SizingResult, limit_price_from_snapshot, hard_gates, clips, min_clips, finish, chain, size_entry,
  sector_flags,
}

module _ {F : Type 0} ⦃num : Num F⦄ (law : IsFloat F) where
  open num use {of_ℤ, mul, div, floor, is_lt}

  min_f_le : (a b : F) → (min_f a b ≤f a) × (min_f a b ≤f b)
  min_f_le a b = elim (Bool-cases (is_lt b a)) [
    | inl below ↦ rw below (law.le_of_lt b a below, law.le_refl b)
    | inr above ↦ rw above (law.le_refl a, le_of_not_lt law b a above)
  ]

  abbrev pub IsWithin : F → List (Clip × F) → Type 0
  IsWithin q cs = All (λ c. q ≤f c.1) cs

  min_clips_le_start : (acc : F) (cs : List (Clip × F)) → min_clips acc cs ≤f acc
  unfolding min_clips
  min_clips_le_start acc [] = law.le_refl acc
  min_clips_le_start acc ((c, v) ∷ cs) =
      law.le_trans (min_clips (min_f acc v) cs) (min_f acc v) acc
        (min_clips_le_start (min_f acc v) cs) (min_f_le acc v).0

  min_clips_le : (acc : F) (cs : List (Clip × F)) → IsWithin (min_clips acc cs) cs
  unfolding min_clips
  min_clips_le acc [] = tt
  min_clips_le acc ((c, v) ∷ cs) = (
    law.le_trans (min_clips (min_f acc v) cs) (min_f acc v) v (min_clips_le_start (min_f acc v) cs)
        (min_f_le acc v).1,
    min_clips_le (min_f acc v) cs,
  )

  IsWithin-le : (a b : F) (cs : List (Clip × F)) → a ≤f b → IsWithin b cs → IsWithin a cs
  IsWithin-le a b [] h w = tt
  IsWithin-le a b ((c, v) ∷ cs) h w = (law.le_trans a b v h w.0, IsWithin-le a b cs h w.1)

  floor-IsWithin :
      (raw : F) (cs : List (Clip × F))
      → let q = of_ℤ (floor (min_clips raw cs)) in (q ≤f raw) × IsWithin q cs
  floor-IsWithin raw cs =
      let m = min_clips raw cs in
      (
        law.le_trans (of_ℤ (floor m)) m raw (law.floor_le m) (min_clips_le_start raw cs),
        IsWithin-le (of_ℤ (floor m)) m cs (law.floor_le m) (min_clips_le raw cs),
      )

module _ {F : Type 0} ⦃num : Num F⦄ where
  open num use {of_ℤ, mul, div, floor, is_lt, round}

  -- The price, distance and clips of an entry whose ATR is known.
  abbrev pub entry_limit : SizingInputs F → F
  entry_limit inp = limit_price_from_snapshot inp.ask inp.spread_bps inp.side inp.bid

  abbrev pub entry_clips :
      SizingInputs F → CapitalCfg F → LimitsCfg F → ShortingCfg F → Horizon → F → List (Clip × F)
  entry_clips inp cfg limits scfg horizon stop_distance =
      clips inp cfg limits scfg horizon (entry_limit inp) stop_distance

  finish-size :
      (inp : SizingInputs F) (cfg : CapitalCfg F) (profile : Profile F)
      (atr risk_budget stop_distance limit_price : F) (qty : ℤ) (flags : List Flag)
      → let r = finish inp cfg profile atr risk_budget stop_distance limit_price qty flags in
        r.verdict ≡ size
        → (r.qty ≡ qty)
          × (ltb_ℤ (pos 0) qty ≡ true)
          × (is_lt (mul (of_ℤ qty) stop_distance) (mul cfg.min_viable_risk_fraction risk_budget)
              ≡ false)
  unfolding finish
  finish-size inp cfg profile atr risk_budget stop_distance limit_price qty flags h = ground arith

  -- The raw quantity and the quantity of a chain.
  abbrev pub raw_qty : SizingInputs F → CapitalCfg F → F → F
  raw_qty inp cfg stop_distance =
      div (mul cfg.risk_per_trade_pct inp.effective_capital) stop_distance

  abbrev pub clipped_qty :
      SizingInputs F → CapitalCfg F → LimitsCfg F → ShortingCfg F → Horizon → F → ℤ
  clipped_qty inp cfg limits scfg horizon stop_distance = floor (
      min_clips (raw_qty inp cfg stop_distance)
        (entry_clips inp cfg limits scfg horizon stop_distance))

  -- The clipped risk is worth the trade.
  abbrev pub IsViable : SizingInputs F → CapitalCfg F → F → ℤ → Type 0
  IsViable inp cfg stop_distance qty =
      is_lt (mul (of_ℤ qty) stop_distance)
        (mul cfg.min_viable_risk_fraction (mul cfg.risk_per_trade_pct inp.effective_capital))
      ≡ false

  chain-size :
      (inp : SizingInputs F) (cfg : CapitalCfg F) (limits : LimitsCfg F) (profile : Profile F)
      (scfg : ShortingCfg F) (horizon : Horizon) (k_adj atr : F) (flags : List Flag)
      (r : SizingResult F)
      → chain inp cfg limits profile scfg horizon k_adj atr flags ≡ some r
      → r.verdict ≡ size
      → (r.qty ≡ clipped_qty inp cfg limits scfg horizon (mul k_adj atr))
        × (ltb_ℤ (pos 0) r.qty ≡ true)
        × IsViable inp cfg (mul k_adj atr) r.qty
  unfolding chain
  chain-size inp cfg limits profile scfg horizon k_adj atr flags r h v =
      let sd = mul k_adj atr in
      ground (
        arith,
        finish-size inp cfg profile atr (mul cfg.risk_per_trade_pct inp.effective_capital) sd
            (entry_limit inp) (clipped_qty inp cfg limits scfg horizon sd)
            (flags ++ sector_flags inp.sector),
      )

  size_entry-chain :
      (inp : SizingInputs F) (cfg : CapitalCfg F) (limits : LimitsCfg F) (profile : Profile F)
      (horizon : Horizon) (k_adj : F) (earnings : ℤ) (scfg : ShortingCfg F) (atr : F)
      (r : SizingResult F)
      → let gates =
          hard_gates inp limits profile earnings
            (default_to (pos 2) scfg.dividend_blackout_sessions) in
        inp.atr_14 ≡ some atr
        → size_entry inp cfg limits profile horizon k_adj earnings scfg ≡ some r
        → r.verdict ≡ size
        → (gates.0 ≡ none) × (chain inp cfg limits profile scfg horizon k_adj atr gates.1 ≡ some r)
  unfolding size_entry
  size_entry-chain inp cfg limits profile horizon k_adj earnings scfg atr r known h v = ground arith

  -- A sized entry passed every hard gate; its quantity is positive, viable, within the risk budget's
  -- raw quantity and within every clip of its side: notional, liquidity, cash or buying power, the
  -- short book, deployed capital, and the heat of lane, portfolio and sector.
  pub size_entry-IsWithin :
      (law : IsFloat F) (inp : SizingInputs F) (cfg : CapitalCfg F) (limits : LimitsCfg F)
      (profile : Profile F) (horizon : Horizon) (k_adj : F) (earnings : ℤ) (scfg : ShortingCfg F)
      (atr : F) (r : SizingResult F)
      → inp.atr_14 ≡ some atr
      → size_entry inp cfg limits profile horizon k_adj earnings scfg ≡ some r
      → r.verdict ≡ size
      → let sd = mul k_adj atr in
        ((hard_gates inp limits profile earnings
            (default_to (pos 2) scfg.dividend_blackout_sessions)).0
          ≡ none)
        × (ltb_ℤ (pos 0) r.qty ≡ true)
        × IsViable inp cfg sd r.qty
        × (of_ℤ r.qty ≤f raw_qty inp cfg sd)
        × All (λ c. of_ℤ r.qty ≤f c.1) (entry_clips inp cfg limits scfg horizon sd)
  size_entry-IsWithin law inp cfg limits profile horizon k_adj earnings scfg atr r known h v =
      let sd = mul k_adj atr in
      let gates =
        hard_gates inp limits profile earnings
          (default_to (pos 2) scfg.dividend_blackout_sessions) in
      let (silent, chained) =
        size_entry-chain inp cfg limits profile horizon k_adj earnings scfg atr r known h v in
      let (q, positive, viable) =
        chain-size inp cfg limits profile scfg horizon k_adj atr gates.1 r chained v in
      let cs = entry_clips inp cfg limits scfg horizon sd in
      let within = floor-IsWithin law (raw_qty inp cfg sd) cs in
      (
        silent,
        positive,
        viable,
        rw q within.0,
        subst (λ z. All (λ c. of_ℤ z ≤f c.1) cs) (sym q) within.1,
      )
