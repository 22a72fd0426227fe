-- ===== src/Gate/Credibility.antt =====
-- The corroboration matrix of src/c3_gate/rules.py.
use news_pipeline.Base.{div_mono, ℕ, ◌-◌, ◌/◌, ◌≤◌, ◌≡◌, some, arith}
use native.Mathlib.Nat.{zero-div}
use news_pipeline.Gate.{
  Level, low, medium, high, GrowthCfg, GateCfg, max_ℕ, growth_credit, credibility_required,
}

-- Cluster growth earns at most the cap, nothing where the cluster holds no item beyond the outlets
-- counted on their own, so nothing for a lone item, and never less for a larger cluster.
pub growth_credit_bounds :
    (outlets items more : ℕ) (g : GrowthCfg)
    → items ≤ more
    → (growth_credit outlets items (some g) ≤ g.max_credit)
      × (growth_credit outlets outlets (some g) ≡ 0)
      × (growth_credit outlets 1 (some g) ≡ 0)
      × (growth_credit outlets items (some g) ≤ growth_credit outlets more (some g))
unfolding growth_credit
growth_credit_bounds outlets items more g h =
    let used = max_ℕ outlets 1 in
    let k = g.items_per_credit in
    let outlets_used : outlets - used ≡ 0 = ground arith in
    let one_used : 1 - used ≡ 0 = ground arith in
    let rises : (items - used) / k ≤ (more - used) / k =
      div_mono (items - used) (more - used) k (omega arith) in
    (
      ground arith,
      rw outlets_used (rw (zero-div k) (ground arith)),
      rw one_used (rw (zero-div k) (ground arith)),
      ground arith,
    )

module _ {F : Type 0} where
  -- Where the configured requirement does not fall with the impact, a high source risk never lowers
  -- it; a tier-one source always needs one outlet.
  pub credibility_required_risk :
      (impact risk : Level) (tier_min : ℕ) (cfg : GateCfg F)
      → cfg.required_outlets low tier_min ≤ cfg.required_outlets medium tier_min
      → cfg.required_outlets medium tier_min ≤ cfg.required_outlets high tier_min
      → (credibility_required impact tier_min low cfg
          ≤ credibility_required impact tier_min risk cfg)
        × (credibility_required impact 1 risk cfg ≡ 1)
  unfolding credibility_required
  credibility_required_risk impact risk tier_min cfg h k = ground arith
