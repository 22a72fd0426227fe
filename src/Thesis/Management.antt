-- ===== src/Thesis/Management.antt =====
-- The management pass of src/c11_thesis/service.py over one open position: the exits that it arms.
use news_pipeline.Base.{
  ℕ, Bool, true, false, not, ◌&&◌, ◌||◌, ◌==◌, ltb, ◌≡◌, refl, Option, none, some, List, [], ◌∷◌,
  all, any, All, length, is_none, arith, if◌then◌else◌, Bool-cases, inl, inr,
}
use news_pipeline.Num.{Num, IsFloat, truthy, or_else, ◌≤f◌}
use news_pipeline.Thesis.Measures.{first_bars}

-- The part of an `exit_policy` that the pass reads and writes.
pub record ThesisPolicy (F : Type 0) : Type 0 where
  pub initial_stop : F
  pub current_stop : Option F
  pub exit_at_open : Bool

pub data ThesisStatus : Type 0 where
  active_thesis dead_thesis missing_thesis : ThesisStatus

-- A nightly review of A6
pub record NightlyVerdict : Type 0 where
  pub says_exit : Bool
  pub thesis_broken : Bool

pub data ManageAction : Type 0 where
  dead_exit review_exit : ManageAction

-- The `management` section
pub record ManageCfg : Type 0 where
  pub exit_dead_theses : Bool
  pub exit_on_review_verdicts : ℕ
  pub dead_exit_at_open : Bool

-- `review_exit_due`
unfoldable pub review_exit_due : List NightlyVerdict → ℕ → Bool
review_exit_due verdicts n =
    if n == 0 || ltb (length verdicts) n
    then false
    else all (λ v. v.says_exit && v.thesis_broken) (first_bars n verdicts)

-- `management_action`
unfoldable pub management_action :
    ManageCfg → ThesisStatus → List NightlyVerdict → Option ManageAction
unfolding review_exit_due
management_action cfg active_thesis verdicts =
    if review_exit_due verdicts cfg.exit_on_review_verdicts then some review_exit else none
management_action cfg dead_thesis verdicts = if cfg.exit_dead_theses then some dead_exit else none
management_action cfg missing_thesis verdicts =
    if cfg.exit_dead_theses then some dead_exit else none

module _ {F : Type 0} ⦃num : Num F⦄ where
  open num use {mul, round, lit, is_le}

  -- `float(exit_policy.get("current_stop") or exit_policy["initial_stop"]["price"])`
  abbrev pub live_stop : ThesisPolicy F → F
  live_stop p = or_else p.current_stop p.initial_stop

  -- `round(last_price * 0.995, 2)`
  abbrev pub tight_target : F → F
  tight_target mark = round (mul mark (lit 995 3)) 2

  -- `tighten_stop`
  unfoldable pub tighten_stop : ThesisPolicy F → F → Option (ThesisPolicy F)
  tighten_stop p mark =
      if is_le (tight_target mark) (live_stop p)
      then none
      else some (record p { current_stop = some (tight_target mark) })

  abbrev pub arm_open : Bool → ThesisPolicy F → ThesisPolicy F
  arm_open at_open p = if at_open && not p.exit_at_open then record p { exit_at_open = true } else p

  abbrev pub armed_policy : Bool → ThesisPolicy F → Option (ThesisPolicy F) → ThesisPolicy F
  armed_policy at_open p (some tightened) = arm_open at_open tightened
  armed_policy at_open p none = if not at_open || p.exit_at_open then p else arm_open at_open p

  -- The policy of a position after the pass.
  abbrev pub act_on : ManageCfg → Option ManageAction → F → ThesisPolicy F → ThesisPolicy F
  act_on cfg none mark p = p
  act_on cfg (some action) mark p = armed_policy cfg.dead_exit_at_open p (tighten_stop p mark)

  unfoldable pub manage_position :
      ManageCfg → ThesisStatus → List NightlyVerdict → F → ThesisPolicy F → ThesisPolicy F
  unfolding management_action tighten_stop
  manage_position cfg status verdicts mark p =
      act_on cfg (management_action cfg status verdicts) mark p

-- A run of the pass, with what it finds of the position.
pub record Night (F : Type 0) : Type 0 where
  pub status : ThesisStatus
  pub verdicts : List NightlyVerdict
  pub mark : F

module _ {F : Type 0} ⦃num : Num F⦄ where
  unfoldable pub manage_nights : ManageCfg → List (Night F) → ThesisPolicy F → ThesisPolicy F
  unfolding manage_position
  manage_nights cfg [] p = p
  manage_nights cfg (n ∷ ns) p =
      manage_nights cfg ns (manage_position cfg n.status n.verdicts n.mark p)

  -- The night calls for an exit.
  abbrev pub calls_exit : ManageCfg → Night F → Bool
  calls_exit cfg n = not (is_none (management_action cfg n.status n.verdicts))

  module _ (laws : IsFloat F) where
    open laws use {le_refl, le_trans, lt_not_ge, le_of_lt}

    not_le-ge : (a b : F) → num.is_le a b ≡ false → b ≤f a
    not_le-ge a b h = le_of_lt b a (rw (lt_not_ge b a, h) refl)

    arm_open-live_stop :
        (at_open : Bool) (p : ThesisPolicy F) → live_stop (arm_open at_open p) ≡ live_stop p
    arm_open-live_stop at_open p = elim (Bool-cases (at_open && not p.exit_at_open)) [
      | inl arms ↦ rw arms refl
      | inr rests ↦ rw rests refl
    ]

    arm_open-exit_at_open :
        (at_open : Bool) (p : ThesisPolicy F)
        → (arm_open at_open p).exit_at_open ≡ (p.exit_at_open || at_open)
    arm_open-exit_at_open at_open p = ground arith

    armed-untightened :
        (at_open : Bool) (p : ThesisPolicy F)
        → (live_stop (armed_policy at_open p none) ≡ live_stop p)
          × ((armed_policy at_open p none).exit_at_open ≡ (p.exit_at_open || at_open))
    armed-untightened at_open p = elim (Bool-cases (not at_open || p.exit_at_open)) [
      | inl rests ↦ rw rests (refl, ground (arith, rests))
      | inr arms ↦ rw arms (arm_open-live_stop at_open p, arm_open-exit_at_open at_open p)
    ]

    -- The tightened policy, with a target that is not zero.
    tightened-rises :
        (p : ThesisPolicy F) (mark : F)
        → truthy (tight_target mark) ≡ true
        → num.is_le (tight_target mark) (live_stop p) ≡ false
        → live_stop p ≤f live_stop (record p { current_stop = some (tight_target mark) })
    tightened-rises p mark there high = rw there (not_le-ge (tight_target mark) (live_stop p) high)

    act_on-rises :
        (cfg : ManageCfg) (action : Option ManageAction) (mark : F) (p : ThesisPolicy F)
        → truthy (tight_target mark) ≡ true
        → (live_stop p ≤f live_stop (act_on cfg action mark p))
          × ((act_on cfg action mark p).exit_at_open
              ≡ (p.exit_at_open || (not (is_none action) && cfg.dead_exit_at_open)))
    unfolding tighten_stop
    act_on-rises cfg none mark p there = (le_refl (live_stop p), ground arith)
    act_on-rises cfg (some action) mark p there =
        let at_open = cfg.dead_exit_at_open in
        elim (Bool-cases (num.is_le (tight_target mark) (live_stop p))) [
          | inl low ↦
              let same = armed-untightened at_open p in
              rw low (rw same.0 (le_refl (live_stop p)), same.1)
          | inr high ↦
              let tightened : ThesisPolicy F = record p {
                current_stop = some (tight_target mark);
              } in
              rw high (
                rw (arm_open-live_stop at_open tightened) (tightened-rises p mark there high),
                arm_open-exit_at_open at_open tightened,
              )
        ]

    -- Over any nights whose tightened stops are not zero, the live stop of a position never falls, and
    -- it is armed for the open at the end exactly if it was at the start, or if a night called for an
    -- exit and exits at the open are on.
    pub manage_nights-IsNoLooser :
        (cfg : ManageCfg) (ns : List (Night F)) (p : ThesisPolicy F)
        → All (λ n. truthy (tight_target n.mark) ≡ true) ns
        → (live_stop p ≤f live_stop (manage_nights cfg ns p))
          × ((manage_nights cfg ns p).exit_at_open
              ≡ (p.exit_at_open || (any (calls_exit cfg) ns && cfg.dead_exit_at_open)))
    unfolding manage_nights manage_position
    manage_nights-IsNoLooser cfg [] p there = (le_refl (live_stop p), ground arith)
    manage_nights-IsNoLooser cfg (n ∷ ns) p (here, there) =
        let action = management_action cfg n.status n.verdicts in
        let q = act_on cfg action n.mark p in
        let first = act_on-rises cfg action n.mark p here in
        let rest = manage_nights-IsNoLooser cfg ns q there in
        (
          le_trans (live_stop p) (live_stop q) (live_stop (manage_nights cfg ns q)) first.0 rest.0,
          ground (arith, first.1, rest.1),
        )
