-- ===== src/Examples/Guards.antt =====
-- The theorem on the guard, for a signal that is delivered twice.
use news_pipeline.Base.{true, false, ◌==◌, ◌≡◌, refl, some, List, [], ◌∷◌, if◌then◌else◌}
use news_pipeline.Guard.{
  exit, tighten_stop, high_urgency, GuardVerdict, unparsed, parsed, AutoCfg, GuardCfg, decided,
  GuardDelivery, no_rows, handle_guard, guard_positions, guard_position, ask, after_reply,
  validate_guard, auto_execute_gate, guard_deliveries,
}
use news_pipeline.Guard.Once.{IsGuarded, guard_deliveries-IsGuarded}

abbrev auto_cfg : AutoCfg
auto_cfg = record {
  enabled = true;
  actions = [];
  urgencies = [];
  require_watch_hit_or_correction = true;
}

abbrev guard_cfg : GuardCfg
guard_cfg = record { retries = 1; max_age_minutes = 240; auto_execute = auto_cfg }

-- The news of the watch list: leave.
abbrev leave : GuardVerdict
leave = record {
  thesis_intact = false;
  recommended_action = exit;
  urgency = high_urgency;
  watch_hits = 1;
  news_confirms_move = false;
}

abbrev tighten : GuardVerdict
tighten = record leave { recommended_action = tighten_stop }

-- The first position is left at the second attempt, then the delivery dies; the next one finds both.
abbrev twice : List GuardDelivery
twice =
    record {
      age = 3;
      positions = 7 ∷ 8 ∷ [];
      slot_ready = true;
      replies = λ p n. if n == 0 then unparsed else parsed leave;
      still_open = λ p. true;
      done = 1;
    }
    ∷ record {
      age = 9;
      positions = 7 ∷ 8 ∷ [];
      slot_ready = true;
      replies = λ p n. parsed tighten;
      still_open = λ p. true;
      done = 2;
    }
    ∷ []

twice-rows : guard_deliveries guard_cfg false twice no_rows ≡ record {
  rows =
      record { position = some 8; outcome = decided tighten false }
      ∷ record { position = some 7; outcome = decided leave true }
      ∷ [];
  armed = 7 ∷ [];
}
unfolding guard_deliveries handle_guard guard_positions guard_position ask after_reply
    validate_guard auto_execute_gate
twice-rows = refl

guard_deliveries-IsGuarded_example :
    IsGuarded auto_cfg false (guard_deliveries guard_cfg false twice no_rows)
guard_deliveries-IsGuarded_example = guard_deliveries-IsGuarded guard_cfg false twice
