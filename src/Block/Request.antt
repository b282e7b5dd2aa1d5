-- ===== src/Block/Request.antt =====
-- What a block asks of its device in a handler. The calls return nothing, so the block's own new
-- state does not depend on them; the device carries them out in order.
use megumi.Base.{ℕ}
use megumi.Common.{IntLvl}

pub data Request : Type 0 where
  -- device_.schedule(event_, ticks) and device_.unschedule(event_)
  schedule : ℕ → Request
  unschedule : Request
  -- event_.period = prescaler * event_.scale
  set_period : ℕ → Request
  -- setIvLvl(iv, lvl), the vector relative to the block's base
  set_iv_lvl : ℕ → IntLvl → Request
  -- device_.onClockConfigChange()
  clock_changed : Request
