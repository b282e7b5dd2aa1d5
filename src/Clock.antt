-- ===== src/Clock.antt =====
-- clock.h and the clock of device.cpp: events on the SYS clock and the clocks derived from it.
pub mod Schedule
pub mod Rescale
mod Tests
use megumi.Base.{
  ℕ, ◌+◌, ◌-◌, ◌*◌, ◌/◌, ◌%◌, ◌^◌, Bool, true, false, if◌then◌else◌, ◌==◌, leb, u32, List, [], ◌∷◌,
  ◌++◌, Result, ok, err, undefined, ◌>>=◌,
}
use megumi.Block.Clk.{Clk}

pub data ClockType : Type 0 where
  sys cpu per per2 per4 asy : ClockType

-- A ClockEvent: `owner` stands for the object and its callback.
pub record Event : Type 0 where
  pub owner : ℕ
  pub clock : ClockType
  pub period : ℕ
  pub tick : ℕ
  pub scale : ℕ

-- clk_sys_tick_ and clk_sys_events_
pub record Clock : Type 0 where
  pub now : ℕ
  pub events : List Event

-- getClockScale; the enumeration has no other value for the `default` branch.
unfoldable pub get_clock_scale : Clk → ClockType → ℕ
get_clock_scale k sys = 1
get_clock_scale k cpu = u32 (k.prescaler_a * k.prescaler_b * k.prescaler_c)
get_clock_scale k per = u32 (k.prescaler_a * k.prescaler_b * k.prescaler_c)
get_clock_scale k per2 = u32 (k.prescaler_a * k.prescaler_b)
get_clock_scale k per4 = k.prescaler_a
get_clock_scale k asy = 1

unfoldable pub get_clock_frequency : Clk → ClockType → ℕ
unfolding get_clock_scale
get_clock_frequency k clock = k.f_sys / get_clock_scale k clock

-- The fields that schedule() writes.
abbrev pub scheduled : ℕ → ℕ → ClockType → ℕ → ℕ → Event
scheduled now owner clock ticks scale = record {
  owner = owner;
  clock = clock;
  period = u32 (ticks * scale);
  tick = u32 ((now / scale + ticks) * scale);
  scale = scale;
}

unfoldable pub schedule : Clk → Clock → ℕ → ClockType → ℕ → Clock
unfolding get_clock_scale
schedule k c owner clock ticks = record c {
  events = c.events ++ (scheduled c.now owner clock ticks (get_clock_scale k clock) ∷ []);
}

-- The first pointer to the event is erased; an event that is not found is only logged.
unfoldable pub remove : ℕ → List Event → List Event
remove owner [] = []
remove owner (e ∷ es) = let rest = remove owner es in if e.owner == owner then es else e ∷ rest

unfoldable pub unschedule : Clock → ℕ → Clock
unfolding remove
unschedule c owner = record c { events = remove owner c.events }

-- event_.period = prescaler * event_.scale, for a scheduled event.
unfoldable pub set_period : ℕ → ℕ → List Event → List Event
set_period owner prescaler [] = []
set_period owner prescaler (e ∷ es) =
    (if e.owner == owner then record e { period = u32 (prescaler * e.scale) } else e)
    ∷ set_period owner prescaler es

-- One event of onClockConfigChange. The differences are unsigned; a failed assertion aborts.
unfoldable pub rescale : ℕ → ℕ → Event → Result Event
rescale now scale e =
    let left = u32 (e.tick + 2 ^ 32 - now) in
    let dt = u32 (left + e.scale + 2 ^ 32 - 1) / e.scale in
    if e.scale == scale
    then ok e
    else if left % e.scale == 0
    then ok (record e {
      period = u32 (e.period / e.scale * scale);
      tick = u32 (now + dt * scale);
      scale = scale;
    })
    else err undefined

unfoldable pub on_clock_config_change : Clk → ℕ → List Event → Result (List Event)
unfolding rescale get_clock_scale
on_clock_config_change k now [] = ok []
on_clock_config_change k now (e ∷ es) = do
  e' ← rescale now (get_clock_scale k e.clock) e
  es' ← on_clock_config_change k now es
  ok (e' ∷ es')

-- One event of step(): whether it is due, and the event with its next tick.
abbrev pub is_due : ℕ → Event → Bool
is_due now e = leb e.tick now

abbrev pub advance : ℕ → Event → Event
advance now e = if is_due now e then record e { tick = u32 (e.tick + e.period) } else e
