-- ===== src/Replay.antt =====
-- internal/replay/replay.go: replaying a stream at the pace of its events.
-- The calls of `Sleep` are collected in a list; a `time.Duration` is an int64 of nanoseconds.
pub mod Loop
pub mod Pace
use market_replay.Prelude.{
  ℕ, ◌*◌, ◌/◌, ◌+◌, String, Bool, ◌||◌, List, [], ◌∷◌, ◌++◌, Option, none, some, if◌then◌else◌,
  ◌==◌,
}
use market_replay.Prelude.Int.{
  ℤ, pos, negsuc, pos_part, neg_part, sub_ℕ, sub64, wrap64, leb_ℤ, ltb_ℤ, eqb_ℤ,
}
use market_replay.Prelude.Result.{Result, ok, err}
use market_replay.Event.{MarketEvent, event_time_millis}

abbrev pub speed_max : String
speed_max = "max"

abbrev pub speed_1x : String
speed_1x = "1x"

abbrev pub speed_10x : String
speed_10x = "10x"

-- The error quotes the value.
unfoldable pub parse_speed : String → Result String String
parse_speed value =
    if value == speed_max || value == speed_1x || value == speed_10x then ok value else err value

-- `time.Duration(x) * time.Millisecond`
unfoldable pub milliseconds : ℤ → ℤ
milliseconds x = wrap64 (sub_ℕ (pos_part x * 1000000) (neg_part x * 1000000))

-- `x / 10`, which rounds towards zero.
unfoldable pub tenth : ℤ → ℤ
tenth x = sub_ℕ (pos_part x / 10) (neg_part x / 10)

-- What `sleepForEvent` sleeps for a step from one event time to the next.
unfoldable pub pause : String → ℤ → List ℤ
unfolding milliseconds tenth
pause speed delta =
    let whole = milliseconds delta in
    let sleep = if speed == speed_10x then tenth whole else whole in
    if leb_ℤ delta (pos 0) then [] else if ltb_ℤ (pos 0) sleep then sleep ∷ [] else []

-- `sleepForEvent`: the new `previousEventTime`, and the sleeps.
unfoldable pub sleep_for_event : MarketEvent → String → ℤ → ℤ × List ℤ
sleep_for_event ev speed previous =
    let event_time = event_time_millis ev in
    if speed == speed_max || leb_ℤ event_time (pos 0)
    then (event_time, [])
    else if eqb_ℤ previous (pos 0)
    then (event_time, [])
    else (event_time, pause speed (sub64 event_time previous))
