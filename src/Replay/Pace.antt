-- ===== src/Replay/Pace.antt =====
-- How long a replay sleeps: the time between its first and its last event, at the replay's speed.
use market_replay.Prelude.{
  ℕ, ◌+◌, ◌-◌, ◌*◌, ◌/◌, ◌^◌, ◌<◌, ◌≤◌, String, true, false, List, [], ◌∷◌, ◌++◌, ◌≡◌, refl, ◌≢◌,
  arith, ◌∙◌, ap, sym, if◌then◌else◌, ◌==◌, eq_iff, Bool-cases, inl, inr, subst, append-nil, str_ne,
}
use market_replay.Prelude.Int.{
  ℤ, pos, pos_part, neg_part, ◌<ℤ◌, ◌≤ℤ◌, eqb_ℤ, leb_ℤ, sub64, ◌-ℤ◌, sub_ℕ, wrap64_id,
}
use market_replay.Event.{MarketEvent, event_time_millis}
use market_replay.Parser.Record.{Record}
use market_replay.Validate.Effects.{accepted}
use market_replay.Replay.{speed_max, speed_10x, milliseconds, tenth, pause, sleep_for_event}
use market_replay.Replay.Loop.{Run, replay_record, replay_all, start}

-- Nanoseconds slept in all.
abbrev pub total : List ℤ → ℕ
total [] = 0
total (d ∷ ds) = pos_part d + total ds

total-append : (xs ys : List ℤ) → total (xs ++ ys) ≡ total xs + total ys
total-append [] ys = omega arith
total-append (x ∷ xs) ys = omega (arith, total-append xs ys)

-- Nanoseconds of sleep for a millisecond between events.
abbrev pub factor : String → ℕ
factor speed = if speed == speed_max then 0 else if speed == speed_10x then 100000 else 1000000

-- No gap between events is so long that its nanoseconds pass int64.
abbrev pub max_gap : ℕ
max_gap = 9223372036854

sub64_pos : (p t : ℕ) → p ≤ t → t < 2 ^ 63 → sub64 (pos t) (pos p) ≡ pos (t - p)
unfolding sub64 ◌-ℤ◌
sub64_pos p t h b =
    let d : pos t -ℤ pos p ≡ pos (t - p) = ground arith in
    rw d (wrap64_id (pos (t - p)) (omega arith))

milliseconds_pos : (d : ℕ) → d ≤ max_gap → milliseconds (pos d) ≡ pos (d * 1000000)
unfolding milliseconds
milliseconds_pos d g =
    let e : sub_ℕ (d * 1000000) 0 ≡ pos (d * 1000000) = ground arith in
    rw e (wrap64_id (pos (d * 1000000)) (omega arith))

tenth_pos : (n : ℕ) → tenth (pos n) ≡ pos (n / 10)
unfolding tenth
tenth_pos n = ground arith

pause_pos :
    (speed : String) (d : ℕ)
    → speed ≢ speed_max
    → d ≤ max_gap
    → total (pause speed (pos d)) ≡ factor speed * d
unfolding pause
pause_pos speed d m g =
    rw (milliseconds_pos d g, tenth_pos (d * 1000000)) (ground (arith, eq_iff speed speed_max))

pause_total :
    (p t : ℕ) (speed : String)
    → speed ≢ speed_max
    → p ≤ t
    → t < 2 ^ 63
    → t - p ≤ max_gap
    → total (pause speed (sub64 (pos t) (pos p))) ≡ factor speed * (t - p)
pause_total p t speed m h b g =
    ap (λ d. total (pause speed d)) (sub64_pos p t h b) ∙ pause_pos speed (t - p) m g

-- The events that a replay plays.
abbrev pub events_of : String → List Record → List MarketEvent
events_of symbol [] = []
events_of symbol (r ∷ rs) =
    if accepted symbol r then r.event ∷ events_of symbol rs else events_of symbol rs

-- Times that do not fall, with no gap longer than `max_gap`, after the time `p`.
abbrev pub InStep : ℤ → List MarketEvent → Type 0
InStep p [] = Unit
InStep p (e ∷ es) =
    (p ≤ℤ event_time_millis e)
    × (pos_part (event_time_millis e) < 2 ^ 63)
    × (pos_part (event_time_millis e) - pos_part p ≤ max_gap)
    × InStep (event_time_millis e) es

abbrev pub last_time : ℤ → List MarketEvent → ℤ
last_time p [] = p
last_time p (e ∷ es) = last_time (event_time_millis e) es

le-last_time : (p : ℤ) (es : List MarketEvent) → InStep p es → p ≤ℤ last_time p es
le-last_time p [] h = omega arith
le-last_time p (e ∷ es) h = omega (arith, le-last_time (event_time_millis e) es h.3)

sleep_first :
    (ev : MarketEvent) (speed : String)
    → sleep_for_event ev speed (pos 0) ≡ (event_time_millis ev, [])
unfolding sleep_for_event
sleep_first ev speed = ground arith

sleep_step :
    (ev : MarketEvent) (speed : String) (p t : ℕ)
    → event_time_millis ev ≡ pos t
    → 0 < p
    → p ≤ t
    → t < 2 ^ 63
    → t - p ≤ max_gap
    → ((sleep_for_event ev speed (pos p)).0 ≡ pos t)
      × (total (sleep_for_event ev speed (pos p)).1 ≡ factor speed * (t - p))
unfolding sleep_for_event
sleep_step ev speed p t e z h b g = rw e (elim (Bool-cases (speed == speed_max)) [
  | inl m ↦ rw m (refl, omega arith)
  | inr m ↦
      let awake : leb_ℤ (pos t) (pos 0) ≡ false = ground arith in
      let moving : eqb_ℤ (pos p) (pos 0) ≡ false = ground arith in
      let slept = pause_total p t speed ((str_ne speed speed_max).0 m) h b g in
      rw (m, awake, moving) (refl, rw m at slept)
])

replay_skip :
    (symbol speed : String) (run : Run) (r : Record)
    → accepted symbol r ≡ false
    → ((replay_record symbol speed run r).previous ≡ run.previous)
      × ((replay_record symbol speed run r).sleeps ≡ run.sleeps)
unfolding replay_record
replay_skip symbol speed run r h = ground arith

replay_play :
    (symbol speed : String) (run : Run) (r : Record)
    → accepted symbol r ≡ true
    → ((replay_record symbol speed run r).previous ≡ (sleep_for_event r.event speed run.previous).0)
      × ((replay_record symbol speed run r).sleeps
          ≡ run.sleeps ++ (sleep_for_event r.event speed run.previous).1)
unfolding replay_record
replay_play symbol speed run r h = ground arith

pos_of_positive : (z : ℤ) → pos 0 <ℤ z → z ≡ pos (pos_part z)
pos_of_positive z h = ground arith

neg_of_positive : (z : ℤ) → pos 0 <ℤ z → neg_part z ≡ 0
neg_of_positive z h = ground arith

gap_split : (f p t l : ℕ) → p ≤ t → t ≤ l → f * (t - p) + f * (l - t) ≡ f * (l - p)
gap_split f p t l h k = let e : l - p ≡ (t - p) + (l - t) = omega arith in rw e (omega arith)

play_step :
    (symbol speed : String) (run : Run) (r : Record) (p : ℤ)
    → accepted symbol r ≡ true
    → run.previous ≡ p
    → pos 0 <ℤ p
    → p ≤ℤ event_time_millis r.event
    → pos_part (event_time_millis r.event) < 2 ^ 63
    → pos_part (event_time_millis r.event) - pos_part p ≤ max_gap
    → ((replay_record symbol speed run r).previous ≡ event_time_millis r.event)
      × (total (replay_record symbol speed run r).sleeps
          ≡ total run.sleeps + factor speed * (pos_part (event_time_millis r.event) - pos_part p))
play_step symbol speed run r p a e z h b g =
    let t = pos_part (event_time_millis r.event) in
    let (went, slept) = replay_play symbol speed run r a in
    let ep = e ∙ pos_of_positive p z in
    let later : pos 0 <ℤ event_time_millis r.event = omega arith in
    let et : event_time_millis r.event ≡ pos t =
      pos_of_positive (event_time_millis r.event) later in
    let (moved, paused) =
      sleep_step r.event speed (pos_part p) t et (omega (arith, neg_of_positive p z))
        (omega (arith, neg_of_positive p z, neg_of_positive (event_time_millis r.event) later)) b
        g in
    (
      went ∙ ap (λ q. (sleep_for_event r.event speed q).0) ep ∙ moved ∙ sym et,
      ap total slept
          ∙ total-append run.sleeps (sleep_for_event r.event speed run.previous).1
          ∙ ap (λ q. total run.sleeps + total (sleep_for_event r.event speed q).1) ep
          ∙ ap (λ d. total run.sleeps + d) paused,
    )

replay_total :
    (symbol speed : String) (rs : List Record) (run : Run) (p : ℤ)
    → run.previous ≡ p
    → pos 0 <ℤ p
    → InStep p (events_of symbol rs)
    → total (replay_all symbol speed run rs).sleeps
      ≡ total run.sleeps
        + factor speed * (pos_part (last_time p (events_of symbol rs)) - pos_part p)
unfolding replay_all
replay_total symbol speed [] run p e z h = grind arith
replay_total symbol speed (r ∷ rs) run p e z h = elim (Bool-cases (accepted symbol r)) [
  | inl a ↦
      let h' = rw a at h in
      let (went, slept) = play_step symbol speed run r p a e z h'.0 h'.1 h'.2 in
      let positive : pos 0 <ℤ event_time_millis r.event = omega (arith, h'.0) in
      let rest =
        replay_total symbol speed rs (replay_record symbol speed run r) (event_time_millis r.event)
          went positive h'.3 in
      let later = le-last_time (event_time_millis r.event) (events_of symbol rs) h'.3 in
      let last : pos 0 <ℤ last_time (event_time_millis r.event) (events_of symbol rs) =
        omega (arith, later) in
      rw a (
        omega (
          arith,
          rest,
          slept,
          gap_split (factor speed) (pos_part p) (pos_part (event_time_millis r.event))
              (pos_part (last_time (event_time_millis r.event) (events_of symbol rs)))
              (omega (arith, h'.0, neg_of_positive p z, neg_of_positive _ positive))
              (omega (arith, later, neg_of_positive _ positive, neg_of_positive _ last)),
        ))
  | inr a ↦
      let (went, slept) = replay_skip symbol speed run r a in
      let rest =
        replay_total symbol speed rs (replay_record symbol speed run r) p (went ∙ e) z
          (rw a at h) in
      rw a (
        rest
        ∙ ap
            (λ ds.
              total ds + factor speed * (pos_part (last_time p (events_of symbol rs)) - pos_part p))
            slept)
]

replay_from_zero :
    (symbol speed : String) (rs : List Record) (run : Run) {ev : MarketEvent}
    {es : List MarketEvent}
    → run.previous ≡ pos 0
    → events_of symbol rs ≡ ev ∷ es
    → pos 0 <ℤ event_time_millis ev
    → InStep (event_time_millis ev) es
    → total (replay_all symbol speed run rs).sleeps
      ≡ total run.sleeps
        + factor speed
          * (pos_part (last_time (event_time_millis ev) es) - pos_part (event_time_millis ev))
unfolding replay_all
replay_from_zero symbol speed [] run e s z h = cc
replay_from_zero symbol speed (r ∷ rs) run {ev} {es} e s z h =
    elim (Bool-cases (accepted symbol r)) [
      | inl a ↦
          let s' = rw a at s in
          let first : r.event ≡ ev = cc s' in
          let others : events_of symbol rs ≡ es = cc s' in
          let (went, slept) = replay_play symbol speed run r a in
          let fresh = ap (sleep_for_event r.event speed) e ∙ sleep_first r.event speed in
          let quiet : total (replay_record symbol speed run r).sleeps ≡ total run.sleeps =
            ap total slept
            ∙ ap (λ (q : ℤ × List ℤ). total (run.sleeps ++ q.1)) fresh
            ∙ ap total (append-nil run.sleeps) in
          let moved = went ∙ ap (λ (q : ℤ × List ℤ). q.0) fresh ∙ ap event_time_millis first in
          replay_total symbol speed rs (replay_record symbol speed run r) (event_time_millis ev)
            moved z (subst (InStep (event_time_millis ev)) (sym others) h)
          ∙ ap
              (λ n.
                n
                + factor speed
                  * (pos_part (last_time (event_time_millis ev) (events_of symbol rs))
                      - pos_part (event_time_millis ev)))
              quiet
          ∙ ap
              (λ l.
                total run.sleeps
                + factor speed
                  * (pos_part (last_time (event_time_millis ev) l)
                      - pos_part (event_time_millis ev)))
              others
      | inr a ↦
          let (went, slept) = replay_skip symbol speed run r a in
          replay_from_zero symbol speed rs (replay_record symbol speed run r) (went ∙ e) (rw a at s)
            z h
          ∙ ap
              (λ ds.
                total ds
                + factor speed
                  * (pos_part (last_time (event_time_millis ev) es)
                      - pos_part (event_time_millis ev)))
              slept
    ]

-- A replay of events with positive times that do not fall, no gap being longer than `max_gap`
-- milliseconds (292 years), sleeps in all the time from its first to its last event: in full at speed
-- 1x, a tenth of it at 10x, and not at all at max.
pub replay_sleeps :
    (symbol speed : String) (now : ℤ) (rs : List Record) (ev : MarketEvent) (es : List MarketEvent)
    → events_of symbol rs ≡ ev ∷ es
    → pos 0 <ℤ event_time_millis ev
    → InStep (event_time_millis ev) es
    → total (replay_all symbol speed (start symbol now) rs).sleeps
      ≡ factor speed
        * (pos_part (last_time (event_time_millis ev) es) - pos_part (event_time_millis ev))
replay_sleeps symbol speed now rs ev es s z h =
    replay_from_zero symbol speed rs (start symbol now) refl s z h ∙ omega arith
