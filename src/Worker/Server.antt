-- ===== src/Worker/Server.antt =====
-- internal/worker/server.go: the time that the task queue waits before it retries a task.
use market_replay.Prelude.{ℕ, ◌*◌, ◌-◌, ◌^◌, ◌<◌, if◌then◌else◌, ltb, ◌≡◌, arith}
use market_replay.Prelude.Int.{ℤ, pos, pos_part, neg_part, sub_ℕ, wrap64, wrap64_id, ltb_ℤ, eqb_ℤ}

abbrev pub five_minutes : ℕ
five_minutes = 300000000000

-- `backoff`, with its default of 15 seconds.
unfoldable pub backoff_or_default : ℤ → ℤ
backoff_or_default backoff = if eqb_ℤ backoff (pos 0) then pos 15000000000 else backoff

-- `RetryDelayFunc`: a Duration is an int64, and `1 << k` is one, so the product wraps around.
unfoldable pub retry_delay : ℤ → ℕ → ℤ
unfolding backoff_or_default
retry_delay backoff n =
    let base = backoff_or_default backoff in
    let delay = wrap64 (sub_ℕ (pos_part base * 2 ^ (n - 1)) (neg_part base * 2 ^ (n - 1))) in
    if ltb_ℤ (pos five_minutes) delay then pos five_minutes else delay

doubled :
    (backoff m : ℕ)
    → backoff * m < 2 ^ 63
    → wrap64 (sub_ℕ (backoff * m) (0 * m)) ≡ pos (backoff * m)
doubled backoff m fits =
    let plain : sub_ℕ (backoff * m) (0 * m) ≡ pos (backoff * m) = ground arith in
    rw plain (wrap64_id (pos (backoff * m)) (omega (arith, fits)))

-- For a positive backoff the delay is the backoff, doubled for each retry after the first, or five
-- minutes where that is less, as long as the doubled backoff is an int64.
pub retry_delay_lem :
    (backoff n : ℕ)
    → 0 < backoff
    → backoff * 2 ^ (n - 1) < 2 ^ 63
    → retry_delay (pos backoff) n ≡ (
        if ltb five_minutes (backoff * 2 ^ (n - 1))
        then pos five_minutes
        else pos (backoff * 2 ^ (n - 1)))
unfolding retry_delay backoff_or_default
retry_delay_lem backoff n given fits =
    let base : backoff_or_default (pos backoff) ≡ pos backoff = ground arith in
    rw (base, doubled backoff (2 ^ (n - 1)) fits) (ground arith)
