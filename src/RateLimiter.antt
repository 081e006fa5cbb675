-- ===== src/RateLimiter.antt =====
-- src/services/user-rate-limiter.ts: a fixed window for each user. The map of buckets is a function;
-- the constructor refuses a maximum or a window below one.
pub mod Windows
use cyber_lab_backend.Prelude.{
  ℕ, ◌+◌, ◌-◌, Bool, true, false, ◌==◌, leb, ltb, ◌||◌, if◌then◌else◌, Option, none, some,
}

pub record RateBucket : Type 0 where
  pub started_at : ℕ
  pub count : ℕ

abbrev pub Buckets : Type 0
Buckets = ℕ → Option RateBucket

abbrev pub set_bucket : ℕ → RateBucket → Buckets → Buckets
set_bucket user_id b buckets other = if other == user_id then some b else buckets other

-- Whether the constructor accepts its arguments.
pub constructible : (maximum window : ℕ) → Bool
constructible maximum window = if ltb maximum 1 || ltb window 1 then false else true

module _ (maximum window : ℕ) where
  -- The bucket after the call, and the answer. A clock that runs backwards gives a negative age,
  -- which is below the window, as the truncated difference is.
  unfoldable pub take_one : (now : ℕ) → Option RateBucket → RateBucket × Bool
  take_one now none = (record { started_at = now; count = 1 }, true)
  take_one now (some b) =
      if leb window (now - b.started_at)
      then (record { started_at = now; count = 1 }, true)
      else if leb maximum b.count
      then (b, false)
      else (record b { count = b.count + 1 }, true)

  unfoldable pub consume : (now user_id : ℕ) → Buckets → Buckets × Bool
  unfolding take_one
  consume now user_id buckets =
      let (b, allowed) = take_one now (buckets user_id) in (set_bucket user_id b buckets, allowed)
