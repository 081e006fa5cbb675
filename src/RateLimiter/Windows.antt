-- ===== src/RateLimiter/Windows.antt =====
-- What the limiter lets through.
use cyber_lab_backend.Prelude.{
  ℕ, ==_refl, ◌+◌, ◌-◌, ◌≤◌, ◌<◌, ◌≡◌, false, leb, if◌then◌else◌, some, List, [], ◌∷◌, length, All,
  min, arith, Bool-cases, inl, inr,
}
use cyber_lab_backend.RateLimiter.{RateBucket, Buckets, set_bucket, take_one, consume}

module _ (maximum window : ℕ) where
  -- The calls of one user at the given times: how many are let through.
  pub let_through : ℕ → List ℕ → Buckets → ℕ
  let_through user_id [] buckets = 0
  let_through user_id (t ∷ times) buckets =
      let (next, allowed) = consume maximum window t user_id buckets in
      (if allowed then 1 else 0) + let_through user_id times next

  -- While a user's window lasts, the number of the user's calls that are let through is the lesser
  -- of their number and what the maximum leaves over of the count so far; the count is at most the
  -- maximum and the window at least one.
  pub let_through-window :
      (user_id : ℕ) (times : List ℕ) (buckets : Buckets) (b : RateBucket)
      → buckets user_id ≡ some b
      → b.count ≤ maximum
      → 1 ≤ window
      → All (λ t. t < b.started_at + window) times
      → let_through user_id times buckets ≡ min (length times) (maximum - b.count)
  unfolding let_through consume take_one
  let_through-window user_id [] buckets b e h w within = omega arith
  let_through-window user_id (t ∷ times) buckets b e h w (here, later) =
      let early : leb window (t - b.started_at) ≡ false = ground (arith, here) in
      elim (Bool-cases (leb maximum b.count)) [
        | inl full ↦
            rw (e, consume, take_one, early, full)
              (ground (
                arith,
                full,
                let_through-window user_id times (set_bucket user_id b buckets) b
                    (rw (==_refl user_id)) h w later,
              ))
        | inr room ↦
            let counted : RateBucket = record b { count = b.count + 1 } in
            rw (e, consume, take_one, early, room)
              (ground (
                arith,
                room,
                let_through-window user_id times (set_bucket user_id counted buckets) counted
                    (rw (==_refl user_id)) (ground (arith, room)) w later,
              ))
      ]
