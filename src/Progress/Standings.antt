-- ===== src/Progress/Standings.antt =====
-- The leaderboard is in order, and agrees with what each player is shown.
use cyber_lab_backend.Prelude.{
  ℕ, zero, suc, ◌≤◌, ◌<◌, ◌≡◌, refl, sym, ◌∙◌, ap, Bool, true, false, ◌&&◌, some, String, List, [],
  ◌∷◌, map, length, take, sum, sum-order_by, length-order_by, Sorted, order_by-Sorted, All,
  select_where, select_one, arith, Option-cases, inl, inr,
}
use cyber_lab_backend.Schema.{Database, User, Solve}
use cyber_lab_backend.Progress.{
  ProgressSolve, PlayerProgress, LeaderboardEntry, Standing, solved_of, has_challenge, active_with,
  entry_of, solved_before, progress_solve, solves_of, progress_of, get_player_progress, standing_of,
  ranks_before, number_from, list_leaderboard,
}

-- By points, and with the same points by the number of solves.
abbrev Outranks : Standing → Standing → Type 0
Outranks a b =
    (b.total_points ≤ a.total_points)
    × (b.total_points ≡ a.total_points → b.solved_count ≤ a.solved_count)

ranks_before-Outranks :
    (name_before : String → String → Bool) (a b : Standing)
    → ranks_before name_before a b ≡ true
    → Outranks a b
unfolding ranks_before
ranks_before-Outranks name_before a b e = (ground (arith, e), λ same. ground (arith, e, same))

ranks_after-Outranks :
    (name_before : String → String → Bool) (a b : Standing)
    → ranks_before name_before a b ≡ false
    → Outranks b a
unfolding ranks_before
ranks_after-Outranks name_before a b e = (ground (arith, e), λ same. ground (arith, e, same))

Outranks-trans : (a b c : Standing) → Outranks a b → Outranks b c → Outranks a c
Outranks-trans a b c (p, q) (r, s) = (
  ground (arith, p, r),
  λ same.
      let first : b.total_points ≡ a.total_points = ground (arith, p, r, same) in
      let second : c.total_points ≡ b.total_points = ground (arith, p, r, same) in
      let q' = q first in let s' = s second in ground (arith, q', s'),
)

take-All {ℓ κ} : {A : Type ℓ} (P : A → Type κ) (n : ℕ) (xs : List A) → All P xs → All P (take n xs)
take-All P zero xs a = tt
take-All P (suc n) [] a = tt
take-All P (suc n) (x ∷ xs) (a, as') = (a, take-All P n xs as')

take-Sorted {ℓ κ} :
    {A : Type ℓ} (R : A → A → Type κ) (n : ℕ) (xs : List A) → Sorted R xs → Sorted R (take n xs)
take-Sorted R zero xs s = tt
take-Sorted R (suc n) [] s = tt
take-Sorted R (suc n) (x ∷ xs) (a, s) = (take-All (R x) n xs a, take-Sorted R n xs s)

-- A better rank has no fewer points, and with the same points no fewer solves.
abbrev pub IsRankedBefore : LeaderboardEntry → LeaderboardEntry → Type 0
IsRankedBefore a b =
    (a.rank < b.rank)
    × (b.total_points ≤ a.total_points)
    × (b.total_points ≡ a.total_points → b.solved_count ≤ a.solved_count)

number-All :
    (e : LeaderboardEntry) (s : Standing) (rank : ℕ) (standings : List Standing)
    → e.total_points ≡ s.total_points
    → e.solved_count ≡ s.solved_count
    → e.rank < rank
    → All (Outranks s) standings
    → All (IsRankedBefore e) (number_from rank standings)
unfolding number_from
number-All e s rank [] points count r h = tt
number-All e s rank (x ∷ standings) points count r ((p, q), hs) = (
  (
    r,
    ground (arith, p, points),
    λ same. let least = q (ground (arith, same, points)) in ground (arith, least, count),
  ),
  number-All e s (suc rank) standings points count (ground (arith, r)) hs,
)

number-Sorted :
    (rank : ℕ) (standings : List Standing)
    → Sorted Outranks standings
    → Sorted IsRankedBefore (number_from rank standings)
unfolding number_from
number-Sorted rank [] h = tt
number-Sorted rank (s ∷ standings) (behind, rest) = (
  number-All (entry_of rank s) s (suc rank) standings refl refl (omega arith) behind,
  number-Sorted (suc rank) standings rest,
)

-- On the leaderboard, an entry before another has a smaller rank and no fewer points, and with the
-- same points no fewer solves.
pub list_leaderboard-Sorted :
    (name_before : String → String → Bool) (limit : ℕ) (db : Database)
    → Sorted IsRankedBefore (list_leaderboard name_before limit db)
unfolding list_leaderboard
list_leaderboard-Sorted name_before limit db = number-Sorted 1 _ (
    take-Sorted Outranks limit _ (
      order_by-Sorted (ranks_before name_before) Outranks (ranks_before-Outranks name_before)
        (ranks_after-Outranks name_before) Outranks-trans _))

-- A join that loses no row.
select-joined :
    (user_id : ℕ) (db : Database) (solves : List Solve)
    → All (λ s. has_challenge db.challenges s ≡ true) solves
    → select_where (λ s. solved_of user_id s && has_challenge db.challenges s) solves
      ≡ select_where (solved_of user_id) solves
select-joined user_id db [] h = refl
select-joined user_id db (s ∷ solves) (joins, h) =
    let rest = select-joined user_id db solves h in ground (arith, joins, rest)

sum-map :
    (solves : List Solve)
    → sum (λ (s : ProgressSolve). s.points) (map progress_solve solves)
      ≡ sum (λ (s : Solve). s.points) solves
sum-map [] = refl
sum-map (s ∷ solves) = let rest = sum-map solves in ground (arith, rest)

length-solves : (solves : List Solve) → length (map progress_solve solves) ≡ length solves
length-solves [] = refl
length-solves (s ∷ solves) = ap suc (length-solves solves)

progress-agrees :
    (db : Database) (u : User)
    → All (λ s. has_challenge db.challenges s ≡ true) db.solves
    → ((standing_of db u).total_points ≡ (progress_of db u).total_points)
      × ((standing_of db u).solved_count ≡ (progress_of db u).solved_count)
unfolding progress_of solves_of standing_of
progress-agrees db u joins =
    let joined = select-joined u.id db db.solves joins in
    let points = sum-map (solves_of u.id db) in
    let count = length-solves (solves_of u.id db) in
    rw (← joined) (
      sym (points ∙ sum-order_by solved_before (λ s. s.points) _),
      sym (count ∙ length-order_by solved_before _),
    )

-- Where every solve is of a challenge in its table, a player's progress has the total of points,
-- the number of solves and the display name that the leaderboard's query computes for the player's
-- row.
pub standing_of-agrees :
    (user_id : ℕ) (db : Database) (p : PlayerProgress)
    → All (λ s. has_challenge db.challenges s ≡ true) db.solves
    → get_player_progress user_id db ≡ some p
    → (u : User) × (select_one (active_with user_id) db.users ≡ some u)
      × ((standing_of db u).total_points ≡ p.total_points)
      × ((standing_of db u).solved_count ≡ p.solved_count)
      × ((standing_of db u).display_name ≡ p.display_name)
unfolding get_player_progress standing_of progress_of
standing_of-agrees user_id db p joins e =
    elim (Option-cases (select_one (active_with user_id) db.users)) [
      | inl gone ↦ absurd (ground (arith, rw gone at e))
      | inr (u, found) ↦
          let shown : progress_of db u ≡ p = ground (arith, rw found at e) in
          let (points, count) = progress-agrees db u joins in
          (
            u,
            found,
            points ∙ ap (λ q. q.total_points) shown,
            count ∙ ap (λ q. q.solved_count) shown,
            ap (λ q. q.display_name) shown,
          )
    ]
