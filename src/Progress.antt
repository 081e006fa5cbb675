-- ===== src/Progress.antt =====
-- src/db/progress-repository.ts and src/services/progress-repository.ts: what a player has solved, and
-- the leaderboard. The texts that only pass through (the biography, slugs and titles) are left out.
-- The collation of display names is a parameter.
pub mod Standings
use cyber_lab_backend.Prelude.{
  ℕ, zero, suc, ◌+◌, Bool, true, false, not, ◌&&◌, ◌||◌, ◌==◌, leb, ltb, if◌then◌else◌, is_some,
  Option, none, some, String, List, [], ◌∷◌, map, length, take, sum, insert_by, order_by,
  select_where, select_one, exists_where, count_where,
}
use cyber_lab_backend.Schema.{
  Database, User, Challenge, Solve, AccountRole, player, admin, is_active_account,
}

pub record ProgressSolve : Type 0 where
  pub challenge_id : ℕ
  pub points : ℕ
  pub solved_at : ℕ

pub record PlayerProgress : Type 0 where
  pub user_id : ℕ
  pub display_name : String
  pub total_points : ℕ
  pub solved_count : ℕ
  pub available_challenges : ℕ
  pub solves : List ProgressSolve

pub record LeaderboardEntry : Type 0 where
  pub rank : ℕ
  pub display_name : String
  pub total_points : ℕ
  pub solved_count : ℕ
  pub last_solved_at : Option ℕ

abbrev pub solved_of : ℕ → Solve → Bool
solved_of user_id s = s.user_id == user_id

abbrev pub has_challenge : List Challenge → Solve → Bool
has_challenge challenges s = exists_where (λ (c : Challenge). c.id == s.challenge_id) challenges

-- `order by solves.solved_at asc, challenges.id asc`
abbrev pub solved_before : Solve → Solve → Bool
solved_before a b =
    ltb a.solved_at b.solved_at
    || ((a.solved_at == b.solved_at) && leb a.challenge_id b.challenge_id)

abbrev pub progress_solve : Solve → ProgressSolve
progress_solve s = record {
  challenge_id = s.challenge_id;
  points = s.points;
  solved_at = s.solved_at;
}

abbrev pub active_with : ℕ → User → Bool
active_with user_id u = (u.id == user_id) && is_active_account u.status

-- The solves that join a challenge, in their order.
unfoldable pub solves_of : (user_id : ℕ) → Database → List Solve
solves_of user_id db =
    order_by solved_before
      (select_where (λ s. solved_of user_id s && has_challenge db.challenges s) db.solves)

unfoldable pub progress_of : Database → User → PlayerProgress
unfolding solves_of
progress_of db u =
    let solves = map progress_solve (solves_of u.id db) in
    record {
      user_id = u.id;
      display_name = u.display_name;
      total_points = sum (λ (s : ProgressSolve). s.points) solves;
      solved_count = length solves;
      available_challenges = count_where (λ (c : Challenge). c.published) db.challenges;
      solves = solves;
    }

abbrev pub option_map : {A B : Type 0} → (A → B) → Option A → Option B
option_map f none = none
option_map f (some a) = some (f a)

unfoldable pub get_player_progress : (user_id : ℕ) → Database → Option PlayerProgress
unfolding progress_of
get_player_progress user_id db =
    option_map (progress_of db) (select_one (active_with user_id) db.users)

-- A group of the leaderboard's query.
pub record Standing : Type 0 where
  pub user_id : ℕ
  pub display_name : String
  pub total_points : ℕ
  pub solved_count : ℕ
  pub last_solved_at : Option ℕ

-- `max(solves.solved_at)`, null without rows.
unfoldable pub latest : List Solve → Option ℕ
latest [] = none
latest (s ∷ solves) = elim (latest solves) [
  | none ↦ some s.solved_at
  | some t ↦ some (if leb s.solved_at t then t else s.solved_at)
]

unfoldable pub standing_of : Database → User → Standing
unfolding latest
standing_of db u =
    let solves = select_where (solved_of u.id) db.solves in
    record {
      user_id = u.id;
      display_name = u.display_name;
      total_points = sum (λ (s : Solve). s.points) solves;
      solved_count = length solves;
      last_solved_at = latest solves;
    }

abbrev is_player : AccountRole → Bool
is_player player = true
is_player admin = false

abbrev is_ranked : User → Bool
is_ranked u = is_active_account u.status && is_player u.role

-- `asc nulls last`
abbrev earlier : Option ℕ → Option ℕ → Bool
earlier none b = false
earlier (some a) none = true
earlier (some a) (some b) = ltb a b

unfoldable pub ranks_before : (name_before : String → String → Bool) → Standing → Standing → Bool
ranks_before name_before a b =
    ltb b.total_points a.total_points
    || ((b.total_points == a.total_points)
        && (ltb b.solved_count a.solved_count
            || ((b.solved_count == a.solved_count)
                && (earlier a.last_solved_at b.last_solved_at
                    || (not (earlier b.last_solved_at a.last_solved_at)
                        && (name_before a.display_name b.display_name
                            || (not (name_before b.display_name a.display_name)
                                && leb a.user_id b.user_id)))))))

abbrev pub entry_of : ℕ → Standing → LeaderboardEntry
entry_of rank s = record {
  rank = rank;
  display_name = s.display_name;
  total_points = s.total_points;
  solved_count = s.solved_count;
  last_solved_at = s.last_solved_at;
}

unfoldable pub number_from : ℕ → List Standing → List LeaderboardEntry
number_from rank [] = []
number_from rank (s ∷ standings) = entry_of rank s ∷ number_from (suc rank) standings

unfoldable pub list_leaderboard :
    (name_before : String → String → Bool) (limit : ℕ) → Database → List LeaderboardEntry
unfolding number_from standing_of ranks_before
list_leaderboard name_before limit db = number_from 1 (
    take limit (
      order_by (ranks_before name_before) (map (standing_of db) (select_where is_ranked db.users))))
