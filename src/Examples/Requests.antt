-- ===== src/Examples/Requests.antt =====
-- Requests of a signed-in player, and what the API answers.
use cyber_lab_backend.Prelude.{
  ℕ, ◌≡◌, refl, Bool, true, false, none, some, String, [], ◌∷◌, Sorted, select_one, order_by,
  insert_by,
}
use cyber_lab_backend.Schema.{Database, Solve, User, client}
use cyber_lab_backend.Errors.{answers}
use cyber_lab_backend.Errors.Handler.{of_other, handle_error, IsClosed, handle_error-IsClosed}
use cyber_lab_backend.Auth.{find_session_by_id, touch_session}
use cyber_lab_backend.Auth.Service.{validate_service_session, resolve_live_session}
use cyber_lab_backend.Auth.Scope.{Claims, verified_token, require_scope}
use cyber_lab_backend.RateLimiter.{Buckets, consume, take_one}
use cyber_lab_backend.Intents.{create_instance_intent, find_operation, find_owned_running_instance}
use cyber_lab_backend.Service.{create}
use cyber_lab_backend.Scoring.{record_submission}
use cyber_lab_backend.Submissions.{submit}
use cyber_lab_backend.Progress.{
  PlayerProgress, get_player_progress, progress_of, solves_of, standing_of, list_leaderboard,
  active_with,
}
use cyber_lab_backend.Progress.Standings.{
  IsRankedBefore, list_leaderboard-Sorted, standing_of-agrees,
}
use cyber_lab_backend.Routes.{
  Api, Times, limited, authorize, served, post_instances, post_submissions,
}
use cyber_lab_backend.Routes.Authorized.{
  LetThrough, post_instances-LetThrough, post_submissions-LetThrough,
}
use cyber_lab_backend.Examples.{start, digest}
use cyber_lab_backend.Examples.Accounts.{signed_in}
use cyber_lab_backend.Examples.History.{view, at_base}
use cyber_lab_backend.Examples.Flags.{derived, trimmed, playing, won}

handle_error-IsClosed_example :
    IsClosed (handle_error (of_other false (some 503) "connect ECONNREFUSED") "id")
    × (handle_error (of_other false (some 503) "connect ECONNREFUSED") "id"
        ≡ handle_error (of_other false (some 503) "other") "id")
handle_error-IsClosed_example =
    handle_error-IsClosed false (some 503) "connect ECONNREFUSED" "other" "id"

abbrev claims : Claims
claims = record {
  subject = 7;
  session_id = 61;
  scopes = "instances:write" ∷ "submissions:write" ∷ [];
}

abbrev times : Times
times = record { authorized_at = 2000; limited_at = 2000; served_at = 1000 }

abbrev empty : Buckets
empty user_id = none

abbrev before : Api
before = record { db = signed_in; buckets = empty }

abbrev created : Api
created =
    (post_instances 10 60000 digest at_base none true 11 21 times "id" (verified_token claims)
      (some (3, client 40)) before).0

post_instances-LetThrough_example :
    (mid : Api) × (c : Claims) × LetThrough 10 60000 times "instances:write" true true
      (verified_token claims)
      before
      c
      mid
    × (create digest at_base none 11 21 1000
          (record {
            user_id = c.subject;
            challenge_id = 3;
            idempotency_key = client 40;
            correlation_id = some "id";
          })
          mid.db
        ≡ (created.db, answers view))
    × ◌≡◌ {A = ℕ} 202 202
unfolding post_instances served authorize limited require_scope validate_service_session
    resolve_live_session find_session_by_id touch_session consume take_one create
    create_instance_intent find_operation
post_instances-LetThrough_example =
    post_instances-LetThrough 10 60000 digest at_base none true 11 21 times "id"
      (verified_token claims) 3 (client 40) before created 202 view refl

abbrev winning : Api
winning = record { db = record signed_in { instances = playing.instances }; buckets = empty }

abbrev awarded : Api
awarded =
    (post_submissions 10 60000 derived trimmed true 31 41 2000 times "id" (verified_token claims)
      (some (3, 11, "CTF{flag}")) winning).0

post_submissions-LetThrough_example :
    (mid : Api) × (c : Claims) × LetThrough 10 60000 times "submissions:write" true false
      (verified_token claims)
      winning
      c
      mid
    × (submit derived trimmed 31 41 2000 1000
          (record {
            user_id = c.subject;
            challenge_id = 3;
            instance_id = 11;
            flag = "CTF{flag}";
            correlation_id = some "id";
          })
          mid.db
        ≡ (awarded.db, answers won))
    × ◌≡◌ {A = ℕ} 200 200
unfolding post_submissions served authorize limited require_scope validate_service_session
    resolve_live_session find_session_by_id touch_session consume take_one submit record_submission
    find_owned_running_instance
post_submissions-LetThrough_example =
    post_submissions-LetThrough 10 60000 derived trimmed true 31 41 2000 times "id"
      (verified_token claims) 3 11 "CTF{flag}" winning awarded 200 won refl

abbrev solve : Solve
solve = record {
  id = 41;
  user_id = 7;
  challenge_id = 3;
  first_submission_id = 31;
  points = 50;
  solved_at = 5000;
}

abbrev solved_once : Database
solved_once = record start { solves = solve ∷ [] }

abbrev shown : PlayerProgress
shown = record {
  user_id = 7;
  display_name = "Alice";
  total_points = 50;
  solved_count = 1;
  available_challenges = 1;
  solves = record { challenge_id = 3; points = 50; solved_at = 5000 } ∷ [];
}

standing_of-agrees_example :
    (u : User) × (select_one (active_with 7) solved_once.users ≡ some u)
    × ((standing_of solved_once u).total_points ≡ 50)
    × ((standing_of solved_once u).solved_count ≡ 1)
    × ((standing_of solved_once u).display_name ≡ "Alice")
unfolding get_player_progress progress_of solves_of order_by insert_by
standing_of-agrees_example = standing_of-agrees 7 solved_once shown (refl, tt) refl

abbrev never : String → String → Bool
never a b = false

list_leaderboard-Sorted_example : Sorted IsRankedBefore (list_leaderboard never 100 solved_once)
list_leaderboard-Sorted_example = list_leaderboard-Sorted never 100 solved_once
