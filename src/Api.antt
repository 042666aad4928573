-- ===== src/Api.antt =====
-- src/api/mod.rs: the handlers of the HTTP service, from a request that axum has decoded to a
-- response that it encodes. A request whose path, query or body its extractors reject (400, 415 or 422)
-- reaches no handler, and is not modelled. The texts of the messages are kept as the data they show.
pub mod Handlers
pub mod Matches
pub mod Router
pub mod Averages
use Prim.Native.String.{String}
use matchmaker.Base.{ℕ, ◌+◌, max, Option, none, some, List, ltb, if◌then◌else◌, Result, ok, err}
use matchmaker.Models.Player.{Uuid, Instant}
use matchmaker.Models.Match.{Match}
use matchmaker.Metrics.{MetricsSnapshot}
use matchmaker.Engine.Bucket.Store.{ConcurrentMap}
use matchmaker.Engine.Bucket.{max_skill_rating}
use matchmaker.Engine.Core.{
  MatchmakerCore, EnqueueError, already_queued, invalid_skill_rating, CancelError, not_found,
  currently_being_matched, enqueue, cancel, recent_matches, total_matches_formed, metrics_snapshot,
  players_waiting, uptime_secs,
}

pub record EnqueueRequest : Type 0 where
  pub id : Uuid
  pub skill_rating : ℕ

pub record EnqueueResponse : Type 0 where
  pub player_id : Uuid
  pub queue_depth : ℕ

pub record HealthResponse : Type 0 where
  pub players_waiting : ℕ
  pub uptime_secs : ℕ

pub record MatchesResponse : Type 0 where
  pub matches : List Match
  pub total_matches_formed : ℕ

-- What an error message tells.
pub data Message : Type 0 where
  must_be_between : (least most : ℕ) → Message
  exceeds_maximum : (rating most : ℕ) → Message
  is_already_queued : Uuid → Message
  player_not_found : Uuid → Message
  is_currently_being_matched : Uuid → Message

pub data AppError : Type 0 where
  bad_request : Message → AppError
  conflict : Message → AppError
  missing : Message → AppError
  unprocessable_entity : Message → AppError

-- The body of a response; `error_body` is an `ErrorResponse`.
pub data Body : Type 0 where
  enqueue_body : EnqueueResponse → Body
  cancel_body : Uuid → Body
  health_body : HealthResponse → Body
  metrics_body : MetricsSnapshot → Body
  matches_body : MatchesResponse → Body
  error_body : (error : Message) (code : String) → Body

pub record Response : Type 0 where
  pub status : ℕ
  pub body : Body

abbrev pub into_response : AppError → Response
into_response (bad_request m) = record { status = 400; body = error_body m "BAD_REQUEST" }
into_response (conflict m) = record { status = 409; body = error_body m "CONFLICT" }
into_response (missing m) = record { status = 404; body = error_body m "NOT_FOUND" }
into_response (unprocessable_entity m) = record {
  status = 422;
  body = error_body m "VALIDATION_ERROR";
}

abbrev pub respond : {A : Type 0} → (A → Body) → Result AppError A → Response
respond body (ok a) = record { status = 200; body = body a }
respond body (err e) = into_response e

abbrev pub status_of : AppError → ℕ
status_of (bad_request m) = 400
status_of (conflict m) = 409
status_of (missing m) = 404
status_of (unprocessable_entity m) = 422

-- `#[serde(default = "default_limit")]`.
abbrev pub default_limit : ℕ
default_limit = 20

abbrev pub limit_of : Option ℕ → ℕ
limit_of none = default_limit
limit_of (some limit) = limit

abbrev enqueue_error : EnqueueError → AppError
enqueue_error (already_queued id) = conflict (is_already_queued id)
enqueue_error (invalid_skill_rating r most) = unprocessable_entity (exceeds_maximum r most)

abbrev cancel_error : CancelError → AppError
cancel_error (not_found id) = missing (player_not_found id)
cancel_error (currently_being_matched id) = conflict (is_currently_being_matched id)

-- A request that the extractors have decoded, by its route; the query of `GET /matches` may hold a limit.
pub data Request : Type 0 where
  post_enqueue : EnqueueRequest → Request
  delete_enqueue : (player_id : Uuid) → Request
  get_health : Request
  get_metrics : Request
  get_matches : (limit : Option ℕ) → Request

module _ (S : ConcurrentMap) where
  abbrev enqueue_response :
      Uuid
      → MatchmakerCore S × Result EnqueueError ℕ
      → MatchmakerCore S × Result AppError EnqueueResponse
  enqueue_response id (core, ok queue_depth) =
      (core, ok (record { player_id = id; queue_depth = queue_depth }))
  enqueue_response id (core, err e) = (core, err (enqueue_error e))

  -- A response without an error has the status 200.
  unfoldable pub enqueue_handler :
      Instant
      → EnqueueRequest
      → MatchmakerCore S
      → MatchmakerCore S × Result AppError EnqueueResponse
  enqueue_handler now body core =
      if ltb max_skill_rating body.skill_rating
      then (core, err (unprocessable_entity (must_be_between 0 max_skill_rating)))
      else enqueue_response body.id (enqueue S now body.id body.skill_rating core)

  abbrev cancel_response :
      Uuid
      → MatchmakerCore S × Result CancelError (Unit {0})
      → MatchmakerCore S × Result AppError Uuid
  cancel_response player_id (core, ok done) = (core, ok player_id)
  cancel_response player_id (core, err e) = (core, err (cancel_error e))

  unfoldable pub cancel_handler : Uuid → MatchmakerCore S → MatchmakerCore S × Result AppError Uuid
  cancel_handler player_id core = cancel_response player_id (cancel S player_id core)

  abbrev pub health_handler : Instant → MatchmakerCore S → HealthResponse
  health_handler now core = record {
    players_waiting = players_waiting S core;
    uptime_secs = uptime_secs S now core;
  }

  abbrev pub metrics_handler : MatchmakerCore S → MetricsSnapshot
  metrics_handler core = metrics_snapshot S core

  -- `limit` is the query parameter, if there is one.
  pub matches_handler : Option ℕ → MatchmakerCore S → MatchesResponse
  matches_handler limit core = record {
    matches = recent_matches S (max (limit_of limit) 1) core;
    total_matches_formed = total_matches_formed S core;
  }

  -- The routes of `create_router`: the handler of a request that axum has matched to its route. The
  -- only state of a handler is the core.
  unfoldable pub serve : Instant → Request → MatchmakerCore S → MatchmakerCore S × Response
  serve now (post_enqueue body) core =
      let (core', result) = enqueue_handler now body core in (core', respond enqueue_body result)
  serve now (delete_enqueue player_id) core =
      let (core', result) = cancel_handler player_id core in (core', respond cancel_body result)
  serve now get_health core =
      (core, record { status = 200; body = health_body (health_handler now core) })
  serve now get_metrics core =
      (core, record { status = 200; body = metrics_body (metrics_handler core) })
  serve now (get_matches limit) core =
      (core, record { status = 200; body = matches_body (matches_handler limit core) })
