-- ===== src/Streams/Client.antt =====
-- `createSseClient` of frontend/src/openapi/core/serverSentEvents.gen.ts: the attempts at a stream of
-- events. The network answers them in turn; `Turn` is all that it and the caller's abort signal can
-- do to an attempt.
pub mod Retries
use brackets.Base.{
  Bool, List, Option, Text, [], false, if◌then◌else◌, leb, ltb_ℤ, map, neg_part, none, not, pos,
  pos_part, some, suc, true, ℕ, ℤ, ◌&&◌, ◌*◌, ◌++◌, ◌-ℤ◌, ◌^◌, ◌∷◌,
}
use brackets.Streams.{StreamState, Delivery, read_pieces}

-- `sseDefaultRetryDelay`, `sseMaxRetryAttempts` and `sseMaxRetryDelay`.
pub record Settings : Type 0 where
  pub default_retry_delay : Option ℤ
  pub max_retry_attempts : Option ℕ
  pub max_retry_delay : Option ℤ

-- The signal is aborted; there is no response with a body; or there is one, whose pieces end or break
-- off. A reader that is cancelled by the signal ends, too.
pub data Turn : Type 0 where
  aborted refused : Turn
  answered : (pieces : List Text) (breaks_off : Bool) → Turn

-- A request with its `Last-Event-ID`, what it delivers, `onSseError`, and the wait.
pub data Action (Value : Type 0) : Type 0 where
  requested : (last_event_id : Option Text) → Action Value
  delivered : Delivery Value → Action Value
  reported : Action Value
  slept : ℤ → Action Value

-- What was done, and whether the stream has ended, rather than waiting for the next turn.
pub record Run (Value : Type 0) : Type 0 where
  pub actions : List (Action Value)
  pub has_ended : Bool

abbrev pub before : {Value : Type 0} → List (Action Value) → Run Value → Run Value
before first r = record r { actions = first ++ r.actions }

abbrev or_default : Option ℤ → ℤ → ℤ
or_default none default = default
or_default (some n) default = n

-- `retryDelay * 2 ** (attempt - 1)`, of the number of earlier attempts.
abbrev pub doubled : ℤ → (earlier : ℕ) → ℤ
doubled delay earlier = pos (pos_part delay * 2 ^ earlier) -ℤ pos (neg_part delay * 2 ^ earlier)

abbrev pub math_min : ℤ → ℤ → ℤ
math_min a b = if ltb_ℤ b a then b else a

abbrev pub longest_wait : Settings → ℤ
longest_wait settings = or_default settings.max_retry_delay (pos 30000)

unfoldable pub backoff : Settings → ℤ → (earlier : ℕ) → ℤ
backoff settings delay earlier = math_min (doubled delay earlier) (longest_wait settings)

-- `sseMaxRetryAttempts !== undefined && attempt >= sseMaxRetryAttempts`
unfoldable pub gives_up : Settings → (attempt : ℕ) → Bool
gives_up settings attempt = elim settings.max_retry_attempts [
  | none ↦ false
  | some m ↦ leb m attempt
]

module _ {Value : Type 0} (settings : Settings) where
  -- The `catch` block, of an attempt after `earlier` ones; `again` is what follows the wait.
  unfoldable pub catch_error : StreamState → (earlier : ℕ) (again : Run Value) → Run Value
  unfolding backoff gives_up
  catch_error state earlier again =
      if gives_up settings (suc earlier)
      then record { actions = reported ∷ []; has_ended = true }
      else before (reported ∷ slept (backoff settings state.retry_delay earlier) ∷ []) again

  module _ (parse_json : Text → Option Value) (validate : Value → Bool)
      (transform : Value → Option Value) (parse_int : Text → Option ℤ) where
    -- The loop, after `earlier` attempts.
    unfoldable pub attempts : (earlier : ℕ) → StreamState → List Turn → Run Value
    unfolding catch_error read_pieces
    attempts earlier state [] = record { actions = []; has_ended = false }
    attempts earlier state (aborted ∷ turns) = record { actions = []; has_ended = true }
    attempts earlier state (refused ∷ turns) =
        before (requested state.last_event_id ∷ [])
          (catch_error state earlier (attempts (suc earlier) state turns))
    attempts earlier state (answered pieces breaks_off ∷ turns) =
        let p = read_pieces parse_json validate transform parse_int state [] pieces in
        let failed = catch_error p.state earlier (attempts (suc earlier) p.state turns) in
        before (requested state.last_event_id ∷ map delivered p.deliveries) (
          if p.is_sound && not breaks_off
          then record { actions = []; has_ended = true }
          else failed)

    -- `createStream`
    unfoldable pub create_stream : List Turn → Run Value
    unfolding attempts
    create_stream turns =
        attempts 0
          (record {
            last_event_id = none;
            retry_delay = or_default settings.default_retry_delay (pos 3000);
          })
          turns
