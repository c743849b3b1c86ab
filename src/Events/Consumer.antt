-- ===== src/Events/Consumer.antt =====
-- packages/events/src/consumer.ts: what the consumer does with a message. The handler and the
-- producer of the dead letters are functions of the state they share; what is reported to `onError`,
-- slept and written is a list in order. The base64 text of bytes and the time are parameters, and an
-- error is its message. Connecting and subscribing, by the package kafkajs, are left out.
pub mod Settles
mod Tests
use mathlib.Core.Option
use kp.Common.{
  ℕ, zero, suc, ◌+◌, ◌*◌, Bool, true, false, Option, none, some, List, [], ◌∷◌, ◌++◌, Text, lit,
  ltb, if◌then◌else◌,
}
use kp.Receipts.Hash.{Bytes}
use kp.Events.{Topic, dead_letters, DeadLetterEvent, PublishedEvent}
use kp.Events.Validate.{EventFault, Validated, ok, fail, NoyeetEvent}

pub record Message : Type 0 where
  pub topic : Topic
  pub partition : ℕ
  pub offset : Text
  pub key : Option Text
  pub value : Option Bytes

-- `maxAttempts` and `retryDelayMs`.
pub record ConsumerOptions : Type 0 where
  pub max_attempts : ℕ
  pub retry_delay_ms : ℕ

abbrev pub consumer_options : Option ℕ → Option ℕ → ConsumerOptions
consumer_options max_attempts retry_delay_ms = record {
  max_attempts = Option.get_or max_attempts 3;
  retry_delay_ms = Option.get_or retry_delay_ms 500;
}

pub data Act : Type 0 where
  -- The handler returned, or threw and `onError` was told, at an attempt.
  handled : ℕ → Act
  handler_failed : ℕ → Text → Act
  slept : ℕ → Act
  -- A dead letter was written, or its write threw and `onError` was told.
  dead_lettered : DeadLetterEvent → Act
  write_failed : DeadLetterEvent → Text → Act

-- How an asynchronous call ends: with the state it leaves, after an error or not.
pub data Ran (S : Type 0) : Type 0 where
  done : S → Ran S
  raised : Text → S → Ran S

-- What the consumer is given: the handler, the producer's `emit` and the options, `decodeEvent`, the
-- text of its errors, and the runtime's base64 and clock.
pub record Env (S : Type 0) : Type 0 where
  pub base64 : Bytes → Text
  pub iso_now : Text
  pub message_of : EventFault → Text
  pub decode : Option Bytes → Validated NoyeetEvent
  pub handler : NoyeetEvent → Message → S → Ran S
  pub emit : Topic → Text → PublishedEvent → S → Ran S
  pub options : ConsumerOptions

module _ {S : Type 0} (env : Env S) where
  unfoldable pub dead_letter_event : Message → ℕ → Text → DeadLetterEvent
  dead_letter_event m attempts error = record {
    source_topic = m.topic;
    partition = m.partition;
    offset = m.offset;
    attempts = attempts;
    error = error;
    payload_base64 = elim m.value [ none ↦ [] | some bytes ↦ env.base64 bytes ];
    at = env.iso_now;
  }

  unfoldable pub dead_letter : Message → ℕ → Text → S → S × List Act
  unfolding dead_letter_event
  dead_letter m attempts error s =
      let event = dead_letter_event m attempts error in
      elim (env.emit dead_letters m.offset (PublishedEvent.dead_letter event) s) [
        | done s' ↦ (s', dead_lettered event ∷ [])
        | raised cause s' ↦ (s', write_failed event cause ∷ [])
      ]

  -- What follows a failed attempt.
  unfoldable pub pause : ℕ → List Act
  pause attempt =
      if ltb attempt env.options.max_attempts
      then slept (env.options.retry_delay_ms * attempt) ∷ []
      else []

  -- The loop over the attempts that are left, from an attempt on.
  unfoldable pub attempts_from : ℕ → ℕ → Option Text → NoyeetEvent → Message → S → S × List Act
  unfolding dead_letter pause
  attempts_from zero attempt last event m s =
      dead_letter m env.options.max_attempts (Option.get_or last (lit "handler failed")) s
  attempts_from (suc left) attempt last event m s = elim (env.handler event m s) [
    | done s' ↦ (s', handled attempt ∷ [])
    | raised cause s' ↦
        let (s'', acts) = attempts_from left (suc attempt) (some cause) event m s' in
        (s'', handler_failed attempt cause ∷ pause attempt ++ acts)
  ]

  unfoldable pub each_message : Message → S → S × List Act
  unfolding attempts_from
  each_message m s = elim (env.decode m.value) [
    | fail fault ↦ dead_letter m 1 (env.message_of fault) s
    | ok event ↦ attempts_from env.options.max_attempts 1 none event m s
  ]

  -- The messages of a partition in order.
  unfoldable pub consume : List Message → S → S × List Act
  unfolding each_message
  consume [] s = (s, [])
  consume (m ∷ ms) s =
      let (s', acts) = each_message m s in let (s'', later) = consume ms s' in (s'', acts ++ later)
