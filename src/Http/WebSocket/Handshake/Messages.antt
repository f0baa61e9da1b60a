-- ===== src/Http/WebSocket/Handshake/Messages.antt =====
-- Messages of the client and responses of subscriptions keep the handshake (src/http/websocket.rs).
use async_graphql.Prelude.{
  ℕ, ◌+◌, ◌≤◌, List, [], ◌∷◌, Text, text_discrete, text_eq, Bool, true, false, not, Option, none,
  some, ◌≡◌, refl, arith, contains, keep, length, Result, ok, err, Bool-cases, Option-cases, inl,
  inr,
}
use async_graphql.Http.WebSocket.{
  Protocols, ClientMessage, connection_init, start, stop, connection_terminate, ping, pong_received,
  connection_ack, complete, text, Polled, ready, StreamPoll, waits, finished, item, WebSocket, Flow,
  continues, breaks, returns, subscriptions_transport_ws, graphql_ws, timeout_message,
  second_init_message, failure_message, next_message, handle_message, read_messages, poll_streams,
}

abbrev pub one : Bool → ℕ
one false = 0
one true = 1

abbrev pub is_some : {A : Type 0} → Option A → Bool
is_some none = false
is_some (some a) = true

pub plus_zero : (n : ℕ) → n + 0 ≡ n
plus_zero n = omega arith

module _ {Payload Response : Type 0} where
  -- How often a poll acknowledges the handshake: once or not at all.
  unfoldable pub acks : Polled Payload Response → ℕ
  acks (ready (text connection_ack)) = 1
  acks _ = 0

  abbrev pub flow_acks : Flow Payload Response → ℕ
  flow_acks (returns polled) = acks polled
  flow_acks _ = 0

module _ (Payload Response : Type 0) where
  pub second_acks :
      (protocol : Protocols)
      → acks (second_init_message {Payload = Payload} {Response = Response} protocol) ≡ 0
  unfolding acks
  second_acks subscriptions_transport_ws = refl
  second_acks graphql_ws = refl

  pub failure_acks :
      (protocol : Protocols) (message : Text)
      → acks (failure_message {Payload = Payload} {Response = Response} protocol message) ≡ 0
  unfolding acks
  failure_acks subscriptions_transport_ws message = refl
  failure_acks graphql_ws message = refl

  pub next_acks :
      (protocol : Protocols) (id : Text) (response : Response)
      → acks {Payload = Payload} (ready (text (next_message protocol id response))) ≡ 0
  unfolding acks
  next_acks subscriptions_transport_ws id response = refl
  next_acks graphql_ws id response = refl

  pub timeout_acks :
      (protocol : Protocols)
      → acks (timeout_message {Payload = Payload} {Response = Response} protocol) ≡ 0
  unfolding acks
  timeout_acks subscriptions_transport_ws = refl
  timeout_acks graphql_ws = refl

module _ {D Payload Request : Type 0} where
  -- What holds between two polls, with the number of acknowledgements sent.
  pub record Handshake (s : WebSocket D Payload Request) (sent : ℕ) : Type 0 where
    -- The init handler is there and was never taken, or it was taken once and is gone.
    pub taken : length s.init_calls + one s.on_connection_init ≡ 1
    -- The init handler is there, or its future runs, or its data is there, or it failed.
    pub once : one s.on_connection_init + one s.init_fut + one (is_some s.data_of) ≤ 1
    -- The acknowledgement was sent exactly if the data is there.
    pub acknowledged : sent ≡ one (is_some s.data_of)
    -- Without the data no subscription runs.
    pub no_early : s.data_of ≡ none → s.streams ≡ []

module _ (Response : Type 0) {D Payload Request : Type 0} where
  -- One message keeps the handshake and acknowledges nothing.
  pub handle_message-Handshake :
      (s : WebSocket D Payload Request) (sent : ℕ) (m : ClientMessage Payload Request)
      → Handshake s sent
      → let handled = handle_message {Response = Response} s m in
        Handshake handled.0 sent × (flow_acks handled.1 ≡ 0)
  unfolding handle_message acks keep
  handle_message-Handshake s sent (connection_init payload) h =
      elim (Bool-cases s.on_connection_init) [
        | inl first ↦ rw first (
          record {
            taken = ground (arith, h.taken);
            once = ground (arith, h.once);
            acknowledged = h.acknowledged;
            no_early = h.no_early;
          },
          refl,
        )
        | inr second ↦ rw second (
          record {
            taken = ground (arith, h.taken);
            once = ground (arith, h.once);
            acknowledged = h.acknowledged;
            no_early = h.no_early;
          },
          second_acks Payload Response s.protocol,
        )
      ]
  handle_message-Handshake s sent (start id request) h = elim (Option-cases s.data_of) [
    | inl early ↦ rw early (
      record {
        taken = ground (arith, h.taken);
        once = ground (arith, h.once);
        acknowledged = ground (arith, h.acknowledged);
        no_early = λ e. h.no_early early;
      },
      refl,
    )
    | inr (held, known) ↦ rw known (
      record {
        taken = ground (arith, h.taken);
        once = ground (arith, h.once);
        acknowledged = ground (arith, h.acknowledged);
        no_early = λ e. cc;
      },
      refl,
    )
  ]
  handle_message-Handshake s sent (stop id) h =
      elim (Bool-cases (contains text_discrete id s.streams)) [
        | inl runs ↦ rw runs (
          record {
            taken = h.taken;
            once = h.once;
            acknowledged = h.acknowledged;
            no_early = λ e. rw (h.no_early e) refl;
          },
          refl,
        )
        | inr stopped ↦ rw stopped (h, refl)
      ]
  handle_message-Handshake s sent connection_terminate h = (
    record { taken = h.taken; once = h.once; acknowledged = h.acknowledged; no_early = h.no_early },
    refl,
  )
  handle_message-Handshake s sent (ping payload) h = (
    record { taken = h.taken; once = h.once; acknowledged = h.acknowledged; no_early = h.no_early },
    refl,
  )
  handle_message-Handshake s sent (pong_received payload) h = (h, refl)

  abbrev after_message :
      WebSocket D Payload Request
      → WebSocket D Payload Request × Flow Payload Response
      → Flow Payload Response
      → WebSocket D Payload Request × Flow Payload Response
  after_message s rest flow = elim flow [
    | continues ↦ rest
    | breaks ↦ (s, breaks)
    | returns polled ↦ (s, returns polled)
  ]

  abbrev after_stream :
      Text
      → WebSocket D Payload Request × Polled Payload Response
      → WebSocket D Payload Request
      → StreamPoll Response
      → WebSocket D Payload Request × Polled Payload Response
  after_stream id rest s p = elim p [
    | item response ↦ (s, ready (text (next_message s.protocol id response)))
    | finished ↦ (
      record s { streams = keep (λ other. not (text_eq other id)) s.streams },
      ready (text (complete id)),
    )
    | waits ↦ rest
  ]

  pub read_messages-Handshake :
      (stream_ended : Bool) (messages : List (Result Text (ClientMessage Payload Request)))
      → (s : WebSocket D Payload Request) (sent : ℕ) → Handshake s sent
      → let read = read_messages {Response = Response} stream_ended messages s in
        Handshake read.0 sent × (flow_acks read.1 ≡ 0)
  unfolding read_messages acks
  read_messages-Handshake true [] s sent h = (
    record { taken = h.taken; once = h.once; acknowledged = h.acknowledged; no_early = h.no_early },
    refl,
  )
  read_messages-Handshake false [] s sent h = (
    record { taken = h.taken; once = h.once; acknowledged = h.acknowledged; no_early = h.no_early },
    refl,
  )
  read_messages-Handshake stream_ended (err e ∷ messages) s sent h = (
    record { taken = h.taken; once = h.once; acknowledged = h.acknowledged; no_early = h.no_early },
    refl,
  )
  read_messages-Handshake stream_ended (ok message ∷ messages) s sent h =
      let before : Handshake (record s { stream = messages }) sent = record {
        taken = h.taken;
        once = h.once;
        acknowledged = h.acknowledged;
        no_early = h.no_early;
      } in
      let handled = handle_message {Response = Response} (record s { stream = messages }) message in
      let (after, none_sent) =
        handle_message-Handshake (record s { stream = messages }) sent message before in
      elim handled.1
          as (λ flow.
            flow_acks flow ≡ 0
            → let read =
                after_message handled.0 (read_messages stream_ended messages handled.0) flow in
              Handshake read.0 sent × (flow_acks read.1 ≡ 0)) [
                | continues ↦
                    λ e. read_messages-Handshake stream_ended messages handled.0 sent after
                | breaks ↦ λ e. (after, refl)
                | returns polled ↦ λ e. (after, e)
              ]
        none_sent

  pub poll_streams-Handshake :
      (poll_stream : Text → StreamPoll Response) (ids : List Text)
      → (s : WebSocket D Payload Request) (sent : ℕ) → Handshake s sent
      → let polled = poll_streams poll_stream ids s in Handshake polled.0 (sent + acks polled.1)
  unfolding poll_streams acks keep
  poll_streams-Handshake poll_stream [] s sent h = rw (plus_zero sent) h
  poll_streams-Handshake poll_stream (id ∷ ids) s sent h =
      elim (poll_stream id)
        as (λ p.
          let polled = after_stream id (poll_streams poll_stream ids s) s p in
          Handshake polled.0 (sent + acks polled.1)) [
            | item response ↦
                rw (next_acks Payload Response s.protocol id response, plus_zero sent) h
            | finished ↦ rw (plus_zero sent) (record {
              taken = h.taken;
              once = h.once;
              acknowledged = h.acknowledged;
              no_early = λ e. rw (h.no_early e) refl;
            })
            | waits ↦ poll_streams-Handshake poll_stream ids s sent h
          ]
