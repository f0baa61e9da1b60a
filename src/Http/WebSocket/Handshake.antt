-- ===== src/Http/WebSocket/Handshake.antt =====
-- The handshake of a connection (src/http/websocket.rs): it is acknowledged once, and no
-- subscription runs before.
pub mod Messages
use async_graphql.Prelude.{
  ℕ, ◌+◌, ◌≤◌, List, [], ◌∷◌, ◌++◌, Text, text_discrete, text_eq, Bool, true, false, not, ◌&&◌,
  Option, none, some, ◌≡◌, refl, arith, if◌then◌else◌, contains, keep, Result, ok, err, Bool-cases,
  Option-cases, inl, inr,
}
use async_graphql.Http.WebSocket.{
  Protocols, ClientMessage, connection_init, start, stop, connection_terminate, ping, pong_received,
  connection_ack, pong, complete, text, Polled, pending, ready, StreamPoll, waits, finished, item,
  Env, WebSocket, Flow, continues, breaks, returns, subscriptions_transport_ws, graphql_ws,
  timeout_message, second_init_message, failure_message, next_message, handle_message,
  read_messages, poll_streams, poll_init, poll_ping, poll_futures, poll_open, poll_next, new,
}
use async_graphql.Http.WebSocket.Handshake.Messages.{
  one, is_some, plus_zero, acks, second_acks, failure_acks, timeout_acks, Handshake, flow_acks,
  read_messages-Handshake, poll_streams-Handshake,
}

module _ (Response : Type 0) {D Payload Request : Type 0} where
  module _ (merge : Option D → D → D) (env : Env D Payload Response) where
    abbrev Keeps :
        (WebSocket D Payload Request → WebSocket D Payload Request × Polled Payload Response)
        → Type 0
    Keeps poll =
        (s : WebSocket D Payload Request) (sent : ℕ)
        → Handshake s sent
        → Handshake (poll s).0 (sent + acks (poll s).1)

    -- A branch of a conditional.
    if-Handshake :
        (b : Bool) (x y : WebSocket D Payload Request × Polled Payload Response) (sent : ℕ)
        → (b ≡ true → Handshake x.0 (sent + acks x.1))
        → (b ≡ false → Handshake y.0 (sent + acks y.1))
        → let polled = (if b then x else y) in Handshake polled.0 (sent + acks polled.1)
    if-Handshake true x y sent on_true on_false = on_true refl
    if-Handshake false x y sent on_true on_false = on_false refl

    after_init :
        WebSocket D Payload Request
        → Option (Result Text D)
        → WebSocket D Payload Request × Polled Payload Response
    after_init s answer = elim answer [
      | none ↦ (s, pending)
      | some result ↦ elim result [
        | ok given ↦ (
          record s {
            init_fut = false;
            connection_data = none;
            data_of = some (merge s.connection_data given);
          },
          ready (text connection_ack),
        )
        | err message ↦
            (record s { init_fut = false; close = true }, failure_message s.protocol message)
      ]
    ]

    init-Handshake :
        (answer : Option (Result Text D)) (s : WebSocket D Payload Request) (sent : ℕ)
        → s.init_fut ≡ true
        → Handshake s sent
        → Handshake (after_init s answer).0 (sent + acks (after_init s answer).1)
    unfolding acks after_init
    init-Handshake none s sent fut h = rw (plus_zero sent) h
    init-Handshake (some (ok given)) s sent fut h = record {
      taken = h.taken;
      once = ground (arith, h.once, fut);
      acknowledged = ground (arith, h.once, h.acknowledged, fut);
      no_early = λ e. cc;
    }
    init-Handshake (some (err message)) s sent fut h =
        rw (failure_acks Payload Response s.protocol message, plus_zero sent)
          (record {
            taken = h.taken;
            once = ground (arith, h.once, fut);
            acknowledged = h.acknowledged;
            no_early = h.no_early;
          })

    after_ping :
        WebSocket D Payload Request
        → Option (Result Text (Option Payload))
        → WebSocket D Payload Request × Polled Payload Response
    after_ping s answer = elim answer [
      | none ↦ (s, pending)
      | some result ↦ elim result [
        | ok payload ↦ (record s { ping_fut = false }, ready (text (pong payload)))
        | err message ↦
            (record s { ping_fut = false; close = true }, failure_message s.protocol message)
      ]
    ]

    ping-Handshake :
        (answer : Option (Result Text (Option Payload))) (s : WebSocket D Payload Request)
        (sent : ℕ)
        → Handshake s sent
        → Handshake (after_ping s answer).0 (sent + acks (after_ping s answer).1)
    unfolding acks after_ping
    ping-Handshake none s sent h = rw (plus_zero sent) h
    ping-Handshake (some (ok given)) s sent h = rw (plus_zero sent) (record {
      taken = h.taken;
      once = h.once;
      acknowledged = h.acknowledged;
      no_early = h.no_early;
    })
    ping-Handshake (some (err message)) s sent h =
        rw (failure_acks Payload Response s.protocol message, plus_zero sent)
          (record {
            taken = h.taken;
            once = h.once;
            acknowledged = h.acknowledged;
            no_early = h.no_early;
          })

    poll_futures-Handshake : Keeps (poll_futures merge env)
    unfolding poll_futures poll_init poll_ping after_init after_ping
    poll_futures-Handshake s sent h =
        if-Handshake s.init_fut _ _ sent (λ fut. init-Handshake env.init_result s sent fut h)
          (λ no_init.
            if-Handshake s.ping_fut _ _ sent (λ fut. ping-Handshake env.ping_result s sent h)
              (λ no_ping. poll_streams-Handshake Response env.poll_stream s.streams s sent h))

    after_reading :
        WebSocket D Payload Request
        → Flow Payload Response
        → WebSocket D Payload Request × Polled Payload Response
    after_reading s flow = elim flow [
      | continues ↦ poll_futures merge env s
      | breaks ↦ poll_futures merge env s
      | returns polled ↦ (s, polled)
    ]

    reading-Handshake :
        (flow : Flow Payload Response) (s : WebSocket D Payload Request) (sent : ℕ)
        → Handshake s sent
        → flow_acks flow ≡ 0
        → Handshake (after_reading s flow).0 (sent + acks (after_reading s flow).1)
    unfolding after_reading
    reading-Handshake continues s sent h e = poll_futures-Handshake s sent h
    reading-Handshake breaks s sent h e = poll_futures-Handshake s sent h
    reading-Handshake (returns polled) s sent h e = rw (e, plus_zero sent) h

    poll_open-Handshake : Keeps (poll_open merge env)
    unfolding poll_open after_reading
    poll_open-Handshake s sent h =
        if-Handshake (not s.init_fut && not s.ping_fut) _ _ sent
          (λ free.
            let (after, none_sent) =
              read_messages-Handshake Response env.stream_ended s.stream s sent h in
            reading-Handshake (read_messages env.stream_ended s.stream s).1
              (read_messages {Response = Response} env.stream_ended s.stream s).0 sent after
              none_sent)
          (λ busy. poll_futures-Handshake s sent h)

    poll_next-Handshake : Keeps (poll_next merge env)
    unfolding poll_next acks
    poll_next-Handshake s sent h =
        if-Handshake s.close _ _ sent (λ closed. rw (plus_zero sent) h)
          (λ still.
            if-Handshake env.timeout _ _ sent
              (λ late.
                rw (timeout_acks Payload Response s.protocol, plus_zero sent)
                  (record {
                    taken = h.taken;
                    once = h.once;
                    acknowledged = h.acknowledged;
                    no_early = h.no_early;
                  }))
              (λ in_time. poll_open-Handshake s sent h))

  -- The runs of a connection: polls, and messages that arrive between them. The number is how often
  -- the handshake was acknowledged.
  pub data Run (merge : Option D → D → D) (from : WebSocket D Payload Request)
      : WebSocket D Payload Request → ℕ → Type 0 where
    begin : Run merge from from 0
    arrive :
        {s : WebSocket D Payload Request} {sent : ℕ}
        → Run merge from s sent
        → (messages : List (Result Text (ClientMessage Payload Request)))
        → Run merge from (record s { stream = s.stream ++ messages }) sent
    poll :
        {s : WebSocket D Payload Request} {sent : ℕ}
        → Run merge from s sent
        → (env : Env D Payload Response)
        → Run merge from (poll_next merge env s).0 (sent + acks (poll_next merge env s).1)

  -- On a new connection, whatever messages arrive and whatever the futures and streams answer: the
  -- init handler is taken at most once, and is there still exactly if it was not taken; the
  -- handshake was acknowledged once if the connection has its data and never if not; no two of these
  -- hold together: the handler is there, its future runs, the data is there; and no subscription runs
  -- without the data.
  pub Run-Handshake :
      (merge : Option D → D → D) (connection_data : Option D) (protocol : Protocols)
      → {s : WebSocket D Payload Request} {sent : ℕ}
      → Run merge (new connection_data protocol) s sent
      → Handshake s sent
  unfolding new
  Run-Handshake merge connection_data protocol begin = record {
    taken = refl;
    once = omega arith;
    acknowledged = refl;
    no_early = λ e. refl;
  }
  Run-Handshake merge connection_data protocol (arrive run messages) =
      let h = Run-Handshake merge connection_data protocol run in
      record {
        taken = h.taken;
        once = h.once;
        acknowledged = h.acknowledged;
        no_early = h.no_early;
      }
  Run-Handshake merge connection_data protocol (poll {s} {sent} run env) =
      poll_next-Handshake merge env s sent (Run-Handshake merge connection_data protocol run)
