-- ===== src/Http/WebSocket.antt =====
-- src/http/websocket.rs: one connection, as `poll_next` drives it. What futures and streams answer
-- when they are polled comes from outside. A message is the value that is serialized.
pub mod Handshake
mod Tests
use async_graphql.Prelude.{
  ℕ, List, [], ◌∷◌, Text, codes, text_discrete, text_eq, Bool, true, false, not, ◌&&◌, ◌||◌, Option,
  none, some, if◌then◌else◌, contains, insert, keep, Result, ok, err,
}

pub data Protocols : Type 0 where
  subscriptions_transport_ws : Protocols
  graphql_ws : Protocols

module _ (Payload Request : Type 0) where
  pub data ClientMessage : Type 0 where
    connection_init : Option Payload → ClientMessage
    start : Text → Request → ClientMessage
    stop : Text → ClientMessage
    connection_terminate : ClientMessage
    ping : Option Payload → ClientMessage
    pong_received : Option Payload → ClientMessage

module _ (Payload Response : Type 0) where
  pub data ServerMessage : Type 0 where
    connection_error : Text → ServerMessage
    connection_ack : ServerMessage
    pong : Option Payload → ServerMessage
    data_message : Text → Response → ServerMessage
    next : Text → Response → ServerMessage
    complete : Text → ServerMessage

  pub data WsMessage : Type 0 where
    text : ServerMessage → WsMessage
    close_with : ℕ → Text → WsMessage

  -- `Poll<Option<WsMessage>>`
  pub data Polled : Type 0 where
    pending : Polled
    ended : Polled
    ready : WsMessage → Polled

-- What a poll of a subscription's stream gives.
pub data StreamPoll (Response : Type 0) : Type 0 where
  waits : StreamPoll Response
  finished : StreamPoll Response
  item : Response → StreamPoll Response

-- What happens outside before a poll: whether the keep-alive timer fires, whether the client's
-- stream has ended behind its messages, and the answers of the futures and streams.
pub record Env (D Payload Response : Type 0) : Type 0 where
  pub timeout : Bool
  pub stream_ended : Bool
  pub init_result : Option (Result Text D)
  pub ping_result : Option (Result Text (Option Payload))
  pub poll_stream : Text → StreamPoll Response

-- The connection: whether its init handler was not taken yet, whether its two futures run, its data,
-- and the subscriptions that run. The messages of the client that are ready stand in `stream`; one
-- that cannot be read is an error. `init_calls` is what can be seen outside: the payloads for which
-- the init handler was taken, the last one first.
pub record WebSocket (D Payload Request : Type 0) : Type 0 where
  pub on_connection_init : Bool
  pub init_calls : List (Option Payload)
  pub init_fut : Bool
  pub ping_fut : Bool
  pub connection_data : Option D
  pub data_of : Option D
  pub streams : List Text
  pub stream : List (Result Text (ClientMessage Payload Request))
  pub protocol : Protocols
  pub close : Bool

-- How the loop over the messages goes on.
pub data Flow (Payload Response : Type 0) : Type 0 where
  continues : Flow Payload Response
  breaks : Flow Payload Response
  returns : Polled Payload Response → Flow Payload Response

module _ {Payload Response : Type 0} where
  -- `Protocols::next_message`
  abbrev pub next_message : Protocols → Text → Response → ServerMessage Payload Response
  next_message subscriptions_transport_ws id payload = data_message id payload
  next_message graphql_ws id payload = next id payload

  abbrev pub timeout_message : Protocols → Polled Payload Response
  timeout_message subscriptions_transport_ws = ready (text (connection_error (codes "timeout")))
  timeout_message graphql_ws = ready (close_with 3008 (codes "timeout"))

  abbrev pub second_init_message : Protocols → Polled Payload Response
  second_init_message subscriptions_transport_ws =
      ready (text (connection_error (codes "Too many initialisation requests.")))
  second_init_message graphql_ws =
      ready (close_with 4429 (codes "Too many initialisation requests."))

  abbrev pub failure_message : Protocols → Text → Polled Payload Response
  failure_message subscriptions_transport_ws message = ready (text (connection_error message))
  failure_message graphql_ws message = ready (close_with 1002 message)

module _ {D Payload Request Response : Type 0} where
  -- The match over one message of the client.
  unfoldable pub handle_message :
      WebSocket D Payload Request
      → ClientMessage Payload Request
      → WebSocket D Payload Request × Flow Payload Response
  unfolding insert contains text_discrete keep text_eq
  handle_message s (connection_init payload) =
      if s.on_connection_init
      then (
        record s {
          on_connection_init = false;
          init_calls = payload ∷ s.init_calls;
          init_fut = true;
        },
        breaks,
      )
      else (record s { close = true }, returns (second_init_message s.protocol))
  handle_message s (start id request) = elim s.data_of [
    | some data_held ↦ (record s { streams = insert text_discrete id s.streams }, continues)
    | none ↦ (
      record s { close = true },
      returns (ready (close_with 1011 (codes "The handshake is not completed."))),
    )
  ]
  handle_message s (stop id) =
      if contains text_discrete id s.streams
      then (
        record s { streams = keep (λ other. not (text_eq other id)) s.streams },
        returns (ready (text (complete id))),
      )
      else (s, continues)
  handle_message s connection_terminate = (record s { close = true }, returns ended)
  handle_message s (ping payload) = (record s { ping_fut = true }, breaks)
  handle_message s (pong_received payload) = (s, continues)

  -- The loop over the messages that are ready.
  unfoldable pub read_messages :
      Bool
      → List (Result Text (ClientMessage Payload Request))
      → WebSocket D Payload Request
      → WebSocket D Payload Request × Flow Payload Response
  unfolding handle_message
  read_messages stream_ended [] s =
      (record s { stream = [] }, if stream_ended then returns ended else breaks)
  read_messages stream_ended (err e ∷ messages) s =
      (record s { close = true; stream = messages }, returns (ready (close_with 1002 e)))
  read_messages stream_ended (ok message ∷ messages) s =
      let (s', flow) = handle_message (record s { stream = messages }) message in
      elim flow [
        | continues ↦ read_messages stream_ended messages s'
        | breaks ↦ (s', breaks)
        | returns polled ↦ (s', returns polled)
      ]

  -- The loop over the subscriptions.
  unfoldable pub poll_streams :
      (Text → StreamPoll Response)
      → List Text
      → WebSocket D Payload Request
      → WebSocket D Payload Request × Polled Payload Response
  unfolding keep text_eq
  poll_streams poll_stream [] s = (s, pending)
  poll_streams poll_stream (id ∷ ids) s = elim (poll_stream id) [
    | item response ↦ (s, ready (text (next_message s.protocol id response)))
    | finished ↦ (
      record s { streams = keep (λ other. not (text_eq other id)) s.streams },
      ready (text (complete id)),
    )
    | waits ↦ poll_streams poll_stream ids s
  ]

  module _ (merge : Option D → D → D) (env : Env D Payload Response) where
    -- The answer of the init future. `merge` is the data of the connection, or the default, with
    -- what the handler gave.
    unfoldable pub poll_init :
        WebSocket D Payload Request → WebSocket D Payload Request × Polled Payload Response
    poll_init s = elim env.init_result [
      | none ↦ (s, pending)
      | some result ↦ elim result [
        | ok given ↦ (
          record s {
            init_fut = false;
            connection_data = none;
            data_of = some (merge s.connection_data given);
          },
          ready (text connection_ack),
        )
        | err message ↦
            (record s { init_fut = false; close = true }, failure_message s.protocol message)
      ]
    ]

    unfoldable pub poll_ping :
        WebSocket D Payload Request → WebSocket D Payload Request × Polled Payload Response
    poll_ping s = elim env.ping_result [
      | none ↦ (s, pending)
      | some result ↦ elim result [
        | ok payload ↦ (record s { ping_fut = false }, ready (text (pong payload)))
        | err message ↦
            (record s { ping_fut = false; close = true }, failure_message s.protocol message)
      ]
    ]

    -- What comes after the messages.
    unfoldable pub poll_futures :
        WebSocket D Payload Request → WebSocket D Payload Request × Polled Payload Response
    unfolding poll_init poll_ping poll_streams
    poll_futures s =
        if s.init_fut
        then poll_init s
        else if s.ping_fut
        then poll_ping s
        else poll_streams env.poll_stream s.streams s

    -- The messages, if no future runs, and what comes after them.
    unfoldable pub poll_open :
        WebSocket D Payload Request → WebSocket D Payload Request × Polled Payload Response
    unfolding read_messages poll_futures
    poll_open s =
        if not s.init_fut && not s.ping_fut
        then (let (s', flow) = read_messages env.stream_ended s.stream s in
            elim flow [
              | continues ↦ poll_futures s'
              | breaks ↦ poll_futures s'
              | returns polled ↦ (s', polled)
            ])
        else poll_futures s

    unfoldable pub poll_next :
        WebSocket D Payload Request → WebSocket D Payload Request × Polled Payload Response
    unfolding poll_open
    poll_next s =
        if s.close
        then (s, ended)
        else if env.timeout
        then (record s { close = true }, timeout_message s.protocol)
        else poll_open s

module _ {D Payload Request : Type 0} where
  -- A new connection, with the data that it was given.
  unfoldable pub new : Option D → Protocols → WebSocket D Payload Request
  new connection_data protocol = record {
    on_connection_init = true;
    init_calls = [];
    init_fut = false;
    ping_fut = false;
    connection_data = connection_data;
    data_of = none;
    streams = [];
    stream = [];
    protocol = protocol;
    close = false;
  }
