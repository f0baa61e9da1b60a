-- ===== src/Http/WebSocket/Tests.antt =====
-- A run of a connection, and its theorem there.
use async_graphql.Prelude.{ℕ, ◌+◌, [], ◌∷◌, codes, false, Option, none, some, ◌≡◌, refl, ok}
use async_graphql.Http.WebSocket.{
  connection_init, start, ready, text, close_with, connection_ack, next, item, Env, WebSocket,
  graphql_ws, new, poll_next,
}
use async_graphql.Http.WebSocket.Handshake.Messages.{acks, Handshake}
use async_graphql.Http.WebSocket.Handshake.{begin, arrive, poll, Run-Handshake}

abbrev fresh : WebSocket ℕ ℕ ℕ
fresh = new none graphql_ws

abbrev merge : Option ℕ → ℕ → ℕ
merge held given = given

-- The init future answers at once, and each subscription has a response.
abbrev quick : Env ℕ ℕ ℕ
quick = record {
  timeout = false;
  stream_ended = false;
  init_result = some (ok 1);
  ping_result = none;
  poll_stream = λ id. item 7;
}

abbrev with_messages : WebSocket ℕ ℕ ℕ
with_messages = record fresh { stream = ok (connection_init none) ∷ ok (start (codes "1") 5) ∷ [] }

abbrev acknowledged : WebSocket ℕ ℕ ℕ
acknowledged = (poll_next {Response = ℕ} merge quick with_messages).0

handshake_first : (poll_next merge quick with_messages).1 ≡ ready (text connection_ack)
unfolding poll_next new
handshake_first = refl

then_responses : (poll_next merge quick acknowledged).1 ≡ ready (text (next (codes "1") 7))
unfolding poll_next new
then_responses = refl

early_start :
    (poll_next merge quick (record fresh { stream = ok (start (codes "1") 5) ∷ [] })).1
    ≡ ready (close_with 1011 (codes "The handshake is not completed."))
unfolding poll_next new
early_start = refl

Run-Handshake_example :
    Handshake acknowledged (0 + acks (poll_next {Response = ℕ} merge quick with_messages).1)
unfolding new
Run-Handshake_example =
    Run-Handshake ℕ merge none graphql_ws
      (poll (arrive begin (ok (connection_init none) ∷ ok (start (codes "1") 5) ∷ [])) quick)
