-- ===== src/Embedded.antt =====
-- The embedded transport (transport/embedded/embedded.go): the pair of transports of NewTransportPair,
-- which share their channels. A `select` is given the case that it takes; where that case is not
-- ready, the call still waits and nothing changes. The contents of errors and the queues of errors,
-- but for their lengths, are left out.
pub mod Balance
pub mod Tests
use gomcp.Prelude.{
  ℕ, ◌+◌, ◌-◌, Bool, true, false, not, ◌&&◌, Option, none, some, List, [], ◌∷◌, ◌++◌, length, ltb,
  zero, suc, if◌then◌else◌, Result, ok, err,
}

abbrev pub Payload : Type 0
Payload = List ℕ

-- The two ends, and the two channels of messages by the end that reads them.
pub data Endpoint : Type 0 where
  server_end client_end : Endpoint

abbrev pub other_end : Endpoint → Endpoint
other_end server_end = client_end
other_end client_end = server_end

pub record Queues : Type 0 where
  pub to_server : List Payload
  pub to_client : List Payload

-- The pair. `handling` are the messages whose goroutine runs, and `loops` counts the running
-- processMessages; an end's number of errors is that of the channel from which it receives them.
pub record TransportPair : Type 0 where
  pub queues : Queues
  pub server_errors : ℕ
  pub client_errors : ℕ
  pub done : Bool
  pub server_started : Bool
  pub client_started : Bool
  pub loops : ℕ
  pub handling : List Payload

pub data Answer : Type 0 where
  completed waits not_started already_started timed_out stopped failed : Answer
  received : Payload → Answer

abbrev pub channel_size : ℕ
channel_size = 100

abbrev pub error_channel_size : ℕ
error_channel_size = 10

unfoldable pub new_transport_pair : TransportPair
new_transport_pair = record {
  queues = record { to_server = []; to_client = [] };
  server_errors = 0;
  client_errors = 0;
  done = false;
  server_started = false;
  client_started = false;
  loops = 0;
  handling = [];
}

abbrev pub queue_of : Endpoint → Queues → List Payload
queue_of server_end q = q.to_server
queue_of client_end q = q.to_client

abbrev pub set_queue : Endpoint → List Payload → Queues → Queues
set_queue server_end messages q = record q { to_server = messages }
set_queue client_end messages q = record q { to_client = messages }

abbrev pub is_started : Endpoint → TransportPair → Bool
is_started server_end p = p.server_started
is_started client_end p = p.client_started

-- Only the server starts a loop.
abbrev pub set_started : Endpoint → Bool → TransportPair → TransportPair
set_started server_end started p = record p { server_started = started }
set_started client_end started p = record p { client_started = started }

abbrev pub with_loop : Endpoint → TransportPair → TransportPair
with_loop server_end p = record p { loops = p.loops + 1 }
with_loop client_end p = p

unfoldable pub start_embedded : Endpoint → TransportPair → TransportPair × Answer
start_embedded e p =
    if is_started e p then (p, already_started) else (with_loop e (set_started e true p), completed)

-- The channel that says that the transport is done is the same for both ends.
unfoldable pub stop_embedded : Endpoint → TransportPair → TransportPair × Answer
stop_embedded e p =
    if is_started e p
    then (record (set_started e false p) { done = true }, completed)
    else (p, completed)

abbrev pub has_room : Endpoint → TransportPair → Bool
has_room e p = ltb (length (queue_of e p.queues)) channel_size

abbrev pub put : Endpoint → Payload → TransportPair → TransportPair
put e message p = record p { queues = set_queue e (queue_of e p.queues ++ (message ∷ [])) p.queues }

pub data SendCase : Type 0 where
  writes times_out sees_done : SendCase

abbrev pub send_selected : SendCase → Endpoint → Payload → TransportPair → TransportPair × Answer
send_selected writes e message p =
    if has_room (other_end e) p then (put (other_end e) message p, completed) else (p, waits)
send_selected times_out e message p = (p, timed_out)
send_selected sees_done e message p = if p.done then (p, stopped) else (p, waits)

unfoldable pub send_embedded :
    SendCase → Endpoint → Payload → TransportPair → TransportPair × Answer
send_embedded selected e message p =
    if is_started e p then send_selected selected e message p else (p, not_started)

pub data ReceiveCase : Type 0 where
  reads reads_error finds_done : ReceiveCase

-- The next message of an end, and the pair without it.
abbrev pub take_from : Endpoint → List Payload → TransportPair → TransportPair × Answer
take_from e [] p = (p, waits)
take_from e (message ∷ rest) p = (record p { queues = set_queue e rest p.queues }, received message)

-- An end receives the errors that the other end's field serverErrors holds.
abbrev pub take_error : Endpoint → TransportPair → TransportPair × Answer
take_error server_end p =
    if ltb 0 p.client_errors
    then (record p { client_errors = p.client_errors - 1 }, failed)
    else (p, waits)
take_error client_end p =
    if ltb 0 p.server_errors
    then (record p { server_errors = p.server_errors - 1 }, failed)
    else (p, waits)

abbrev pub receive_selected : ReceiveCase → Endpoint → TransportPair → TransportPair × Answer
receive_selected reads e p = take_from e (queue_of e p.queues) p
receive_selected reads_error e p = take_error e p
receive_selected finds_done e p = if p.done then (p, stopped) else (p, waits)

unfoldable pub receive : ReceiveCase → Endpoint → TransportPair → TransportPair × Answer
receive selected e p = if is_started e p then receive_selected selected e p else (p, not_started)

-- A message goes to a goroutine of its own, unless it is empty.
abbrev pub dispatched : Payload → TransportPair → TransportPair
dispatched [] p = p
dispatched (byte ∷ bytes) p = record p { handling = p.handling ++ ((byte ∷ bytes) ∷ []) }

abbrev pub taken_up : TransportPair × Answer → TransportPair × Answer
taken_up (p, received message) = (dispatched message p, received message)
taken_up (p, answer) = (p, answer)

-- One round of a loop of the server.
unfoldable pub process_messages : Bool → TransportPair → TransportPair × Answer
process_messages true p =
    if p.done && ltb 0 p.loops then (record p { loops = p.loops - 1 }, stopped) else (p, waits)
process_messages false p =
    if ltb 0 p.loops
    then taken_up (take_from server_end (queue_of server_end p.queues) p)
    else (p, waits)

-- The result of HandleMessage; a full channel loses it, and so may a transport that is done.
abbrev pub respond_embedded : Bool → Result Answer (Option Payload) → TransportPair → TransportPair
respond_embedded gives_up (err failure) p =
    if gives_up && p.done
    then p
    else if ltb p.server_errors error_channel_size
    then record p { server_errors = p.server_errors + 1 }
    else p
respond_embedded gives_up (ok none) p = p
respond_embedded gives_up (ok (some response)) p =
    if gives_up && p.done then p else if has_room client_end p then put client_end response p else p

-- The message at a place of a list, and the others.
abbrev pub without_place : ℕ → List Payload → Option (Payload × List Payload)
without_place i [] = none
without_place zero (m ∷ ms) = some (m, ms)
without_place (suc i) (m ∷ ms) = elim (without_place i ms) [
  | none ↦ none
  | some found ↦ some (found.0, m ∷ found.1)
]

abbrev pub handled :
    (Payload → Result Answer (Option Payload))
    → Bool
    → Option (Payload × List Payload)
    → TransportPair
    → TransportPair
handled handler gives_up none p = p
handled handler gives_up (some (message, others)) p =
    respond_embedded gives_up (handler message) (record p { handling = others })

-- The end of the goroutine of any one of the messages.
unfoldable pub finish_message :
    (Payload → Result Answer (Option Payload)) → Bool → ℕ → TransportPair → TransportPair
finish_message handler gives_up place p =
    handled handler gives_up (without_place place p.handling) p
