-- ===== src/Embedded/Balance.antt =====
-- Histories of the embedded pair (transport/embedded/embedded.go): the calls of both ends, the rounds
-- of the server's loops and the ends of its goroutines, in any order.
use gomcp.Prelude.{
  ℕ, ◌≡◌, refl, sym, ap, ◌∙◌, Bool, true, false, inl, inr, Bool-cases, append-nil, append_assoc,
  Option, none, some, List, [], ◌∷◌, ◌++◌, ltb, Result, ok, err, arith,
}
use gomcp.Embedded.{
  Payload, Endpoint, server_end, client_end, TransportPair, Answer, completed, received,
  start_embedded, stop_embedded, SendCase, send_embedded, ReceiveCase, receive, process_messages,
  finish_message, new_transport_pair, reads, reads_error, finds_done, take_from, receive_selected,
  taken_up, dispatched, respond_embedded, handled, without_place, writes, times_out, sees_done,
}

pub data Step : Type 0 where
  starts stops : Endpoint → Step
  sends : SendCase → Endpoint → Payload → Step
  receives : ReceiveCase → Endpoint → Step
  loops_round : Bool → Step
  finishes : (Payload → Result Answer (Option Payload)) → Bool → ℕ → Step

abbrev pub after_step : Step → TransportPair → TransportPair × Answer
after_step (starts e) p = start_embedded e p
after_step (stops e) p = stop_embedded e p
after_step (sends selected e message) p = send_embedded selected e message p
after_step (receives selected e) p = receive selected e p
after_step (loops_round sees) p = process_messages sees p
after_step (finishes handler gives_up place) p =
    (finish_message handler gives_up place p, completed)

abbrev read_answer : Answer → List Payload
read_answer (received message) = message ∷ []
read_answer answer = []

-- What a step read at the server's end: a message that its Receive or its loop answered.
abbrev read_of : Step → Answer → List Payload
read_of (receives selected server_end) answer = read_answer answer
read_of (loops_round sees) answer = read_answer answer
read_of step answer = []

-- What a step of the client handed to the channel: a message whose Send succeeded.
abbrev written_of : Step → Answer → List Payload
written_of (sends selected client_end message) completed = message ∷ []
written_of step answer = []

unfoldable pub run_steps : List Step → TransportPair → TransportPair
run_steps [] p = p
run_steps (step ∷ steps) p = run_steps steps (after_step step p).0

unfoldable pub read_by_server : List Step → TransportPair → List Payload
read_by_server [] p = []
read_by_server (step ∷ steps) p =
    read_of step (after_step step p).1 ++ read_by_server steps (after_step step p).0

unfoldable pub sent_by_client : List Step → TransportPair → List Payload
sent_by_client [] p = []
sent_by_client (step ∷ steps) p =
    written_of step (after_step step p).1 ++ sent_by_client steps (after_step step p).0

-- What was in the channel and what a step wrote are what it read and what is in the channel then.
IsBalanced : Step → TransportPair → Answer → TransportPair → Type 0
IsBalanced step before answer after =
    before.queues.to_server ++ written_of step answer
    ≡ read_of step answer ++ after.queues.to_server

start_embedded-IsBalanced :
    (e : Endpoint) (p : TransportPair)
    → IsBalanced (starts e) p (start_embedded e p).1 (start_embedded e p).0
unfolding IsBalanced start_embedded
start_embedded-IsBalanced server_end p = ground (arith, append-nil p.queues.to_server)
start_embedded-IsBalanced client_end p = ground (arith, append-nil p.queues.to_server)

stop_embedded-IsBalanced :
    (e : Endpoint) (p : TransportPair)
    → IsBalanced (stops e) p (stop_embedded e p).1 (stop_embedded e p).0
unfolding IsBalanced stop_embedded
stop_embedded-IsBalanced server_end p = ground (arith, append-nil p.queues.to_server)
stop_embedded-IsBalanced client_end p = ground (arith, append-nil p.queues.to_server)

send_embedded-IsBalanced :
    (selected : SendCase) (e : Endpoint) (message : Payload) (p : TransportPair)
    → IsBalanced
        (sends selected e message)
        p
        (send_embedded selected e message p).1
        (send_embedded selected e message p).0
unfolding IsBalanced send_embedded
send_embedded-IsBalanced writes server_end message p = ground (arith, append-nil p.queues.to_server)
send_embedded-IsBalanced writes client_end message p = ground (arith, append-nil p.queues.to_server)
send_embedded-IsBalanced times_out server_end message p =
    ground (arith, append-nil p.queues.to_server)
send_embedded-IsBalanced times_out client_end message p =
    ground (arith, append-nil p.queues.to_server)
send_embedded-IsBalanced sees_done server_end message p =
    ground (arith, append-nil p.queues.to_server)
send_embedded-IsBalanced sees_done client_end message p =
    ground (arith, append-nil p.queues.to_server)

take_from-balanced :
    (q : List Payload) (p : TransportPair)
    → p.queues.to_server ≡ q
    → p.queues.to_server
      ≡ read_answer (take_from server_end q p).1 ++ (take_from server_end q p).0.queues.to_server
take_from-balanced [] p e = refl
take_from-balanced (message ∷ rest) p e = e

receive-balanced :
    (selected : ReceiveCase) (p : TransportPair)
    → p.queues.to_server
      ≡ read_answer (receive_selected selected server_end p).1
        ++ (receive_selected selected server_end p).0.queues.to_server
receive-balanced reads p = take_from-balanced p.queues.to_server p refl
receive-balanced reads_error p = ground arith
receive-balanced finds_done p = ground arith

take_from-keeps :
    (q : List Payload) (p : TransportPair)
    → p.queues.to_server ≡ (take_from client_end q p).0.queues.to_server
take_from-keeps [] p = refl
take_from-keeps (message ∷ rest) p = refl

receive_selected-keeps :
    (selected : ReceiveCase) (p : TransportPair)
    → p.queues.to_server ≡ (receive_selected selected client_end p).0.queues.to_server
receive_selected-keeps reads p = take_from-keeps p.queues.to_client p
receive_selected-keeps reads_error p = ground arith
receive_selected-keeps finds_done p = ground arith

receive-IsBalanced :
    (selected : ReceiveCase) (e : Endpoint) (p : TransportPair)
    → IsBalanced (receives selected e) p (receive selected e p).1 (receive selected e p).0
unfolding IsBalanced receive
receive-IsBalanced selected server_end p =
    append-nil p.queues.to_server ∙ (elim (Bool-cases p.server_started) [
      | inl on ↦ simp on (receive-balanced selected p)
      | inr off ↦ simp off refl
    ])
receive-IsBalanced selected client_end p =
    append-nil p.queues.to_server ∙ (elim (Bool-cases p.client_started) [
      | inl on ↦ simp on (receive_selected-keeps selected p)
      | inr off ↦ simp off refl
    ])

dispatched-keeps :
    (message : Payload) (p : TransportPair) → (dispatched message p).queues ≡ p.queues
dispatched-keeps [] p = refl
dispatched-keeps (byte ∷ bytes) p = refl

taken_up-balanced :
    (q : List Payload) (p : TransportPair)
    → p.queues.to_server ≡ q
    → p.queues.to_server
      ≡ read_answer (taken_up (take_from server_end q p)).1
        ++ (taken_up (take_from server_end q p)).0.queues.to_server
taken_up-balanced [] p e = refl
taken_up-balanced ([] ∷ rest) p e = e
taken_up-balanced ((byte ∷ bytes) ∷ rest) p e = e

process_messages-IsBalanced :
    (sees : Bool) (p : TransportPair)
    → IsBalanced (loops_round sees) p (process_messages sees p).1 (process_messages sees p).0
unfolding IsBalanced process_messages
process_messages-IsBalanced true p = ground (arith, append-nil p.queues.to_server)
process_messages-IsBalanced false p =
    append-nil p.queues.to_server ∙ (elim (Bool-cases (ltb 0 p.loops)) [
      | inl on ↦ rw on (taken_up-balanced p.queues.to_server p refl)
      | inr off ↦ rw off refl
    ])

respond_embedded-keeps :
    (gives_up : Bool) (r : Result Answer (Option Payload)) (p : TransportPair)
    → (respond_embedded gives_up r p).queues.to_server ≡ p.queues.to_server
respond_embedded-keeps gives_up (err failure) p = ground arith
respond_embedded-keeps gives_up (ok none) p = refl
respond_embedded-keeps gives_up (ok (some response)) p = ground arith

handled-keeps :
    (handler : Payload → Result Answer (Option Payload)) (gives_up : Bool)
    (found : Option (Payload × List Payload)) (p : TransportPair)
    → (handled handler gives_up found p).queues.to_server ≡ p.queues.to_server
handled-keeps handler gives_up none p = refl
handled-keeps handler gives_up (some (message, others)) p =
    respond_embedded-keeps gives_up (handler message) (record p { handling = others })

finish_message-IsBalanced :
    (handler : Payload → Result Answer (Option Payload)) (gives_up : Bool) (place : ℕ)
    (p : TransportPair)
    → IsBalanced
        (finishes handler gives_up place)
        p
        completed
        (finish_message handler gives_up place p)
unfolding IsBalanced finish_message
finish_message-IsBalanced handler gives_up place p =
    append-nil p.queues.to_server
    ∙ sym (handled-keeps handler gives_up (without_place place p.handling) p)

after_step-IsBalanced :
    (step : Step) (p : TransportPair)
    → IsBalanced step p (after_step step p).1 (after_step step p).0
after_step-IsBalanced (starts e) p = start_embedded-IsBalanced e p
after_step-IsBalanced (stops e) p = stop_embedded-IsBalanced e p
after_step-IsBalanced (sends selected e message) p = send_embedded-IsBalanced selected e message p
after_step-IsBalanced (receives selected e) p = receive-IsBalanced selected e p
after_step-IsBalanced (loops_round sees) p = process_messages-IsBalanced sees p
after_step-IsBalanced (finishes handler gives_up place) p =
    finish_message-IsBalanced handler gives_up place p

run_steps-balanced :
    (steps : List Step) (p : TransportPair)
    → p.queues.to_server ++ sent_by_client steps p
      ≡ read_by_server steps p ++ (run_steps steps p).queues.to_server
unfolding IsBalanced run_steps sent_by_client read_by_server
run_steps-balanced [] p = append-nil p.queues.to_server
run_steps-balanced (step ∷ steps) p =
    let after = (after_step step p).0 in
    let written = written_of step (after_step step p).1 in
    let read = read_of step (after_step step p).1 in
    sym (append_assoc p.queues.to_server written (sent_by_client steps after))
    ∙ ap (λ (q : List Payload). q ++ sent_by_client steps after) (after_step-IsBalanced step p)
    ∙ append_assoc read after.queues.to_server (sent_by_client steps after)
    ∙ ap (λ (q : List Payload). read ++ q) (run_steps-balanced steps after)
    ∙ sym (append_assoc read (read_by_server steps after) (run_steps steps after).queues.to_server)

-- In any interleaving of calls of both ends, rounds of the server's loops and ends of its
-- goroutines, with any handlers, from a new pair on, the messages whose Send the client saw succeed
-- are those that the server has read, in that order, followed by those that wait in the channel.
pub read_by_server-refines_queue :
    (steps : List Step)
    → sent_by_client steps new_transport_pair
      ≡ read_by_server steps new_transport_pair
        ++ (run_steps steps new_transport_pair).queues.to_server
unfolding new_transport_pair
read_by_server-refines_queue steps = run_steps-balanced steps new_transport_pair
