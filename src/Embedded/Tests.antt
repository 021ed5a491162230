-- ===== src/Embedded/Tests.antt =====
-- The properties of the embedded pair at concrete inputs.
use gomcp.Prelude.{◌≡◌, false, some, List, [], ◌∷◌, ◌++◌, ok, refl}
use gomcp.Embedded.{
  server_end, client_end, new_transport_pair, writes, times_out, reads, is_started,
}
use gomcp.Embedded.Balance.{
  Step, starts, stops, sends, receives, loops_round, finishes, run_steps, read_by_server,
  sent_by_client, read_by_server-refines_queue,
}

abbrev exchange : List Step
exchange =
    starts server_end
    ∷ starts client_end
    ∷ sends writes client_end (1 ∷ [])
    ∷ sends writes client_end (2 ∷ [])
    ∷ sends times_out client_end (3 ∷ [])
    ∷ sends writes client_end (4 ∷ [])
    ∷ loops_round false
    ∷ receives reads server_end
    ∷ finishes (λ m. ok (some m)) false 0
    ∷ stops server_end
    ∷ []

read_by_server-refines_queue_example :
    sent_by_client exchange new_transport_pair
    ≡ read_by_server exchange new_transport_pair
      ++ (run_steps exchange new_transport_pair).queues.to_server
read_by_server-refines_queue_example = read_by_server-refines_queue exchange

-- The messages of that exchange.
exchange-sent : sent_by_client exchange new_transport_pair ≡ (1 ∷ []) ∷ (2 ∷ []) ∷ (4 ∷ []) ∷ []
unfolding sent_by_client gomcp.Embedded.send_embedded gomcp.Embedded.start_embedded
    new_transport_pair
exchange-sent = refl
