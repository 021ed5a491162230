-- ===== src/Requests/Tests.antt =====
-- The properties of requests and sessions at concrete inputs.
use gomcp.Prelude.{ℕ, ◌≡◌, Bool, true, false, some, length, string_key}
use gomcp.Requests.Cancellation.{
  RequestCanceller, new_request_canceller, register, cancel, is_closed, is_member,
}
use gomcp.Requests.Sessions.{
  SessionManager, ClientSession, new_session_manager, create_session, get_session,
}
use gomcp.Requests.Overwriting.{cancel-misses_first, create_session-replaces}

abbrev first_channel : RequestCanceller × ℕ
first_channel = register "7" new_request_canceller

abbrev second_channel : RequestCanceller × ℕ
second_channel = register "7" first_channel.0

abbrev after_cancel : RequestCanceller × Bool
after_cancel = cancel "7" second_channel.0

cancel-misses_first_example :
    (after_cancel.1 ≡ true)
    × (is_closed second_channel.1 after_cancel.0 ≡ true)
    × (is_closed first_channel.1 after_cancel.0 ≡ false)
    × (is_closed (register "7" after_cancel.0).1 (register "7" after_cancel.0).0 ≡ false)
unfolding is_member
cancel-misses_first_example =
    cancel-misses_first new_request_canceller "7" (λ c h. let e : false ≡ true = h in cc)

abbrev first_session : SessionManager ℕ × ClientSession ℕ
first_session = create_session new_session_manager 5 "20250326120000" 1 "draft"

create_session-replaces_example :
    (first_session.1.id ≡ (create_session first_session.0 6 "20250326120000" 2 "draft").1.id)
    × (get_session
          (create_session first_session.0 6 "20250326120000" 2 "draft").0
          first_session.1.id
        ≡ some (create_session first_session.0 6 "20250326120000" 2 "draft").1)
    × (length (create_session first_session.0 6 "20250326120000" 2 "draft").0.sessions
        ≡ length first_session.0.sessions)
create_session-replaces_example =
    create_session-replaces new_session_manager 5 6 "20250326120000" 1 2 "draft" "draft"
