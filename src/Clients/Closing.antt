-- ===== src/Clients/Closing.antt =====
-- What Close leaves of a client (client/lifecycle.go).
use gomcp.Prelude.{
  ◌≡◌, refl, sym, ap, ◌∙◌, true, false, ◌||◌, inl, inr, Bool-cases, subst, Option, some, List, [],
  ◌∷◌, String, All,
}
use gomcp.Clients.Lifecycle.{
  ClientDetector, ClientSurroundings, ClientImpl, ClientFailure, InitializeResponse,
  initialize_call, no_response, with_version, handshake, initialize_client, or_disconnected, opened,
  connect, called, close_client, sent_request, send_request, offered_version, has_scheme,
  no_transport_configured, connect_failed, initialize_not_answered,
}
use gomcp.Clients.Connections.{
  ClientStep, connecting, requesting, closing, after_step, run_client, connect-closed,
}

-- In a context that is cancelled the transport gives no response to initialize, as that of net/http,
-- which fails a request whose context is done.
abbrev pub HeedsContext : ClientSurroundings → Type 0
HeedsContext around = (version : String) → around.initialize_response true version ≡ no_response

abbrev pub IsHeeding : ClientStep → Type 0
IsHeeding (connecting around) = HeedsContext around
IsHeeding (requesting around method) = HeedsContext around
IsHeeding closing = Unit

-- The client is closed, and its call failed.
IsShut : ClientImpl × Option ClientFailure → Type 0
IsShut (c, failure) =
    (c.connected ≡ false)
    × (c.cancelled ≡ true)
    × ((reason : ClientFailure) × (failure ≡ some reason))

initialize_client-unanswered :
    (detector : ClientDetector) (around : ClientSurroundings) (c : ClientImpl)
    → HeedsContext around
    → c.cancelled ≡ true
    → IsShut (or_disconnected (initialize_client detector around c))
unfolding initialize_client called IsShut
initialize_client-unanswered detector around c heeds h =
    subst
      (λ (response : InitializeResponse). IsShut (
        or_disconnected
          (handshake detector (called (initialize_call (offered_version detector c)) c) response)))
      (sym (heeds (offered_version detector c))
        ∙ ap (λ b. around.initialize_response b (offered_version detector c)) (sym h))
      (refl, h, (initialize_not_answered, refl))

opened-IsShut :
    (detector : ClientDetector) (around : ClientSurroundings) (c : ClientImpl)
    → HeedsContext around
    → c.connected ≡ false
    → c.cancelled ≡ true
    → IsShut (opened detector around c)
unfolding IsShut
opened-IsShut detector around c heeds k h = elim (Bool-cases around.connects) [
  | inl g ↦
      simp g (initialize_client-unanswered detector around (record c { connected = true }) heeds h)
  | inr g ↦ simp g (k, h, (connect_failed, refl))
]

connect-IsShut :
    (detector : ClientDetector) (around : ClientSurroundings) (c : ClientImpl)
    → HeedsContext around
    → c.connected ≡ false
    → c.cancelled ≡ true
    → IsShut (connect detector around c)
unfolding IsShut
connect-IsShut detector around c heeds k h =
    subst IsShut (sym (connect-closed detector around c k))
      (elim (Bool-cases (c.has_transport || has_scheme c.url)) [
        | inl g ↦
            simp g (opened-IsShut detector around (record c { has_transport = true }) heeds k h)
        | inr g ↦ simp g (k, h, (no_transport_configured, refl))
      ])

send_request-IsShut :
    (detector : ClientDetector) (around : ClientSurroundings) (method : String) (c : ClientImpl)
    → HeedsContext around
    → c.connected ≡ false
    → c.cancelled ≡ true
    → IsShut (send_request detector around method c)
unfolding send_request IsShut
send_request-IsShut detector around method c heeds k h =
    let (closed, cancelled, (reason, e)) = connect-IsShut detector around c heeds k h in
    subst
      (λ (f : Option ClientFailure).
        IsShut (sent_request around method (connect detector around c).0 f))
      (sym e) (closed, cancelled, (reason, refl))

after_step-closed :
    (detector : ClientDetector) (step : ClientStep) (c : ClientImpl)
    → IsHeeding step
    → c.connected ≡ false
    → c.cancelled ≡ true
    → ((after_step detector step c).connected ≡ false)
      × ((after_step detector step c).cancelled ≡ true)
unfolding IsShut close_client
after_step-closed detector (connecting around) c heeds k h =
    let shut = connect-IsShut detector around c heeds k h in (shut.0, shut.1)
after_step-closed detector (requesting around method) c heeds k h =
    let shut = send_request-IsShut detector around method c heeds k h in (shut.0, shut.1)
after_step-closed detector closing c heeds k h = simp k (refl, h)

run-closed :
    (detector : ClientDetector) (steps : List ClientStep) (c : ClientImpl)
    → All IsHeeding steps
    → c.connected ≡ false
    → c.cancelled ≡ true
    → ((run_client detector steps c).connected ≡ false)
      × ((run_client detector steps c).cancelled ≡ true)
unfolding run_client
run-closed detector [] c heed k h = (k, h)
run-closed detector (step ∷ steps) c (heeds, heed) k h =
    let (closed, cancelled) = after_step-closed detector step c heeds k h in
    run-closed detector steps (after_step detector step c) heed closed cancelled

close_client-closed :
    (c : ClientImpl)
    → c.connected ≡ true
    → ((close_client c).connected ≡ false) × ((close_client c).cancelled ≡ true)
unfolding close_client
close_client-closed c k = rw k (refl, refl)

-- Close cancels the context of a connected client for good: over a transport that heeds its context,
-- no sequence of calls connects the client again, and every request after it fails, although the
-- transport may work.
pub close_client-unusable :
    (detector : ClientDetector) (c : ClientImpl) (steps : List ClientStep)
    (around : ClientSurroundings) (method : String)
    → c.connected ≡ true
    → All IsHeeding steps
    → HeedsContext around
    → ((run_client detector steps (close_client c)).connected ≡ false)
      × ((reason : ClientFailure) × ((send_request detector around method
              (run_client detector steps (close_client c))).1
            ≡ some reason))
unfolding IsShut
close_client-unusable detector c steps around method k heed heeds =
    let (closed, cancelled) = close_client-closed c k in
    let (still_closed, still_cancelled) =
      run-closed detector steps (close_client c) heed closed cancelled in
    (
      still_closed,
      (send_request-IsShut detector around method (run_client detector steps (close_client c)) heeds
          still_closed still_cancelled).2,
    )

-- A transport that does not heed it connects again, if the server answers with a version that the
-- client supports.
connect-reopens :
    (detector : ClientDetector) (around : ClientSurroundings) (c : ClientImpl) (version : String)
    → c.has_transport ≡ true
    → c.connected ≡ false
    → around.connects ≡ true
    → around.initialize_response c.cancelled (offered_version detector c) ≡ with_version version
    → detector.is_supported version ≡ true
    → (connect detector around c).0.connected ≡ true
unfolding initialize_client offered_version called
connect-reopens detector around c version t k g e h =
    ap (λ (r : ClientImpl × Option ClientFailure). r.0.connected)
      (connect-closed detector around c k)
    ∙ simp (t, g, e, h) refl
