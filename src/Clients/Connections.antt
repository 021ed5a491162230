-- ===== src/Clients/Connections.antt =====
-- Histories of a client (client/lifecycle.go, client/protocol.go): calls of Connect, requests and Close,
-- each with surroundings of its own.
use gomcp.Prelude.{
  ◌≡◌, ◌⊎◌, refl, sym, ◌∙◌, Bool, true, false, ◌||◌, inl, inr, Bool-cases, subst, Option, none,
  some, List, [], ◌∷◌, String, if◌then◌else◌,
}
use gomcp.Clients.Lifecycle.{
  ClientDetector, ClientSurroundings, ClientImpl, ClientFailure, InitializeResponse, no_response,
  error_response, without_version, with_version, handshake, initialize_client, or_disconnected,
  opened, configured, connect, called, new_client, close_client, sent_request, send_request,
  has_scheme,
}

pub data ClientStep : Type 0 where
  connecting : ClientSurroundings → ClientStep
  requesting : ClientSurroundings → String → ClientStep
  closing : ClientStep

abbrev pub after_step : ClientDetector → ClientStep → ClientImpl → ClientImpl
after_step detector (connecting around) c = (connect detector around c).0
after_step detector (requesting around method) c = (send_request detector around method c).0
after_step detector closing c = close_client c

unfoldable pub run_client : ClientDetector → List ClientStep → ClientImpl → ClientImpl
run_client detector [] c = c
run_client detector (step ∷ steps) c = run_client detector steps (after_step detector step c)

-- Connected and initialized are the same, and a version was then negotiated.
abbrev pub IsSettled : ClientDetector → ClientImpl → Type 0
IsSettled detector c =
    (c.initialized ≡ c.connected)
    × (c.connected ≡ true → detector.is_supported c.negotiated_version ≡ true)

handshake-IsSettled :
    (detector : ClientDetector) (c : ClientImpl) (response : InitializeResponse)
    → c.initialized ≡ false
    → c.connected ≡ true
    → IsSettled detector (or_disconnected (handshake detector c response)).0
handshake-IsSettled detector c no_response i j = (i, λ h. let e : false ≡ true = h in cc)
handshake-IsSettled detector c error_response i j = (i, λ h. let e : false ≡ true = h in cc)
handshake-IsSettled detector c without_version i j = (i, λ h. let e : false ≡ true = h in cc)
handshake-IsSettled detector c (with_version version) i j =
    elim (Bool-cases (detector.is_supported version)) [
      | inl h ↦ rw h (sym j, λ k. h)
      | inr h ↦ rw h (i, λ k. let e : false ≡ true = k in cc)
    ]

opened-IsSettled :
    (detector : ClientDetector) (around : ClientSurroundings) (c : ClientImpl)
    → c.initialized ≡ false
    → c.connected ≡ false
    → IsSettled detector (opened detector around c).0
unfolding initialize_client called
opened-IsSettled detector around c i k = elim (Bool-cases around.connects) [
  | inl g ↦ rw g (handshake-IsSettled detector _ _ i refl)
  | inr g ↦ simp g (i ∙ sym k, λ j. let f : true ≡ false = sym j ∙ k in cc)
]

takes {ℓ} : {A : Type ℓ} (b : Bool) (x y : A) → b ≡ true → (if b then x else y) ≡ x
takes b x y h = rw h refl

skips {ℓ} : {A : Type ℓ} (b : Bool) (x y : A) → b ≡ false → (if b then x else y) ≡ y
skips b x y h = rw h refl

configured-IsSettled :
    (detector : ClientDetector) (around : ClientSurroundings) (c : ClientImpl)
    → IsSettled detector c
    → c.connected ≡ false
    → IsSettled detector (configured detector around c).0
configured-IsSettled detector around c (e, h) k =
    elim (Bool-cases (c.has_transport || has_scheme c.url)) [
      | inl g ↦
          simp g (opened-IsSettled detector around (record c { has_transport = true }) (e ∙ k) k)
      | inr g ↦ simp g (e, h)
    ]

connect-connected :
    (detector : ClientDetector) (around : ClientSurroundings) (c : ClientImpl)
    → c.connected ≡ true
    → connect detector around c ≡ (c, none)
unfolding connect
connect-connected detector around c = takes c.connected (c, none) (configured detector around c)

pub connect-closed :
    (detector : ClientDetector) (around : ClientSurroundings) (c : ClientImpl)
    → c.connected ≡ false
    → connect detector around c ≡ configured detector around c
unfolding connect
connect-closed detector around c = skips c.connected (c, none) (configured detector around c)

connect-IsSettled :
    (detector : ClientDetector) (around : ClientSurroundings) (c : ClientImpl)
    → IsSettled detector c
    → IsSettled detector (connect detector around c).0
connect-IsSettled detector around c settled = elim (Bool-cases c.connected) [
  | inl k ↦
      subst (λ r. IsSettled detector r.0) (sym (connect-connected detector around c k)) settled
  | inr k ↦
      subst (λ r. IsSettled detector r.0) (sym (connect-closed detector around c k))
        (configured-IsSettled detector around c settled k)
]

sent_request-IsSettled :
    (detector : ClientDetector) (around : ClientSurroundings) (method : String) (c : ClientImpl)
    (failure : Option ClientFailure)
    → IsSettled detector c
    → IsSettled detector (sent_request around method c failure).0
unfolding called
sent_request-IsSettled detector around method c none settled = settled
sent_request-IsSettled detector around method c (some failure) settled = settled

close_client-IsSettled :
    (detector : ClientDetector) (c : ClientImpl)
    → IsSettled detector c
    → IsSettled detector (close_client c)
unfolding close_client
close_client-IsSettled detector c (e, h) = elim (Bool-cases c.connected) [
  | inl k ↦ simp k (refl, λ j. let f : false ≡ true = j in cc)
  | inr k ↦ simp k (e ∙ k, λ j. let f : false ≡ true = j in cc)
]

after_step-IsSettled :
    (detector : ClientDetector) (step : ClientStep) (c : ClientImpl)
    → IsSettled detector c
    → IsSettled detector (after_step detector step c)
unfolding send_request
after_step-IsSettled detector (connecting around) c settled =
    connect-IsSettled detector around c settled
after_step-IsSettled detector (requesting around method) c settled =
    sent_request-IsSettled detector around method (connect detector around c).0
      (connect detector around c).1 (connect-IsSettled detector around c settled)
after_step-IsSettled detector closing c settled = close_client-IsSettled detector c settled

run-IsSettled :
    (detector : ClientDetector) (steps : List ClientStep) (c : ClientImpl)
    → IsSettled detector c
    → IsSettled detector (run_client detector steps c)
unfolding run_client
run-IsSettled detector [] c settled = settled
run-IsSettled detector (step ∷ steps) c settled =
    run-IsSettled detector steps (after_step detector step c)
      (after_step-IsSettled detector step c settled)

-- Whatever sequence of Connect, requests and Close a new client goes through, and however the
-- transport and the server behave in each of them, it counts as initialized exactly while it is
-- connected, and it is not connected or its version is one that its detector supports.
pub run_client-IsSettled :
    (detector : ClientDetector) (url version : String) (has_transport : Bool)
    (steps : List ClientStep)
    → ((run_client detector steps (new_client url version has_transport)).initialized
        ≡ (run_client detector steps (new_client url version has_transport)).connected)
      × (((run_client detector steps (new_client url version has_transport)).connected ≡ false)
          ⊎ (detector.is_supported
                (run_client detector steps
                  (new_client url version has_transport)).negotiated_version
              ≡ true))
unfolding new_client
run_client-IsSettled detector url version has_transport steps =
    let c = run_client detector steps (new_client url version has_transport) in
    let (same, supported) =
      run-IsSettled detector steps (new_client url version has_transport)
        (refl, λ h. let e : false ≡ true = h in cc) in
    (same, elim (Bool-cases c.connected) [ inl h ↦ inr (supported h) | inr h ↦ inl h ])
