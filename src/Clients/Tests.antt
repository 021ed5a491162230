-- ===== src/Clients/Tests.antt =====
-- The properties of the client's side at concrete inputs.
use gomcp.Prelude.{
  ℕ, ◌≡◌, ◌⊎◌, ◌+◌, refl, Bool, true, false, leb, none, some, List, [], ◌∷◌, String, Dict, length,
  arith, string_key, ◌==◌, if◌then◌else◌, not,
}
use Prim.Native.String.{len}
use gomcp.Serving.Paging.{remaining}
use gomcp.Clients.Listing.{complete_list, list_from, answer, list_from-answer}
use gomcp.Clients.Roots.{
  RootsManager, PathFunctions, RootsRequest, add, remove, run_roots, AreRoots, run_roots-AreRoots,
}
use gomcp.Clients.Lifecycle.{
  ClientDetector, ClientSurroundings, ClientImpl, ClientFailure, no_response, with_version,
  new_client, connect, close_client, send_request,
}
use gomcp.Clients.Connections.{
  ClientStep, connecting, requesting, closing, run_client, run_client-IsSettled,
}
use gomcp.Clients.Closing.{close_client-unusable}

abbrev by_length : String → String → Bool
by_length a b = leb (len a) (len b)

by_length_total : (a b : String) → by_length a b ≡ false → by_length b a ≡ true
by_length_total a b h = ground arith

by_length_trans :
    (a b c : String) → by_length a b ≡ true → by_length b c ≡ true → by_length a c ≡ true
by_length_trans a b c h g = ground arith

abbrev two_tools : Dict String ℕ
two_tools = ("a", 1) ∷ (("bb", 2) ∷ [])

list_from-answer_example :
    list_from
      (length (remaining by_length (λ v. true) "" two_tools) + 1)
      (answer by_length (λ v. true) by_length_total by_length_trans two_tools)
      []
      ""
    ≡ complete_list (remaining by_length (λ v. true) "" two_tools)
list_from-answer_example =
    list_from-answer by_length (λ v. true) by_length_total by_length_trans two_tools
      (refl, (refl, tt), (refl, tt, tt))

abbrev unix_paths : PathFunctions
unix_paths = record {
  scheme_of = λ path. none;
  is_abs = λ path. true;
  abs = λ path. some path;
  to_slash = λ path. path;
}

abbrev no_roots : RootsManager
no_roots = record { roots = []; list_changed = false; has_transport = true; announced = 0 }

abbrev some_requests : List RootsRequest
some_requests = add "/a" "A" ∷ (add "/b" "B" ∷ (add "/a" "again" ∷ (remove "/b" ∷ [])))

run_roots-AreRoots_example : AreRoots (run_roots unix_paths some_requests no_roots).roots
run_roots-AreRoots_example = run_roots-AreRoots unix_paths some_requests no_roots tt

abbrev drafts : ClientDetector
drafts = record { default_version = "draft"; is_supported = λ version. version == "draft" }

-- A server that answers, over a transport that heeds its context.
abbrev good_server : ClientSurroundings
good_server = record {
  connects = true;
  initialize_response =
      λ cancelled version. if cancelled then no_response else with_version version;
  answers = λ cancelled method. not cancelled;
}

abbrev unreachable_server : ClientSurroundings
unreachable_server = record good_server { connects = false }

abbrev some_steps : List ClientStep
some_steps =
    connecting unreachable_server
    ∷ connecting good_server
    ∷ requesting good_server "ping"
    ∷ closing
    ∷ requesting good_server "ping"
    ∷ []

run_client-IsSettled_example :
    ((run_client drafts some_steps (new_client "http://a" "" false)).initialized
      ≡ (run_client drafts some_steps (new_client "http://a" "" false)).connected)
    × (((run_client drafts some_steps (new_client "http://a" "" false)).connected ≡ false)
        ⊎ (((run_client drafts some_steps (new_client "http://a" "" false)).negotiated_version
              == "draft")
            ≡ true))
run_client-IsSettled_example = run_client-IsSettled drafts "http://a" "" false some_steps

abbrev connected_client : ClientImpl
connected_client = (connect drafts good_server (new_client "http://a" "" true)).0

close_client-unusable_example :
    ((run_client drafts some_steps (close_client connected_client)).connected ≡ false)
    × ((reason : ClientFailure) × ((send_request drafts good_server "ping"
            (run_client drafts some_steps (close_client connected_client))).1
          ≡ some reason))
unfolding connect new_client gomcp.Clients.Lifecycle.initialize_client
    gomcp.Clients.Lifecycle.offered_version gomcp.Clients.Lifecycle.called
close_client-unusable_example =
    close_client-unusable drafts connected_client some_steps good_server "ping" refl
      (λ version. refl, (λ version. refl, (λ version. refl, (tt, (λ version. refl, tt)))))
      (λ version. refl)
