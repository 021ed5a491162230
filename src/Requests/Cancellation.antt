-- ===== src/Requests/Cancellation.antt =====
-- RequestCanceller (server/cancellation.go). A channel is a number; those below `next_channel` have
-- been made, and those in `closed` are closed.
use gomcp.Prelude.{
  ℕ, ◌+◌, Bool, true, false, none, some, List, [], ◌∷◌, eqb, if◌then◌else◌, String, Dict, lookup,
  insert, erase, string_key, ◌==◌,
}

pub record RequestCanceller : Type 0 where
  pub cancellations : Dict String ℕ
  pub next_channel : ℕ
  pub closed : List ℕ

abbrev pub new_request_canceller : RequestCanceller
new_request_canceller = record { cancellations = []; next_channel = 0; closed = [] }

unfoldable pub is_member : ℕ → List ℕ → Bool
is_member c [] = false
is_member c (d ∷ ds) = if eqb c d then true else is_member c ds

-- A receive on the channel that does not block.
abbrev pub is_closed : ℕ → RequestCanceller → Bool
is_closed c rc = is_member c rc.closed

-- The registry, and the channel.
unfoldable pub register : String → RequestCanceller → RequestCanceller × ℕ
register request_id rc = (
  record rc {
    next_channel = rc.next_channel + 1;
    cancellations = insert request_id rc.next_channel rc.cancellations;
  },
  rc.next_channel,
)

-- The channel is closed, which is harmless when it already is, and its request leaves the map.
abbrev pub close_channel : String → ℕ → RequestCanceller → RequestCanceller
close_channel request_id c rc = record rc {
  closed = c ∷ rc.closed;
  cancellations = erase request_id rc.cancellations;
}

unfoldable pub cancel : String → RequestCanceller → RequestCanceller × Bool
cancel request_id rc = elim (lookup request_id rc.cancellations) [
  | none ↦ (rc, false)
  | some c ↦ (close_channel request_id c rc, true)
]

unfoldable pub deregister : String → RequestCanceller → RequestCanceller
deregister request_id rc = elim (lookup request_id rc.cancellations) [
  | none ↦ rc
  | some c ↦ close_channel request_id c rc
]

unfoldable pub is_cancelled : String → RequestCanceller → Bool
is_cancelled request_id rc = elim (lookup request_id rc.cancellations) [
  | none ↦ true
  | some c ↦ is_closed c rc
]

-- `HandleCancelledNotification`, on a message that parses; `false` is the error.
unfoldable pub handle_cancelled_notification : String → RequestCanceller → RequestCanceller × Bool
handle_cancelled_notification request_id rc =
    if request_id == "" then (rc, false) else ((cancel request_id rc).0, true)
