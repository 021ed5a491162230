-- ===== src/Serving/Tracker.antt =====
-- The requests that the server sent and that wait for a response: requestTracker
-- (server/sampling.go). A channel is a number, and `buffered` holds what a channel of capacity one
-- holds. A timer is the time at which it fires. `R` stands for a raw message. Ids
-- are natural numbers, as those that the server makes; it tracks no others.
use gomcp.Prelude.{
  ℕ, ◌+◌, zero, suc, Bool, true, false, Option, none, some, [], Dict, lookup, insert, erase,
  nat_key, ℤ, pos, negsuc,
}

abbrev pub incremented : ℤ → ℤ
incremented (pos n) = pos (suc n)
incremented (negsuc zero) = pos 0
incremented (negsuc (suc n)) = negsuc n

abbrev pub decremented : ℤ → ℤ
decremented (pos zero) = negsuc 0
decremented (pos (suc n)) = pos n
decremented (negsuc n) = negsuc (suc n)

module _ {ℓ} (R : Type ℓ) where
  pub record RequestTracker : Type ℓ where
    pub requests : Dict ℕ ℕ
    pub timeouts : Dict ℕ ℕ
    pub pending_count : ℤ
    pub next_channel : ℕ
    pub buffered : Dict ℕ R

module _ {ℓ} {R : Type ℓ} where
  abbrev pub new_request_tracker : RequestTracker R
  new_request_tracker = record {
    requests = [];
    timeouts = [];
    pending_count = pos 0;
    next_channel = 0;
    buffered = [];
  }

  -- The tracker, and the new channel.
  unfoldable pub add_request : ℕ → RequestTracker R → RequestTracker R × ℕ
  add_request id rt = (
    record rt {
      requests = insert id rt.next_channel rt.requests;
      pending_count = incremented rt.pending_count;
      next_channel = rt.next_channel + 1;
    },
    rt.next_channel,
  )

  -- A timer that is stopped leaves the map.
  unfoldable pub stop_timer : ℕ → RequestTracker R → RequestTracker R
  stop_timer id rt = record rt { timeouts = erase id rt.timeouts }

  -- A send that does not block: a full channel keeps what it holds.
  unfoldable pub offer_response : ℕ → R → Dict ℕ R → Dict ℕ R
  offer_response c response buffered = elim (lookup c buffered) [
    | none ↦ insert c response buffered
    | some held ↦ buffered
  ]

  abbrev pub forget : ℕ → RequestTracker R → RequestTracker R
  forget id rt = record rt {
    requests = erase id rt.requests;
    pending_count = decremented rt.pending_count;
  }

  abbrev pub answer_on : ℕ → R → RequestTracker R → RequestTracker R
  answer_on c response rt = record rt { buffered = offer_response c response rt.buffered }

  abbrev resolve_found : ℕ → R → RequestTracker R → Option ℕ → RequestTracker R × Bool
  resolve_found id response rt none = (rt, false)
  resolve_found id response rt (some c) =
      (forget id (answer_on c response (stop_timer id rt)), true)

  unfoldable pub resolve_request : ℕ → R → RequestTracker R → RequestTracker R × Bool
  resolve_request id response rt = resolve_found id response rt (lookup id rt.requests)

  unfoldable pub remove_request : ℕ → RequestTracker R → RequestTracker R
  remove_request id rt = forget id (stop_timer id rt)

  unfoldable pub setup_timeout : ℕ → ℕ → RequestTracker R → RequestTracker R
  setup_timeout id fires_at rt = record rt { timeouts = insert id fires_at rt.timeouts }

  unfoldable pub get_pending_count : RequestTracker R → ℤ
  get_pending_count rt = rt.pending_count
