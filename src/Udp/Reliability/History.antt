-- ===== src/Udp/Reliability/History.antt =====
-- The manager under any interleaving of its callers and its two workers: each operation holds the
-- manager's locks, so a history is a sequence of whole operations.
use gomcp.Prelude.{
  ℕ, sym, subst, Bool-cases, if◌then◌else◌, ◌*◌, ◌≤◌, ◌<◌, ◌^◌, ◌≡◌, Bool, String, some, List,
  arith, lookup, lookup-All, nat_key, false, inl, inr, true,
}
use gomcp.Udp.Header.{PacketHeader}
use gomcp.Udp.Reliability.{
  ReliabilityLevel, ReliabilityManager, PendingMessage, new_reliability_manager, track_message,
  handle_ack, retransmit_message, check_timeouts, retransmit_worker, start, stop, millisecond,
}
use gomcp.Udp.Reliability.Invariant.{
  IsValid, IsPending, new-IsValid, track-IsValid, handle_ack-IsValid, retransmit-IsValid,
  check-IsValid, worker-IsValid,
}

pub data Step (rm : ReliabilityManager) : ReliabilityManager → Type 0 where
  tracks :
      (now id : ℕ) (content : List ℕ) (fragments : List (List ℕ))
      → Step rm (track_message rm now id content fragments)
  acks : (now : ℕ) (h : PacketHeader) (addr : String) → Step rm (handle_ack rm now h addr)
  retransmits : (connected : Bool) (now id : ℕ) → Step rm (retransmit_message rm connected now id).0
  checks : (now : ℕ) → Step rm (check_timeouts rm now)
  works : (connected : Bool) (now : ℕ) → Step rm (retransmit_worker rm connected now).0
  starts : Step rm (start rm)
  stops : (rm' : ReliabilityManager) → stop rm ≡ some rm' → Step rm rm'

pub data Reach (rm : ReliabilityManager) : ReliabilityManager → Type 0 where
  here : Reach rm rm
  next : {rm' rm'' : ReliabilityManager} → Reach rm rm' → Step rm' rm'' → Reach rm rm''

-- Neither operation touches what the invariant speaks of.
with_worker_flags :
    (rm : ReliabilityManager) (running done : Bool)
    → IsValid rm
    → IsValid (record rm { running = running; done = done })
with_worker_flags rm running done v = record {
  distinct = v.distinct;
  pending = v.pending;
  intervals = v.intervals;
  limit = v.limit;
  channel = v.channel;
  window = v.window;
}

start-IsValid : (rm : ReliabilityManager) → IsValid rm → IsValid (start rm)
unfolding start
start-IsValid rm v = elim (Bool-cases rm.running) [
  | inl on ↦ subst (λ b. IsValid (if b then rm else record rm { running = true })) (sym on) v
  | inr off ↦
      subst (λ b. IsValid (if b then rm else record rm { running = true })) (sym off)
        (with_worker_flags rm true rm.done v)
]

stop-IsValid : (rm rm' : ReliabilityManager) → stop rm ≡ some rm' → IsValid rm → IsValid rm'
unfolding stop
stop-IsValid rm rm' e v = ground (arith, with_worker_flags rm false true v)

Step-IsValid : {rm rm' : ReliabilityManager} → Step rm rm' → IsValid rm → IsValid rm'
Step-IsValid {rm} (tracks now id content fragments) v = track-IsValid rm now id content fragments v
Step-IsValid {rm} (acks now h addr) v = handle_ack-IsValid rm now h addr v
Step-IsValid {rm} (retransmits connected now id) v = retransmit-IsValid rm connected now id v
Step-IsValid {rm} (checks now) v = check-IsValid rm now v
Step-IsValid {rm} (works connected now) v = worker-IsValid rm connected now v
Step-IsValid {rm} starts v = start-IsValid rm v
Step-IsValid {rm} (stops rm' e) v = stop-IsValid rm rm' e v

Reach-IsValid : {rm rm' : ReliabilityManager} → IsValid rm → Reach rm rm' → IsValid rm'
Reach-IsValid v here = v
Reach-IsValid v (next r st) = Step-IsValid st (Reach-IsValid v r)

-- From a new manager, any sequence of its operations leaves at most 100 ids in the retransmission
-- channel, at most `max_rtts` round-trip times in the window, and every pending message under its
-- own id, unacknowledged, with at most `retry_limit` attempts counted, and with a retry interval
-- of at most ten seconds.
pub reachable-IsValid :
    (level : ReliabilityLevel) {rm : ReliabilityManager}
    → Reach (new_reliability_manager level) rm
    → IsValid rm × (rm.max_retry_interval ≤ 10_000 * millisecond)
reachable-IsValid level r = let v = Reach-IsValid (new-IsValid level) r in (v, v.limit)

-- So the doubling of an interval never overflows an int64, whatever message is pending.
pub reachable_no_overflow :
    (level : ReliabilityLevel) {rm : ReliabilityManager} (id : ℕ) (pm : PendingMessage)
    → Reach (new_reliability_manager level) rm
    → lookup id rm.pending_messages ≡ some pm
    → pm.retry_interval * 2 < 2 ^ 63
reachable_no_overflow level {rm} id pm r e =
    let v = Reach-IsValid (new-IsValid level) r in
    let p = lookup-All (IsPending rm.max_retry_interval) id pm rm.pending_messages v.pending e in
    omega (arith, v.limit, p.interval)
