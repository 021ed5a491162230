-- ===== src/Udp/Reliability/Invariant.antt =====
-- What holds of the manager after any operations, in any order, at any times.
use gomcp.Prelude.{
  ℕ, ◌-◌, ◌*◌, ◌≤◌, ◌<◌, ◌≡◌, refl, Bool, true, false, String, some, inl, inr, List, [], ◌∷◌, ◌++◌,
  ltb, leb, arith, length, length-append, length-drop, Bool-cases, ltb→lt, ltb→le, Option-cases,
  All, Dict, HasDistinctKeys, lookup, insert-HasDistinctKeys, erase-HasDistinctKeys, insert-All,
  erase-All, lookup-All, nat_key,
}
use gomcp.Udp.Header.{PacketHeader}
use gomcp.Udp.Reliability.{
  ReliabilityLevel, ReliabilityManager, ReliabilityMetrics, PendingMessage, AckType, ack_single,
  ack_cumulative, ack_type, new_reliability_manager, track_message, tracked, handle_ack,
  acknowledge, drop_earlier, drop_acked, update_rtt_metrics, retransmit_message, attempted, give_up,
  resend, next_interval, check_timeouts, retransmit_capacity, retransmit_worker, worker_round,
  is_none, millisecond, retransmit_fixed, retransmit_exponential, RetransmitStrategy,
}
use gomcp.Udp.Reliability.Acks.{lookup-drop_acked}
use gomcp.Udp.Reliability.Retries.{retransmit-absent, retransmit-resends, retransmit-gives_up}
use gomcp.Udp.Reliability.Timeouts.{length-queue_due}

-- A pending message under its id: not acknowledged, its attempts within its limit and its interval
-- within the manager's maximum.
pub record IsPending (limit : ℕ) (e : ℕ × PendingMessage) : Type 0 where
  pub keyed : e.1.message_id ≡ e.0
  pub waiting : e.1.acknowledged ≡ false
  pub attempts : e.1.retry_count ≤ e.1.retry_limit
  pub bounded : e.1.max_interval ≡ limit
  pub interval : e.1.retry_interval ≤ limit

pub record IsValid (rm : ReliabilityManager) : Type 0 where
  pub distinct : HasDistinctKeys rm.pending_messages
  pub pending : All (IsPending rm.max_retry_interval) rm.pending_messages
  pub intervals : rm.initial_retry_interval ≤ rm.max_retry_interval
  pub limit : rm.max_retry_interval ≤ 10_000 * millisecond
  pub channel : length rm.retransmit_ch ≤ retransmit_capacity
  pub window : length rm.metrics.rtts ≤ rm.metrics.max_rtts

pub new-IsValid : (level : ReliabilityLevel) → IsValid (new_reliability_manager level)
unfolding new_reliability_manager
new-IsValid level = record {
  distinct = tt;
  pending = tt;
  intervals = omega arith;
  limit = omega arith;
  channel = omega arith;
  window = omega arith;
}

pub track-IsValid :
    (rm : ReliabilityManager) (now id : ℕ) (content : List ℕ) (fragments : List (List ℕ))
    → IsValid rm
    → IsValid (track_message rm now id content fragments)
unfolding track_message
track-IsValid rm now id content fragments v = elim (Bool-cases (is_none rm.level)) [
  | inl off ↦ rw off v
  | inr on ↦ rw on (record {
    distinct = insert-HasDistinctKeys id _ rm.pending_messages v.distinct;
    pending =
        insert-All (IsPending rm.max_retry_interval) id (tracked rm now id content fragments)
          rm.pending_messages
          (record {
            keyed = refl;
            waiting = refl;
            attempts = omega arith;
            bounded = refl;
            interval = v.intervals;
          })
          v.pending;
    intervals = v.intervals;
    limit = v.limit;
    channel = v.channel;
    window = v.window;
  })
]

drop_acked-HasDistinctKeys :
    (n : ℕ) (pending : Dict ℕ PendingMessage)
    → HasDistinctKeys pending
    → HasDistinctKeys (drop_acked n pending)
unfolding drop_acked
drop_acked-HasDistinctKeys n [] d = d
drop_acked-HasDistinctKeys n ((id, pm) ∷ pending) (fresh, d) =
    ground (arith, lookup-drop_acked n id pending, drop_acked-HasDistinctKeys n pending d)

drop_acked-All {ℓ} :
    (P : ℕ × PendingMessage → Type ℓ) (n : ℕ) (pending : Dict ℕ PendingMessage)
    → All P pending
    → All P (drop_acked n pending)
unfolding drop_acked
drop_acked-All P n [] all = tt
drop_acked-All P n ((id, pm) ∷ pending) (p, all) = elim (Bool-cases (leb id n)) [
  | inl old ↦ rw old (drop_acked-All P n pending all)
  | inr new ↦ rw new (p, drop_acked-All P n pending all)
]

update_rtt-window :
    (rtt : ℕ) (m : ReliabilityMetrics)
    → length m.rtts ≤ m.max_rtts
    → (length (update_rtt_metrics rtt m).rtts ≤ (update_rtt_metrics rtt m).max_rtts)
unfolding update_rtt_metrics
update_rtt-window rtt m h =
    ground (arith, length-append m.rtts (rtt ∷ []), length-drop 1 (m.rtts ++ (rtt ∷ [])))

acknowledge-IsValid :
    (now n : ℕ) (rm : ReliabilityManager) → IsValid rm → IsValid (acknowledge now n rm)
unfolding acknowledge
acknowledge-IsValid now n rm v = elim (Option-cases (lookup n rm.pending_messages)) [
  | inl e ↦ rw (e, acknowledge) v
  | inr (pm, e) ↦
      rw (e, acknowledge)
        (record {
          distinct = erase-HasDistinctKeys n rm.pending_messages v.distinct;
          pending = erase-All (IsPending rm.max_retry_interval) n rm.pending_messages v.pending;
          intervals = v.intervals;
          limit = v.limit;
          channel = v.channel;
          window = update_rtt-window (now - pm.first_sent_time) rm.metrics v.window;
        })
]

drop_earlier-IsValid :
    (k : AckType) (n : ℕ) (rm : ReliabilityManager) → IsValid rm → IsValid (drop_earlier k n rm)
drop_earlier-IsValid ack_single n rm v = v
drop_earlier-IsValid ack_cumulative n rm v = record {
  distinct = drop_acked-HasDistinctKeys n rm.pending_messages v.distinct;
  pending = drop_acked-All (IsPending rm.max_retry_interval) n rm.pending_messages v.pending;
  intervals = v.intervals;
  limit = v.limit;
  channel = v.channel;
  window = v.window;
}

pub handle_ack-IsValid :
    (rm : ReliabilityManager) (now : ℕ) (h : PacketHeader) (addr : String)
    → IsValid rm
    → IsValid (handle_ack rm now h addr)
unfolding handle_ack
handle_ack-IsValid rm now h addr v = elim (Bool-cases (is_none rm.level)) [
  | inl off ↦ rw off v
  | inr on ↦ rw on (
      drop_earlier-IsValid (ack_type h) h.message_id _ (
        acknowledge-IsValid now h.message_id _ (record {
          distinct = v.distinct;
          pending = v.pending;
          intervals = v.intervals;
          limit = v.limit;
          channel = v.channel;
          window = v.window;
        })))
]

next_interval-le :
    (s : RetransmitStrategy) (pm : PendingMessage) (limit : ℕ)
    → pm.strategy ≡ s
    → pm.max_interval ≡ limit
    → pm.retry_interval ≤ limit
    → next_interval pm ≤ limit
next_interval-le retransmit_fixed pm limit e m h = rw e h
next_interval-le retransmit_exponential pm limit e m h = rw e (omega arith)

give_up-IsValid : (id : ℕ) (rm : ReliabilityManager) → IsValid rm → IsValid (give_up id rm)
give_up-IsValid id rm v = record {
  distinct = erase-HasDistinctKeys id rm.pending_messages v.distinct;
  pending = erase-All (IsPending rm.max_retry_interval) id rm.pending_messages v.pending;
  intervals = v.intervals;
  limit = v.limit;
  channel = v.channel;
  window = v.window;
}

resend-IsValid :
    (connected : Bool) (now id : ℕ) (pm : PendingMessage) (rm : ReliabilityManager)
    → IsPending rm.max_retry_interval (id, pm)
    → pm.retry_count < pm.retry_limit
    → IsValid rm
    → IsValid (resend connected id (attempted now pm) rm).0
resend-IsValid connected now id pm rm p h v = record {
  distinct = insert-HasDistinctKeys id (attempted now pm) rm.pending_messages v.distinct;
  pending = insert-All (IsPending limit) id (attempted now pm) rm.pending_messages again v.pending;
  intervals = v.intervals;
  limit = v.limit;
  channel = v.channel;
  window = v.window;
}
  where
    limit : ℕ
    limit = rm.max_retry_interval

    again : IsPending limit (id, attempted now pm)
    again = record {
      keyed = p.keyed;
      waiting = p.waiting;
      attempts = omega arith;
      bounded = p.bounded;
      interval = next_interval-le pm.strategy pm limit refl p.bounded p.interval;
    }

pub retransmit-IsValid :
    (rm : ReliabilityManager) (connected : Bool) (now id : ℕ)
    → IsValid rm
    → IsValid (retransmit_message rm connected now id).0
retransmit-IsValid rm connected now id v = elim (Option-cases (lookup id rm.pending_messages)) [
  | inl e ↦ rw (retransmit-absent rm connected now id e) v
  | inr (pm, e) ↦ found pm e (lookup-All (IsPending rm.max_retry_interval) id pm _ v.pending e)
]
  where
    found :
        (pm : PendingMessage)
        → lookup id rm.pending_messages ≡ some pm
        → IsPending rm.max_retry_interval (id, pm)
        → IsValid (retransmit_message rm connected now id).0
    found pm e p = elim (Bool-cases (ltb pm.retry_count pm.retry_limit)) [
      | inl h ↦
          rw (retransmit-resends rm connected now id pm e p.waiting (ltb→lt _ _ h))
            (resend-IsValid connected now id pm rm p (ltb→lt _ _ h) v)
      | inr h ↦
          rw (retransmit-gives_up rm connected now id pm e p.waiting (ltb→le _ _ h))
            (give_up-IsValid id rm v)
    ]

with_channel-IsValid :
    (rm : ReliabilityManager) (ch : List ℕ)
    → length ch ≤ retransmit_capacity
    → IsValid rm
    → IsValid (record rm { retransmit_ch = ch })
with_channel-IsValid rm ch h v = record {
  distinct = v.distinct;
  pending = v.pending;
  intervals = v.intervals;
  limit = v.limit;
  channel = h;
  window = v.window;
}

pub check-IsValid :
    (rm : ReliabilityManager) (now : ℕ) → IsValid rm → IsValid (check_timeouts rm now)
unfolding check_timeouts
check-IsValid rm now v =
    with_channel-IsValid rm _ (length-queue_due now rm.pending_messages rm.retransmit_ch v.channel)
      v

worker_round-IsValid :
    (done : Bool) (ch : List ℕ) (rm : ReliabilityManager) (connected : Bool) (now : ℕ)
    → length ch ≤ retransmit_capacity
    → IsValid rm
    → IsValid (worker_round done ch rm connected now).0
unfolding worker_round
worker_round-IsValid true ch rm connected now h v = v
worker_round-IsValid false [] rm connected now h v = v
worker_round-IsValid false (id ∷ ids) rm connected now h v =
    retransmit-IsValid _ connected now id (with_channel-IsValid rm ids (omega arith) v)

pub worker-IsValid :
    (rm : ReliabilityManager) (connected : Bool) (now : ℕ)
    → IsValid rm
    → IsValid (retransmit_worker rm connected now).0
unfolding retransmit_worker
worker-IsValid rm connected now v =
    worker_round-IsValid rm.done rm.retransmit_ch rm connected now v.channel v
