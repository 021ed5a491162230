-- ===== src/Udp/Reliability/Retries.antt =====
-- How often and how late an unacknowledged message is sent again (`retransmitMessage`).
use native.Mathlib.Nat.{pow-suc}
use gomcp.Prelude.{
  ℕ, zero, suc, ◌+◌, ◌*◌, ◌^◌, ◌≤◌, ◌<◌, min, ◌≡◌, refl, ap, ◌∙◌, Bool, true, false, none, some,
  List, [], ◌∷◌, ◌++◌, lt→ltb, le→ltb, arith, length, lookup, insert, lookup-insert_self,
  lookup-erase_self, nat_key,
}
use gomcp.Udp.Reliability.{
  ReliabilityManager, PendingMessage, retransmit_exponential, retransmit_message, retransmit_packet,
  retransmit_packets, attempted, give_up, resend, next_interval, is_none, track_message, tracked,
}

-- The manager's answers to one retransmission request.
pub retransmit-resends :
    (rm : ReliabilityManager) (connected : Bool) (now id : ℕ) (pm : PendingMessage)
    → lookup id rm.pending_messages ≡ some pm
    → pm.acknowledged ≡ false
    → pm.retry_count < pm.retry_limit
    → retransmit_message rm connected now id ≡ resend connected id (attempted now pm) rm
unfolding retransmit_message
retransmit-resends rm connected now id pm e a h =
    rw (e, retransmit_message)
      (rw a (rw (le→ltb pm.retry_limit (pm.retry_count + 1) (omega arith))))

pub retransmit-gives_up :
    (rm : ReliabilityManager) (connected : Bool) (now id : ℕ) (pm : PendingMessage)
    → lookup id rm.pending_messages ≡ some pm
    → pm.acknowledged ≡ false
    → pm.retry_limit ≤ pm.retry_count
    → retransmit_message rm connected now id ≡ (give_up id rm, [])
unfolding retransmit_message
retransmit-gives_up rm connected now id pm e a h =
    rw (e, retransmit_message)
      (rw a (rw (lt→ltb pm.retry_limit (pm.retry_count + 1) (omega arith))))

pub retransmit-absent :
    (rm : ReliabilityManager) (connected : Bool) (now id : ℕ)
    → lookup id rm.pending_messages ≡ none
    → retransmit_message rm connected now id ≡ (rm, [])
unfolding retransmit_message
retransmit-absent rm connected now id e = rw (e, retransmit_message)

-- Requests to resend one message, at the times of the list; the packets in the order of sending.
abbrev pub retransmit_at :
    ReliabilityManager → Bool → ℕ → List ℕ → ReliabilityManager × List (List ℕ)
retransmit_at rm connected id [] = (rm, [])
retransmit_at rm connected id (t ∷ ts) =
    let (rm', packets) = retransmit_message rm connected t id in
    let (rm'', later) = retransmit_at rm' connected id ts in (rm'', packets ++ later)

abbrev repeated {ℓ} : {A : Type ℓ} → ℕ → List A → List A
repeated zero xs = []
repeated (suc n) xs = xs ++ repeated n xs

-- What has happened when a message is finally given up.
pub record Exhausted (rm : ReliabilityManager) (id resent : ℕ) (packets : List (List ℕ))
    (out : ReliabilityManager × List (List ℕ)) : Type 0 where
  pub gone : lookup id out.0.pending_messages ≡ none
  pub failed : out.0.metrics.messages_failed ≡ rm.metrics.messages_failed + 1
  pub counted : out.0.metrics.packets_retransmitted ≡ rm.metrics.packets_retransmitted + resent
  pub sent : out.1 ≡ repeated resent packets

retransmit_from-Exhausted :
    (left : ℕ) (rm : ReliabilityManager) (id t : ℕ) (ts : List ℕ) (pm : PendingMessage)
    → lookup id rm.pending_messages ≡ some pm
    → pm.acknowledged ≡ false
    → pm.retry_count + left ≡ pm.retry_limit
    → length ts ≡ left
    → Exhausted rm id left (retransmit_packets pm) (retransmit_at rm true id (t ∷ ts))
unfolding retransmit_packet
retransmit_from-Exhausted zero rm id t [] pm e a c n =
    rw (retransmit-gives_up rm true t id pm e a (omega arith)) (record {
      gone = lookup-erase_self id rm.pending_messages;
      failed = refl;
      counted = omega arith;
      sent = refl;
    })
retransmit_from-Exhausted zero rm id t (u ∷ ts) pm e a c n = absurd (omega arith)
retransmit_from-Exhausted (suc left) rm id t [] pm e a c n = absurd (omega arith)
retransmit_from-Exhausted (suc left) rm id t (u ∷ ts) pm e a c n =
    rw (retransmit-resends rm true t id pm e a (omega arith)) (
      let again = resend true id (attempted t pm) rm in
      let rest =
        retransmit_from-Exhausted left again.0 id u ts (attempted t pm)
          (lookup-insert_self id (attempted t pm) rm.pending_messages) a (omega arith)
          (omega arith) in
      record {
        gone = rest.gone;
        failed = rest.failed;
        counted = omega (arith, rest.counted);
        sent = ap (◌++◌ (retransmit_packets pm)) rest.sent;
      })

pub lookup-track :
    (rm : ReliabilityManager) (now id : ℕ) (content : List ℕ) (fragments : List (List ℕ))
    → is_none rm.level ≡ false
    → track_message rm now id content fragments ≡ record rm {
      pending_messages = insert id (tracked rm now id content fragments) rm.pending_messages;
    }
unfolding track_message
lookup-track rm now id content fragments on = rw on

-- With reliability on, a message that is tracked and then due `retry_limit + 1` times with no
-- acknowledgment is sent again exactly `retry_limit` times, each time as the same packets; then it
-- leaves the pending messages and is counted as one failed message.
pub retransmit_exhausts :
    (rm : ReliabilityManager) (now id t : ℕ) (ts : List ℕ) (content : List ℕ)
    (fragments : List (List ℕ))
    → is_none rm.level ≡ false
    → length ts ≡ rm.retry_limit
    → let rm' = track_message rm now id content fragments in
      Exhausted rm' id rm.retry_limit
        (retransmit_packets (tracked rm now id content fragments))
        (retransmit_at rm' true id (t ∷ ts))
retransmit_exhausts rm now id t ts content fragments on n =
    rw (lookup-track rm now id content fragments on) (
      retransmit_from-Exhausted rm.retry_limit _ id t ts (tracked rm now id content fragments)
        (lookup-insert_self id _ rm.pending_messages) refl (omega arith) n)

-- The delay of exponential backoff after `k` attempts.
abbrev pub backoff : ℕ → ℕ → ℕ → ℕ
backoff initial limit k = min (initial * 2 ^ k) limit

double_min : (a limit : ℕ) → min (min a limit * 2) limit ≡ min (a * 2) limit
double_min a limit = omega arith

backoff-suc :
    (initial limit k : ℕ) → min (backoff initial limit k * 2) limit ≡ backoff initial limit (suc k)
backoff-suc initial limit k =
    double_min (initial * 2 ^ k) limit
    ∙ ap (λ (t : ℕ). min t limit) (omega (arith, ap (λ (t : ℕ). initial * t) (pow-suc 2 k)))

-- The message after attempts at the times of the list.
abbrev pub attempts : List ℕ → PendingMessage → PendingMessage
attempts [] pm = pm
attempts (t ∷ ts) pm = attempts ts (attempted t pm)

next_interval-exponential :
    (pm : PendingMessage)
    → pm.strategy ≡ retransmit_exponential
    → next_interval pm ≡ min (pm.retry_interval * 2) pm.max_interval
next_interval-exponential pm e = rw e

interval-attempts :
    (ts : List ℕ) (pm : PendingMessage) (k initial limit : ℕ)
    → pm.strategy ≡ retransmit_exponential
    → pm.max_interval ≡ limit
    → pm.retry_interval ≡ backoff initial limit k
    → (attempts ts pm).retry_interval ≡ backoff initial limit (k + length ts)
interval-attempts [] pm k initial limit s m e =
    e ∙ ap (backoff initial limit) (let p : k ≡ k + 0 = omega arith in p)
interval-attempts (t ∷ ts) pm k initial limit s m e =
    interval-attempts ts (attempted t pm) (suc k) initial limit s m
      (next_interval-exponential pm s ∙ rw (e, m) (backoff-suc initial limit k))
    ∙ ap (backoff initial limit)
        (let p : suc k + length ts ≡ k + suc (length ts) = omega arith in p)

scheduled-attempts :
    (ts : List ℕ) (pm : PendingMessage)
    → pm.next_retry_time ≡ pm.last_sent_time + pm.retry_interval
    → (attempts ts pm).next_retry_time
      ≡ (attempts ts pm).last_sent_time + (attempts ts pm).retry_interval
scheduled-attempts [] pm e = e
scheduled-attempts (t ∷ ts) pm e = scheduled-attempts ts (attempted t pm) refl

lookup-attempts :
    (ts : List ℕ) (rm : ReliabilityManager) (id : ℕ) (pm : PendingMessage)
    → lookup id rm.pending_messages ≡ some pm
    → pm.acknowledged ≡ false
    → pm.retry_count + length ts ≤ pm.retry_limit
    → lookup id (retransmit_at rm true id ts).0.pending_messages ≡ some (attempts ts pm)
lookup-attempts [] rm id pm e a h = e
lookup-attempts (t ∷ ts) rm id pm e a h =
    rw (retransmit-resends rm true t id pm e a (omega arith)) (
      lookup-attempts ts (resend true id (attempted t pm) rm).0 id (attempted t pm)
        (lookup-insert_self id (attempted t pm) rm.pending_messages) a (omega arith))

-- With reliability on, exponential backoff and an initial interval within the maximum, a tracked
-- message that is sent again `k` times, `k` at most the retry limit, is still pending; it then waits
-- from its last sending for the initial interval doubled `k` times, cut off at the maximum.
pub retransmit_backoff :
    (rm : ReliabilityManager) (now id : ℕ) (ts : List ℕ) (content : List ℕ)
    (fragments : List (List ℕ))
    → is_none rm.level ≡ false
    → rm.retry_strategy ≡ retransmit_exponential
    → rm.initial_retry_interval ≤ rm.max_retry_interval
    → length ts ≤ rm.retry_limit
    → let rm' = track_message rm now id content fragments in
      (pm : PendingMessage) × (lookup id (retransmit_at rm' true id ts).0.pending_messages
        ≡ some pm)
      × (pm.next_retry_time
          ≡ pm.last_sent_time
            + min (rm.initial_retry_interval * 2 ^ length ts) rm.max_retry_interval)
retransmit_backoff rm now id ts content fragments on s small n = (
  attempts ts fresh,
  rw (lookup-track rm now id content fragments on) (
      lookup-attempts ts _ id fresh (lookup-insert_self id fresh rm.pending_messages) refl
        (omega arith)),
  scheduled-attempts ts fresh refl
      ∙ ap (λ (t : ℕ). (attempts ts fresh).last_sent_time + t)
          (interval-attempts ts fresh 0 rm.initial_retry_interval rm.max_retry_interval s refl (
              let e : rm.initial_retry_interval
                  ≡ min (rm.initial_retry_interval * 1) rm.max_retry_interval =
                omega arith in
              e)
            ∙ ap (backoff rm.initial_retry_interval rm.max_retry_interval)
                (let p : 0 + length ts ≡ length ts = omega arith in p)),
)
  where
    fresh : PendingMessage
    fresh = tracked rm now id content fragments
