-- ===== src/Udp/Lifecycle/Restart.antt =====
-- Which orders of `Initialize`, `Start` and `Stop` work.
use gomcp.Prelude.{◌*◌, true, false, some, ◌≡◌, refl, arith}
use gomcp.Udp.Reliability.{
  ReliabilityManager, new_reliability_manager, millisecond, retransmit_exponential,
}
use gomcp.Udp.Transport.{Transport}
use gomcp.Udp.Lifecycle.{
  Socket, returned, failed_with, hangs, panics, initialize, begin, start, stop, not_closed,
}

-- `Start` on a transport with no connection never returns: it waits in `Initialize` for the lock
-- that it holds itself.
pub start_hangs :
    (os : Socket) (t : Transport)
    → t.running ≡ false
    → t.connected ≡ false
    → start os t ≡ (t, hangs)
unfolding start initialize begin
start_hangs os t r c = ground arith

stop-returned :
    (os : Socket) (t t' : Transport)
    → t.running ≡ true
    → stop os t ≡ (t', returned)
    → (t'.running ≡ false) × (t'.connected ≡ false)
unfolding stop
stop-returned os t t' r e = ground arith

-- A transport that was running and has been stopped without error cannot be started again: the
-- next `Start` hangs, whatever the network answers.
pub stop-start_hangs :
    (os os' : Socket) (t t' : Transport)
    → t.running ≡ true
    → stop os t ≡ (t', returned)
    → start os' t' ≡ (t', hangs)
stop-start_hangs os os' t t' r e =
    let idle = stop-returned os t t' r e in start_hangs os' t' idle.0 idle.1

-- A running transport whose connection fails to close stays running with its done channel closed,
-- so that the next `Stop` panics.
pub stop_twice_panics :
    (os os' : Socket) (t t' : Transport)
    → t.running ≡ true
    → stop os t ≡ (t', failed_with not_closed)
    → stop os' t' ≡ (t', panics)
unfolding stop
stop_twice_panics os os' t t' r e = ground arith

-- With reliability enabled a successful `Initialize` of an idle transport leaves a manager whose
-- retry limit is 5, whose intervals are half a second and ten seconds and whose strategy is
-- exponential, whatever the settings of the transport.
pub initialize_ignores_settings :
    (os : Socket) (t t' : Transport)
    → t.running ≡ false
    → t.reliability_enabled ≡ true
    → initialize os false t ≡ (t', returned)
    → (rm : ReliabilityManager) × (t'.reliability_manager ≡ some rm)
      × (rm.retry_limit ≡ 5)
      × (rm.initial_retry_interval ≡ 500 * millisecond)
      × (rm.max_retry_interval ≡ 10_000 * millisecond)
      × (rm.retry_strategy ≡ retransmit_exponential)
unfolding initialize new_reliability_manager
initialize_ignores_settings os t t' r on e =
    (new_reliability_manager t.reliability_level, ground arith, refl, refl, refl, refl)
