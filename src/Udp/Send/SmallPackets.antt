-- ===== src/Udp/Send/SmallPackets.antt =====
-- `Send` with a packet size that leaves no room behind the header. `WithMaxPacketSize` accepts it.
use native.Mathlib.Nat.{div-eq_of_lt}
use gomcp.Prelude.{
  ℕ, zero, suc, ◌+◌, ◌-◌, ◌/◌, ◌≤◌, ◌<◌, ◌≡◌, refl, true, some, inl, inr, List, ltb, lt→ltb, arith,
  length, pos, negsuc, ℤ, to_nat, Option, Bool-cases,
}
use gomcp.Udp.Header.{header_size}
use gomcp.Udp.Transport.{Transport, done, generate_message_id}
use gomcp.Udp.Send.{
  Network, max_payload_size, fragment_count, send_fragments, send_fragmented_message, send,
}
use gomcp.Udp.Send.Outcomes.{Delivers, track_sent-Delivers, next_id}

-- With a negative room there is no fragment to send, unless the message has a byte at most.
fragment_count-negative :
    (len k : ℕ)
    → 2 ≤ len
    → (total : ℤ) × (fragment_count len (negsuc k) ≡ some total) × (to_nat total ≡ 0)
unfolding fragment_count
fragment_count-negative len k h = elim (Bool-cases (ltb len (k + 2))) [
  | inl short ↦ (pos ((k + 2 - len) / suc k), rw short, div_small (k + 2 - len) k (ground arith))
  | inr long ↦ rw long (negative ((len - (k + 2)) / suc k))
]
  where
    div_small : (a b : ℕ) → a < suc b → a / suc b ≡ 0
    div_small a b g = div-eq_of_lt g

    negative :
        (q : ℕ)
        → (total : ℤ) × ((let r : Option ℤ = elim q [
          | zero ↦ some (pos 0)
          | suc q' ↦ some (negsuc q')
        ] in
              r)
            ≡ some total)
          × (to_nat total ≡ 0)
    negative zero = (pos 0, refl, refl)
    negative (suc q) = (negsuc q, refl, refl)

max_payload_size-negative :
    (size : ℕ) → size < header_size → max_payload_size size ≡ negsuc (header_size - size - 1)
max_payload_size-negative size h = rw (lt→ltb size 15 h)

send_fragmented-nothing :
    (net : Network) (id : ℕ) (message : List ℕ) (k : ℕ) (t : Transport)
    → 2 ≤ length message
    → send_fragmented_message net id message (negsuc k) t ≡ (t, done)
unfolding send_fragmented_message send_fragments
send_fragmented-nothing net id message k t h =
    let (total, e, z) = fragment_count-negative (length message) k h in
    rw (e, send_fragmented_message) (rw z)

-- With a packet size below the header's 15 bytes, `Send` of a message of two bytes or more on a
-- connected transport reports success and hands nothing over.
pub send_loses_silently :
    (net : Network) (now : ℕ) (message : List ℕ) (t : Transport)
    → t.connected ≡ true
    → t.max_packet_size < header_size
    → 2 ≤ length message
    → Delivers t.wire (send net now message t)
unfolding send generate_message_id
send_loses_silently net now message t c small h =
    rw (c, max_payload_size-negative t.max_packet_size small)
      (rw
        (send_fragmented-nothing net (next_id t) message (header_size - t.max_packet_size - 1) _ h)
        (track_sent-Delivers now (next_id t) message _ _ refl))
