-- ===== src/Udp/Reliability/Acks.antt =====
-- What an acknowledgment does to the pending messages (`HandleAck`).
use gomcp.Prelude.{
  ℕ, ◌≡◌, refl, Bool, false, String, none, some, insert, ◌==◌, ◌||◌, lookup-insert, string_key, [],
  ◌∷◌, leb, eqb, if◌then◌else◌, arith, Dict, lookup, lookup-erase, nat_key, Option-cases,
}
use gomcp.Udp.Header.{PacketHeader}
use gomcp.Udp.Reliability.{
  ReliabilityManager, PendingMessage, ack_single, ack_cumulative, drop_acked, handle_ack,
  acknowledge, ack_type, is_none, AckType, AckInfo, drop_earlier,
}

pub lookup-drop_acked :
    (n j : ℕ) (pending : Dict ℕ PendingMessage)
    → lookup j (drop_acked n pending) ≡ (if leb j n then none else lookup j pending)
unfolding drop_acked lookup
lookup-drop_acked n j [] = ground arith
lookup-drop_acked n j ((id, pm) ∷ pending) = ground (arith, lookup-drop_acked n j pending)

-- Whether an acknowledgment of the kind removes the smaller ids too.
abbrev pub covers_earlier : AckType → ℕ → ℕ → Bool
covers_earlier ack_single n j = false
covers_earlier ack_cumulative n j = leb j n

-- The ids that an acknowledgment covers.
abbrev pub covers : PacketHeader → ℕ → Bool
covers h j = eqb j h.message_id || covers_earlier (ack_type h) h.message_id j

lookup-acknowledge :
    (rm : ReliabilityManager) (now n j : ℕ)
    → lookup j (acknowledge now n rm).pending_messages
      ≡ (if eqb j n then none else lookup j rm.pending_messages)
unfolding acknowledge
lookup-acknowledge rm now n j =
    ground
      (arith, Option-cases (lookup n rm.pending_messages), lookup-erase n j rm.pending_messages)

lookup-drop_earlier :
    (k : AckType) (n j : ℕ) (rm : ReliabilityManager)
    → lookup j (drop_earlier k n rm).pending_messages
      ≡ (if covers_earlier k n j then none else lookup j rm.pending_messages)
lookup-drop_earlier ack_single n j rm = refl
lookup-drop_earlier ack_cumulative n j rm = lookup-drop_acked n j rm.pending_messages

last_acks-drop_earlier :
    (k : AckType) (n : ℕ) (rm : ReliabilityManager) → (drop_earlier k n rm).last_acks ≡ rm.last_acks
last_acks-drop_earlier ack_single n rm = refl
last_acks-drop_earlier ack_cumulative n rm = refl

last_acks-acknowledge :
    (now n : ℕ) (rm : ReliabilityManager) → (acknowledge now n rm).last_acks ≡ rm.last_acks
unfolding acknowledge
last_acks-acknowledge now n rm = ground arith

-- With reliability on, an acknowledgment of message `n` removes from the pending messages `n` and,
-- if it is cumulative, every smaller id too; every other pending message stays as it was. The
-- address's last acknowledgment becomes this one, and those of other addresses stay.
pub lookup-handle_ack :
    (rm : ReliabilityManager) (now : ℕ) (h : PacketHeader) (addr : String) (j : ℕ) (other : String)
    → is_none rm.level ≡ false
    → let rm' = handle_ack rm now h addr in
      (lookup j rm'.pending_messages ≡ (if covers h j then none else lookup j rm.pending_messages))
      × (lookup other rm'.last_acks ≡ (
          if addr == other
          then some (record { kind = ack_type h; message_id = h.message_id; timestamp = now })
          else lookup other rm.last_acks))
unfolding handle_ack
lookup-handle_ack rm now h addr j other on = rw on (pending, acks)
  where
    info : AckInfo
    info = record { kind = ack_type h; message_id = h.message_id; timestamp = now }

    noted : ReliabilityManager
    noted = record rm { last_acks = insert addr info rm.last_acks }

    pending :
        lookup j
          (drop_earlier
            (ack_type h)
            h.message_id
            (acknowledge now h.message_id noted)).pending_messages
        ≡ (if covers h j then none else lookup j rm.pending_messages)
    pending = ground (
      arith,
      lookup-drop_earlier (ack_type h) h.message_id j (acknowledge now h.message_id noted),
      lookup-acknowledge noted now h.message_id j,
    )

    acks :
        lookup other
          (drop_earlier (ack_type h) h.message_id (acknowledge now h.message_id noted)).last_acks
        ≡ (if addr == other then some info else lookup other rm.last_acks)
    acks =
        rw
          (
            last_acks-drop_earlier (ack_type h) h.message_id (acknowledge now h.message_id noted),
            last_acks-acknowledge now h.message_id noted,
          )
          (lookup-insert addr other info rm.last_acks)
