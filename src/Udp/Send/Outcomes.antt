-- ===== src/Udp/Send/Outcomes.antt =====
-- What `Send` hands to the network and how it ends.
use native.Mathlib.Nat.{lt_of_mul-lt-mul_right}
use gomcp.Prelude.{
  ℕ, zero, suc, ◌+◌, ◌-◌, ◌*◌, ◌/◌, ◌%◌, ◌^◌, ◌≤◌, ◌<◌, ◌≡◌, ◌≢◌, refl, sym, ◌∙◌, Bool, true, false,
  inl, inr, List, [], ◌∷◌, ◌++◌, ltb, leb, lt→ltb, le→ltb, leb→le, drop, if◌then◌else◌, arith,
  length, All, length-append, length-take, pos, Bool-cases,
}
use gomcp.Udp.Header.{encode_header, header_size}
use gomcp.Udp.Header.RoundTrip.{length-encode_header}
use gomcp.Udp.Transport.{Transport, Outcome, done, failed, message_too_large, generate_message_id}
use gomcp.Udp.Send.{
  Network, single_packet, single_header, fragment_packet, fragment_header, max_payload_size,
  fragment_count, send_single_packet, send_fragmented_message, sending, send, track, track_sent,
}
use gomcp.Udp.Send.Fragments.{IsUp, piece, packets_from, deliver-up, send_fragments-up}

max_payload_size-eq : (size p : ℕ) → size ≡ header_size + p → max_payload_size size ≡ pos p
max_payload_size-eq size p e = ground arith

-- The id that the next message gets.
abbrev pub next_id : Transport → ℕ
next_id t = (t.next_message_id + 1) % 2 ^ 32

-- How many fragments a message of `len` bytes needs.
abbrev pub fragments_needed : ℕ → ℕ → ℕ
fragments_needed len p = (len + p - 1) / p

pos_of_cover : (n p len : ℕ) → 0 < len → len ≤ n * p → 0 < n
pos_of_cover zero p len h c = absurd (omega arith)
pos_of_cover (suc n) p len h c = omega arith

pub fragments_needed-cover : (len q : ℕ) → len ≤ fragments_needed len (suc q) * suc q
fragments_needed-cover len q = omega arith

-- The fragments cover the message, and one fewer would not.
pub fragments_needed_bounds :
    (len q : ℕ)
    → 0 < len
    → let n = fragments_needed len (suc q) in
      (len ≤ n * suc q) × (n * suc q < len + suc q) × (0 < n)
fragments_needed_bounds len q h = (
  fragments_needed-cover len q,
  omega arith,
  pos_of_cover (fragments_needed len (suc q)) (suc q) len h (fragments_needed-cover len q),
)

le_of_mul_le : (n m q : ℕ) → n * suc q < m * suc q + suc q → n ≤ m
le_of_mul_le n m q h =
    let e : n < suc m = lt_of_mul-lt-mul_right (suc q) (omega arith) in omega arith

pub fragments_needed-le :
    (len q m : ℕ) → 0 < len → len ≤ m * suc q → fragments_needed len (suc q) ≤ m
fragments_needed-le len q m h c =
    le_of_mul_le _ m q (omega (arith, (fragments_needed_bounds len q h).1))

lt-fragments_needed : (len q m : ℕ) → 0 < len → m * suc q < len → m < fragments_needed len (suc q)
lt-fragments_needed len q m h c =
    lt_of_mul-lt-mul_right (suc q) (omega (arith, fragments_needed-cover len q))

-- The packets that carry a message of `p` bytes at most in a packet.
abbrev pub packets_of : Bool → ℕ → ℕ → List ℕ → List (List ℕ)
packets_of reliable id p message =
    let n = fragments_needed (length message) p in
    if leb (length message) p
    then single_packet reliable id message ∷ []
    else packets_from reliable id n p message n 0

send_single-up :
    (net : Network) (id : ℕ) (message : List ℕ) (t : Transport)
    → IsUp net
    → send_single_packet net id message t
      ≡ (record t { wire = t.wire ++ (single_packet t.reliability_enabled id message ∷ []) }, done)
unfolding send_single_packet
send_single-up net id message t up = rw (deliver-up net (ltb 0 t.write_timeout) t.wire _ up)

send_fragmented-up :
    (net : Network) (id : ℕ) (message : List ℕ) (q : ℕ) (t : Transport)
    → IsUp net
    → fragments_needed (length message) (suc q) ≤ 65535
    → let n = fragments_needed (length message) (suc q) in
      send_fragmented_message net id message (pos (suc q)) t ≡ (
        record t { wire = t.wire ++ packets_from t.reliability_enabled id n (suc q) message n 0 },
        done,
      )
unfolding send_fragmented_message fragment_count
send_fragmented-up net id message q t up small =
    rw (le→ltb 65535 (fragments_needed (length message) (suc q)) small)
      (rw (send_fragments-up (sending net t id message (pos (suc q)) n) (suc q) n 0 t.wire up refl))
  where
    n : ℕ
    n = fragments_needed (length message) (suc q)

send_fragmented-too_large :
    (net : Network) (id : ℕ) (message : List ℕ) (q : ℕ) (t : Transport)
    → 65535 < fragments_needed (length message) (suc q)
    → send_fragmented_message net id message (pos (suc q)) t ≡ (t, failed message_too_large)
unfolding send_fragmented_message fragment_count
send_fragmented-too_large net id message q t large =
    rw (lt→ltb 65535 (fragments_needed (length message) (suc q)) large)

-- Tracking changes nothing that was handed over.
wire-track :
    (now id : ℕ) (message : List ℕ) (t : Transport) → (track now id message t).wire ≡ t.wire
unfolding track
wire-track now id message t = ground arith

send-connected :
    (net : Network) (now : ℕ) (message : List ℕ) (t : Transport) (q : ℕ)
    → t.connected ≡ true
    → t.max_packet_size ≡ header_size + suc q
    → let t' = record t { next_message_id = next_id t } in
      send net now message t
      ≡ track_sent now (next_id t) message (
          if leb (length message) (suc q)
          then send_single_packet net (next_id t) message t'
          else send_fragmented_message net (next_id t) message (pos (suc q)) t')
unfolding send generate_message_id
send-connected net now message t q c m = rw (c, max_payload_size-eq t.max_packet_size (suc q) m)

-- What a call left behind: how it ended, and what it handed over.
abbrev pub Delivers : List (List ℕ) → Transport × Outcome → Type 0
Delivers packets (t, end) = (end ≡ done) × (t.wire ≡ packets)

pub track_sent-Delivers :
    (now id : ℕ) (message : List ℕ) (t : Transport) (packets : List (List ℕ))
    → t.wire ≡ packets
    → Delivers packets (track_sent now id message (t, done))
track_sent-Delivers now id message t packets e = (refl, wire-track now id message t ∙ e)

next_message_id-track :
    (now id : ℕ) (message : List ℕ) (t : Transport)
    → (track now id message t).next_message_id ≡ t.next_message_id
unfolding track
next_message_id-track now id message t = ground arith

-- How a call ended, what it handed over, and the message id that it left.
DeliversAs : List (List ℕ) → ℕ → Transport × Outcome → Type 0
DeliversAs packets id (t, end) = (end ≡ done) × (t.wire ≡ packets) × (t.next_message_id ≡ id)

track_sent-DeliversAs :
    (now id : ℕ) (message : List ℕ) (t : Transport)
    → DeliversAs t.wire t.next_message_id (track_sent now id message (t, done))
unfolding DeliversAs
track_sent-DeliversAs now id message t =
    (refl, wire-track now id message t, next_message_id-track now id message t)

-- Over a network whose calls succeed, with room for `q + 1` bytes behind the header, `Send` on a
-- connected transport succeeds for a message of at most 65535 times that room, and hands over
-- exactly one packet if the message fits in it, and otherwise one packet for each piece of the
-- message in order, under the id that follows the last one modulo 2^32, which the transport then
-- keeps as the last one, and which is another than the one before.
pub send-sends :
    (net : Network) (now : ℕ) (message : List ℕ) (t : Transport) (q : ℕ)
    → IsUp net
    → t.connected ≡ true
    → t.max_packet_size ≡ header_size + suc q
    → length message ≤ 65535 * suc q
    → ((send net now message t).1 ≡ done)
      × ((send net now message t).0.wire
          ≡ t.wire ++ packets_of t.reliability_enabled (next_id t) (suc q) message)
      × ((send net now message t).0.next_message_id ≡ (t.next_message_id + 1) % 2 ^ 32)
      × ((send net now message t).0.next_message_id ≢ t.next_message_id)
unfolding DeliversAs
send-sends net now message t q up c m small =
    let (ended, wire, kept) : DeliversAs
        (t.wire ++ packets_of t.reliability_enabled (next_id t) (suc q) message) (next_id t)
        (send net now message t) =
      rw (send-connected net now message t q c m)
        (elim (Bool-cases (leb (length message) (suc q))) [
          | inl short ↦
              rw (short, send_single-up net (next_id t) message t' up)
                (track_sent-DeliversAs now (next_id t) message _)
          | inr long ↦
              rw
                (
                  long,
                  send_fragmented-up net (next_id t) message q t' up
                      (fragments_needed-le (length message) q 65535 (ground arith) small),
                )
                (track_sent-DeliversAs now (next_id t) message _)
        ]) in
    (ended, wire, kept, λ same. next_id-other t.next_message_id (sym kept ∙ same))
  where
    t' : Transport
    t' = record t { next_message_id = next_id t }

    next_id-other : (n : ℕ) → (n + 1) % 2 ^ 32 ≢ n
    next_id-other n e = omega arith

-- A longer message is refused: nothing is handed over, and only its message id is used up.
pub send-too_large :
    (net : Network) (now : ℕ) (message : List ℕ) (t : Transport) (q : ℕ)
    → t.connected ≡ true
    → t.max_packet_size ≡ header_size + suc q
    → 65535 * suc q < length message
    → send net now message t ≡ (record t { next_message_id = next_id t }, failed message_too_large)
send-too_large net now message t q c m large = rw (send-connected net now message t q c m) (
    rw (
      leb-false (length message) (suc q) (omega arith),
      send_fragmented-too_large net (next_id t) message q t'
          (lt-fragments_needed (length message) q 65535 (omega arith) large),
    ))
  where
    t' : Transport
    t' = record t { next_message_id = next_id t }

    leb-false : (a b : ℕ) → b < a → leb a b ≡ false
    leb-false a b h = ground arith

packets_from-All :
    (reliable : Bool) (id total p : ℕ) (message : List ℕ) (n i : ℕ)
    → All (λ packet. length packet ≤ header_size + p) (packets_from reliable id total p message n i)
unfolding fragment_packet
packets_from-All reliable id total p message zero i = tt
packets_from-All reliable id total p message (suc n) i = (
  omega (
    arith,
    length-append (encode_header (fragment_header reliable id total i (piece p message i)))
        (piece p message i),
    length-encode_header (fragment_header reliable id total i (piece p message i)),
    length-take p (drop (i * p) message),
  ),
  packets_from-All reliable id total p message n (i + 1),
)

-- Whatever is sent with room for `p` bytes behind the header, no packet is longer than the header
-- and that room.
pub packets_of-fit :
    (reliable : Bool) (id p : ℕ) (message : List ℕ)
    → All (λ packet. length packet ≤ header_size + p) (packets_of reliable id p message)
unfolding single_packet
packets_of-fit reliable id p message = elim (Bool-cases (leb (length message) p)) [
  | inl short ↦ rw short (
    omega (
      arith,
      length-append (encode_header (single_header reliable id message)) message,
      length-encode_header (single_header reliable id message),
      leb→le (length message) p short,
    ),
    tt,
  )
  | inr long ↦ rw long (packets_from-All reliable id _ p message _ 0)
]
