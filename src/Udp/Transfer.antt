-- ===== src/Udp/Transfer.antt =====
-- From `Send` on one side to `reassembleMessage` on the other.
use gomcp.Prelude.{
  ℕ, zero, suc, ◌+◌, ◌*◌, ◌%◌, ◌^◌, ◌≤◌, ◌<◌, ◌≡◌, refl, sym, ap, ◌∙◌, Bool, true, none, some, inl,
  inr, ◌⊎◌, List, [], ◌∷◌, eqb, if◌then◌else◌, arith, length, drop, get_or, All, drop-append,
  Bool-cases, Option-cases, ok, Dict, lookup, insert, erase, lookup-insert_self, lookup-insert,
  nat_key, lt→leb,
}
use gomcp.Udp.Header.{PacketHeader, header_size}
use gomcp.Udp.Transport.{
  Transport, FragmentInfo, Error, reassembly_queue_full, push_err, write_packet,
}
use gomcp.Udp.Send.{Network, fragment_packet, fragment_header, send}
use gomcp.Udp.Send.Fragments.{IsUp, piece, joined, joined-message, packets_from}
use gomcp.Udp.Send.Outcomes.{
  next_id, fragments_needed, fragments_needed-cover, fragments_needed-le, packets_of, send-sends,
  fragments_needed_bounds,
}
use gomcp.Udp.Receive.{
  process_packet, handle_fragment, ack_if_reliable, send_ack, fragments_of, stored, store,
  queue_reassembly, reassemble, reassemble_message,
}
use gomcp.Udp.Receive.Packets.{process-fragment}
use gomcp.Udp.Receive.Partial.{
  IsPartial, IsPartial-nil, insert-IsPartial, length-IsComplete, reassemble-full,
}

fragments-push_err : (e : Error) (t : Transport) → (push_err e t).fragments ≡ t.fragments
unfolding push_err
fragments-push_err e t = ground arith

fragments-ack : (h : PacketHeader) (t : Transport) → (ack_if_reliable h t).fragments ≡ t.fragments
unfolding ack_if_reliable send_ack write_packet
fragments-ack h t = ground arith

fragments-queue : (id : ℕ) (t : Transport) → (queue_reassembly id t).fragments ≡ t.fragments
unfolding queue_reassembly
fragments-queue id t = ground (arith, fragments-push_err (reassembly_queue_full id) t)

-- A fragment is stored whatever else happens to the packet.
pub fragments-handle :
    (now : ℕ) (h : PacketHeader) (payload : List ℕ) (t : Transport)
    → (handle_fragment now h payload t).fragments
      ≡ insert h.message_id (stored now h payload t) t.fragments
unfolding handle_fragment
fragments-handle now h payload t =
    elim (Bool-cases (eqb (length (stored now h payload t)) h.total_fragments)) [
      | inl full ↦
          rw full (fragments-queue h.message_id _ ∙ fragments-ack h (store now h payload t))
      | inr more ↦ rw more (fragments-ack h (store now h payload t))
    ]

-- The packets that arrive, with their times, one after the other.
abbrev pub receive_all : List (ℕ × List ℕ) → Transport → Transport
receive_all [] t = t
receive_all ((now, packet) ∷ arrivals) t = receive_all arrivals (process_packet now packet t).0

-- Arrivals of packets of the wire, by their places in it.
abbrev pub arrivals_of : List (List ℕ) → List (ℕ × ℕ) → List (ℕ × List ℕ)
arrivals_of wire [] = []
arrivals_of wire ((now, i) ∷ order) = (now, get_or wire i []) ∷ arrivals_of wire order

abbrev pub Arrives : ℕ → List (ℕ × ℕ) → Type 0
Arrives i [] = ⊥
Arrives i ((now, j) ∷ order) = (i ≡ j) ⊎ Arrives i order

-- Only places below `n` arrive, and each of them at least once.
pub record IsDelivery (n : ℕ) (order : List (ℕ × ℕ)) : Type 0 where
  pub known : All (λ d. d.1 < n) order
  pub covers : (i : ℕ) → i < n → Arrives i order

fragments_of-insert :
    (id : ℕ) (frs : Dict ℕ FragmentInfo) (t t' : Transport)
    → t'.fragments ≡ insert id frs t.fragments
    → fragments_of id t' ≡ frs
fragments_of-insert id frs t t' e =
    rw (e ∙ refl) (rw (lookup-insert_self id frs t.fragments, fragments_of))

get_packet :
    (reliable : Bool) (id total p : ℕ) (message : List ℕ) (n i k : ℕ)
    → k < n
    → get_or (packets_from reliable id total p message n i) k []
      ≡ fragment_packet reliable id total (i + k) (piece p message (i + k))
get_packet reliable id total p message zero i k h = absurd (omega arith)
get_packet reliable id total p message (suc n) i zero h =
    ap (λ (j : ℕ). fragment_packet reliable id total j (piece p message j))
      (let e : i ≡ i + 0 = omega arith in e)
get_packet reliable id total p message (suc n) i (suc k) h =
    get_packet reliable id total p message n (i + 1) k (omega arith)
    ∙ ap (λ (j : ℕ). fragment_packet reliable id total j (piece p message j))
        (let e : i + 1 + k ≡ i + suc k = omega arith in e)

-- One message of `n` fragments on a wire.
module _ (reliable : Bool) (id n : ℕ) (c : ℕ → List ℕ) (wire : List (List ℕ))
    (id_fits : id < 2 ^ 32) (n_fits : n < 2 ^ 16)
    (on_wire : (i : ℕ) → i < n → get_or wire i [] ≡ fragment_packet reliable id n i (c i)) where
  arrival-fragments :
      (now i : ℕ) (t : Transport)
      → i < n
      → fragments_of id (process_packet now (get_or wire i []) t).0
        ≡ insert i (record { received_time = now; content = c i }) (fragments_of id t)
  arrival-fragments now i t h =
      ap (λ w. fragments_of id (process_packet now w t).0) (on_wire i h)
      ∙ ap (λ r. fragments_of id r.0) (process-fragment reliable id n i now (c i) t id_fits)
      ∙ fragments_of-insert id (stored now header (c i) t) t (handle_fragment now header (c i) t)
          (fragments-handle now header (c i) t)
      ∙ ap (λ (k : ℕ). insert k (record { received_time = now; content = c i }) (fragments_of id t))
          (let e : i % 2 ^ 16 ≡ i = omega arith in e)
    where
      header : PacketHeader
      header = fragment_header reliable id n i (c i)

  abbrev final : List (ℕ × ℕ) → Transport → Transport
  final order t = receive_all (arrivals_of wire order) t

  receive-IsPartial :
      (order : List (ℕ × ℕ)) (t : Transport)
      → All (λ d. d.1 < n) order
      → IsPartial c n (fragments_of id t)
      → IsPartial c n (fragments_of id (final order t))
  receive-IsPartial [] t h p = p
  receive-IsPartial ((now, i) ∷ order) t (h, known) p =
      receive-IsPartial order _ known
        (rw (arrival-fragments now i t h) (insert-IsPartial c n i now (fragments_of id t) h p))

  -- What is there stays, and what arrives is there from then on.
  receive-present :
      (order : List (ℕ × ℕ)) (t : Transport) (i : ℕ)
      → All (λ d. d.1 < n) order
      → Arrives i order ⊎ ((f : FragmentInfo) × (lookup i (fragments_of id t) ≡ some f))
      → (f : FragmentInfo) × (lookup i (fragments_of id (final order t)) ≡ some f)
  receive-present [] t i known (inl a) = absurd a
  receive-present [] t i known (inr here) = here
  receive-present ((now, j) ∷ order) t i (h, known) a =
      receive-present order (process_packet now (get_or wire j []) t).0 i known (step a)
    where
      info : FragmentInfo
      info = record { received_time = now; content = c j }

      after :
          lookup i (fragments_of id (process_packet now (get_or wire j []) t).0)
          ≡ (if eqb j i then some info else lookup i (fragments_of id t))
      after =
          ap (lookup i) (arrival-fragments now j t h) ∙ lookup-insert j i info (fragments_of id t)

      step :
          Arrives i ((now, j) ∷ order)
            ⊎ ((f : FragmentInfo) × (lookup i (fragments_of id t) ≡ some f))
          → Arrives i order
            ⊎ ((f : FragmentInfo) × (lookup i
                    (fragments_of id (process_packet now (get_or wire j []) t).0)
                  ≡ some f))
      step (inl (inl e)) = inr (info, ground (arith, after))
      step (inl (inr later)) = inl later
      step (inr (f, e)) = elim (Bool-cases (eqb j i)) [
        | inl same ↦ inr (info, ground (arith, after))
        | inr other ↦ inr (f, ground (arith, after))
      ]

  -- After a delivery all the fragments are there, and reassembly joins them.
  pub receive-reassemble :
      (order : List (ℕ × ℕ)) (t : Transport)
      → IsDelivery n order
      → fragments_of id t ≡ []
      → reassemble id (fragments_of id (final order t)) ≡ ok (joined c n 0)
  receive-reassemble order t d none_yet = reassemble-full c n id _ n_fits partial (
      length-IsComplete c n _ partial
        (λ i h. receive-present order t i d.known (inl (d.covers i h))))
    where
      partial : IsPartial c n (fragments_of id (final order t))
      partial = receive-IsPartial order t d.known (rw none_yet (IsPartial-nil c n))

fragments_of-absent :
    (id : ℕ) (t : Transport) → lookup id t.fragments ≡ none → fragments_of id t ≡ []
fragments_of-absent id t e = rw (e, fragments_of)

fragments_of-lookup :
    (id i : ℕ) (t : Transport) (f : FragmentInfo)
    → lookup i (fragments_of id t) ≡ some f
    → lookup id t.fragments ≡ some (fragments_of id t)
unfolding lookup
fragments_of-lookup id i t f e = elim (Option-cases (lookup id t.fragments)) [
  | inl absent ↦
      (let e' : some f ≡ none = sym e ∙ ap (lookup i) (fragments_of-absent id t absent) in cc)
  | inr (frs, e') ↦ rw (e', fragments_of)
]

reassemble_message-ok :
    (id : ℕ) (t : Transport) (frs : Dict ℕ FragmentInfo) (message : List ℕ)
    → lookup id t.fragments ≡ some frs
    → reassemble id frs ≡ ok message
    → reassemble_message id t ≡ (record t { fragments = erase id t.fragments }, ok message)
unfolding reassemble_message
reassemble_message-ok id t frs message e r = rw (e, reassemble_message) (rw (r, reassemble_message))

-- A message that needs more than one packet, cut by `Send` into `n` fragments over a network that
-- takes them, reaches the other side whole: if the fragments arrive in any order and any number of
-- times, but each at least once and with nothing of an older message under the same id, then
-- `reassembleMessage` returns the message and forgets its fragments.
pub transfer :
    (net : Network) (now : ℕ) (message : List ℕ) (sender receiver : Transport) (q : ℕ)
    (order : List (ℕ × ℕ))
    → IsUp net
    → sender.connected ≡ true
    → sender.max_packet_size ≡ header_size + suc q
    → suc q < length message
    → length message ≤ 65535 * suc q
    → lookup (next_id sender) receiver.fragments ≡ none
    → IsDelivery (fragments_needed (length message) (suc q)) order
    → let wire = drop (length sender.wire) (send net now message sender).0.wire in
      let received = receive_all (arrivals_of wire order) receiver in
      reassemble_message (next_id sender) received
      ≡ (record received { fragments = erase (next_id sender) received.fragments }, ok message)
transfer net now message sender receiver q order up c m long small fresh d =
    reassemble_message-ok id received (fragments_of id received) message
      (fragments_of-lookup id 0 received first.0 first.1)
      (receive-reassemble reliable id n pieces wire (omega arith) (omega (arith, n_small)) on_wire
          order receiver d nothing
        ∙ ap ok (joined-message (suc q) message n (fragments_needed-cover (length message) q)))
  where
    id : ℕ
    id = next_id sender

    reliable : Bool
    reliable = sender.reliability_enabled

    n : ℕ
    n = fragments_needed (length message) (suc q)

    pieces : ℕ → List ℕ
    pieces = piece (suc q) message

    n_small : n ≤ 65535
    n_small = fragments_needed-le (length message) q 65535 (omega arith) small

    wire : List (List ℕ)
    wire = drop (length sender.wire) (send net now message sender).0.wire

    packets : List (List ℕ)
    packets = packets_from reliable id n (suc q) message n 0

    sent : packets_of reliable id (suc q) message ≡ packets
    sent = rw (lt→leb (length message) (suc q) long)

    wire-packets : wire ≡ packets
    wire-packets =
        ap (drop (length sender.wire)) (send-sends net now message sender q up c m small).1
        ∙ drop-append sender.wire (packets_of reliable id (suc q) message)
        ∙ sent

    on_wire : (i : ℕ) → i < n → get_or wire i [] ≡ fragment_packet reliable id n i (pieces i)
    on_wire i h =
        ap (λ w. get_or w i []) wire-packets
        ∙ get_packet reliable id n (suc q) message n 0 i h
        ∙ ap (λ (j : ℕ). fragment_packet reliable id n j (pieces j))
            (let e : 0 + i ≡ i = omega arith in e)

    received : Transport
    received = receive_all (arrivals_of wire order) receiver

    nothing : fragments_of id receiver ≡ []
    nothing = fragments_of-absent id receiver fresh

    first : (f : FragmentInfo) × (lookup 0 (fragments_of id received) ≡ some f)
    first =
        receive-present reliable id n pieces wire (omega arith) (omega (arith, n_small)) on_wire
          order receiver 0 d.known
          (inl (d.covers 0 (fragments_needed_bounds (length message) q (omega arith)).2))
