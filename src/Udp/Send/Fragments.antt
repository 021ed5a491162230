-- ===== src/Udp/Send/Fragments.antt =====
-- The packets of a fragmented message: how many there are, what they carry, how long they are.
use gomcp.Prelude.{
  ℕ, zero, suc, ◌+◌, ◌-◌, ◌*◌, ◌≤◌, ◌≡◌, sym, ap, ◌∙◌, Bool, true, Option, some, List, [], ◌∷◌,
  ◌++◌, append_assoc, append-nil, ltb, ltb→lt, Bool-cases, inl, inr, drop-drop, arith, length, take,
  drop, take-add, take-all, length-drop, pos,
}
use gomcp.Udp.Transport.{Outcome, done}
use gomcp.Udp.Send.{
  Network, Sending, fragment_packet, deliver, and_then, fragment_at, send_fragments,
}

-- Fragment `i` of a message cut into pieces of `p` bytes; the last may be shorter.
abbrev pub piece : ℕ → List ℕ → ℕ → List ℕ
piece p message i = take p (drop (i * p) message)

-- The pieces from `i` on, `n` of them, joined.
abbrev pub joined : (ℕ → List ℕ) → ℕ → ℕ → List ℕ
joined c zero i = []
joined c (suc n) i = c i ++ joined c n (i + 1)

pub fragment_at-piece :
    (i p : ℕ) (message : List ℕ) → fragment_at i (pos p) message ≡ some (piece p message i)
unfolding fragment_at
fragment_at-piece i p message = elim (Bool-cases (ltb (length message) (i * p + p))) [
  | inl short ↦ rw short (
      ap {B = Option (List ℕ)} some (
        take-all (length message - i * p) rest (omega (arith, length-drop (i * p) message))
        ∙ sym (
            take-all p rest (
              omega
                (arith, length-drop (i * p) message, ltb→lt (length message) (i * p + p) short)))))
  | inr long ↦ rw long (
      ap {B = Option (List ℕ)} (λ (k : ℕ). some (take k rest))
        (let e : i * p + p - i * p ≡ p = omega arith in e))
]
  where
    rest : List ℕ
    rest = drop (i * p) message

joined-eq :
    (p : ℕ) (message : List ℕ) (n i : ℕ)
    → joined (piece p message) n i ≡ take (n * p) (drop (i * p) message)
joined-eq p message zero i =
    ap (λ (k : ℕ). take k (drop (i * p) message)) (let e : 0 ≡ 0 * p = omega arith in e)
joined-eq p message (suc n) i =
    ap (◌++◌ (piece p message i)) (
      joined-eq p message n (i + 1)
      ∙ ap (λ (k : ℕ). take (n * p) (drop k message))
          (let e : (i + 1) * p ≡ i * p + p = omega arith in e)
      ∙ ap (take (n * p)) (sym (drop-drop (i * p) p message)))
    ∙ sym (take-add p (n * p) (drop (i * p) message))
    ∙ ap (λ (k : ℕ). take k (drop (i * p) message))
        (let e : p + n * p ≡ suc n * p = omega arith in e)

-- All the pieces, enough to cover the message, make it up.
pub joined-message :
    (p : ℕ) (message : List ℕ) (n : ℕ)
    → length message ≤ n * p
    → joined (piece p message) n 0 ≡ message
joined-message p message n h =
    joined-eq p message n 0
    ∙ ap (λ (k : ℕ). take (n * p) (drop k message)) (let e : 0 * p ≡ 0 = omega arith in e)
    ∙ take-all (n * p) message h

-- The packets of the fragments, from `i` on.
abbrev pub packets_from : Bool → ℕ → ℕ → ℕ → List ℕ → ℕ → ℕ → List (List ℕ)
packets_from reliable id total p message zero i = []
packets_from reliable id total p message (suc n) i =
    fragment_packet reliable id total i (piece p message i)
    ∷ packets_from reliable id total p message n (i + 1)

-- Every call of the network succeeds.
pub record IsUp (net : Network) : Type 0 where
  pub deadline : (wire : List (List ℕ)) → net.deadline_set wire ≡ true
  pub write : (wire : List (List ℕ)) (packet : List ℕ) → net.written wire packet ≡ true

pub deliver-up :
    (net : Network) (timed : Bool) (wire : List (List ℕ)) (packet : List ℕ)
    → IsUp net
    → deliver net timed wire packet ≡ (wire ++ (packet ∷ []), done)
unfolding deliver
deliver-up net timed wire packet up = ground (arith, up.deadline wire, up.write wire packet)

-- On a network that is up the loop hands over exactly the packets of the remaining fragments.
pub send_fragments-up :
    (s : Sending) (p rounds i : ℕ) (wire : List (List ℕ))
    → IsUp s.net
    → s.max_payload ≡ pos p
    → send_fragments s rounds i wire
      ≡ (wire ++ packets_from s.reliable s.message_id s.total p s.message rounds i, done)
unfolding send_fragments and_then
send_fragments-up s p zero i wire up e = ap (λ w. (w, done)) (sym (append-nil wire))
send_fragments-up s p (suc rounds) i wire up e =
    rw (e, fragment_at-piece i p s.message, send_fragments)
      (rw (deliver-up s.net s.timed wire packet up) (
        send_fragments-up s p rounds (i + 1) (wire ++ (packet ∷ [])) up e
        ∙ ap {B = List (List ℕ) × Outcome} (λ w. (w, done)) (append_assoc wire (packet ∷ []) _)))
  where
    packet : List ℕ
    packet = fragment_packet s.reliable s.message_id s.total i (piece p s.message i)
