-- ===== src/Udp/Reliability/Timeouts.antt =====
-- Which messages `checkTimeouts` queues for retransmission.
use gomcp.Prelude.{
  take-nil, sym, take, ◌-◌, ltb→lt, ltb→le, ℕ, zero, suc, ◌≤◌, ◌<◌, ◌≡◌, refl, ap, ◌∙◌, inl, inr,
  List, [], ◌∷◌, ◌++◌, ltb, if◌then◌else◌, arith, length, length-append, Bool-cases, Dict,
  append_assoc, append-nil,
}
use gomcp.Udp.Reliability.{
  ReliabilityManager, PendingMessage, check_timeouts, queue_due, is_due, offer, retransmit_capacity,
}

-- The ids of the due messages, in the order of the map.
unfoldable pub due_ids : ℕ → Dict ℕ PendingMessage → List ℕ
due_ids now [] = []
due_ids now ((id, pm) ∷ pending) =
    let rest = due_ids now pending in if is_due now pm then id ∷ rest else rest

length-offer :
    (ch : List ℕ) (id : ℕ)
    → length ch ≤ retransmit_capacity
    → length (offer ch id) ≤ retransmit_capacity
length-offer ch id h = ground (arith, length-append ch (id ∷ []))

pub length-queue_due :
    (now : ℕ) (pending : Dict ℕ PendingMessage) (ch : List ℕ)
    → length ch ≤ retransmit_capacity
    → length (queue_due now pending ch) ≤ retransmit_capacity
unfolding queue_due
length-queue_due now [] ch h = h
length-queue_due now ((id, pm) ∷ pending) ch h =
    length-queue_due now pending (if is_due now pm then offer ch id else ch)
      (ground (arith, length-offer ch id h))

take-cons : (k id : ℕ) (ids : List ℕ) → 0 < k → take k (id ∷ ids) ≡ id ∷ take (k - 1) ids
take-cons zero id ids h = absurd (omega arith)
take-cons (suc k) id ids h = ap (λ (n : ℕ). id ∷ take n ids) (omega arith)

queue_due-full :
    (now : ℕ) (pending : Dict ℕ PendingMessage) (ch : List ℕ)
    → length ch ≡ retransmit_capacity
    → queue_due now pending ch ≡ ch
unfolding queue_due
queue_due-full now [] ch h = refl
queue_due-full now ((id, pm) ∷ pending) ch h = ground (arith, queue_due-full now pending ch)

queue_due-take :
    (now : ℕ) (pending : Dict ℕ PendingMessage) (ch : List ℕ)
    → length ch ≤ retransmit_capacity
    → queue_due now pending ch ≡ ch ++ take (retransmit_capacity - length ch) (due_ids now pending)
unfolding queue_due due_ids
queue_due-take now [] ch h =
    rw (take-nil {A = ℕ} (retransmit_capacity - length ch)) (sym (append-nil ch))
queue_due-take now ((id, pm) ∷ pending) ch h = elim (Bool-cases (is_due now pm)) [
  | inr early ↦ rw early (queue_due-take now pending ch h)
  | inl due ↦ elim (Bool-cases (ltb (length ch) retransmit_capacity)) [
    | inr full ↦
        rw (due, full)
          (queue_due-full now pending ch (omega (arith, ltb→le (length ch) 100 full))
            ∙ sym (append-nil ch)
            ∙ ap (λ (k : ℕ). ch ++ take k (id ∷ due_ids now pending))
                (let e : 0 ≡ retransmit_capacity - length ch =
                    omega (arith, ltb→le (length ch) 100 full) in
                  e))
    | inl room ↦
        rw (due, room)
          (queue_due-take now pending (ch ++ (id ∷ []))
              (omega (arith, length-append ch (id ∷ []), ltb→lt (length ch) 100 room))
            ∙ append_assoc ch (id ∷ []) _
            ∙ ap (◌++◌ ch) (
                ap (λ (k : ℕ). id ∷ take k (due_ids now pending))
                  (omega (arith, length-append ch (id ∷ [])))
                ∙ sym (
                    take-cons (retransmit_capacity - length ch) id (due_ids now pending)
                      (omega (arith, ltb→lt (length ch) 100 room)))))
  ]
]

-- A check appends to the channel the ids of the due messages, as many as fit within its capacity of
-- 100 and the first ones first, and changes nothing else of the manager.
pub check_timeouts-queues_due :
    (rm : ReliabilityManager) (now : ℕ)
    → length rm.retransmit_ch ≤ retransmit_capacity
    → check_timeouts rm now ≡ record rm {
      retransmit_ch =
          rm.retransmit_ch
          ++ take (retransmit_capacity - length rm.retransmit_ch) (due_ids now rm.pending_messages);
    }
unfolding check_timeouts
check_timeouts-queues_due rm now h =
    ap (λ ids. record rm { retransmit_ch = ids })
      (queue_due-take now rm.pending_messages rm.retransmit_ch h)
