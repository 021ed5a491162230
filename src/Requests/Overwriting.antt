-- ===== src/Requests/Overwriting.antt =====
-- Two entries under one key: a request that registers twice, and two sessions in one second.
use gomcp.Prelude.{
  ℕ, ◌+◌, ◌<◌, ◌≤◌, ◌≡◌, sym, subst, Bool, true, false, some, List, ◌∷◌, String, lookup, insert,
  string_key, length, lookup-insert_self, length-insert_old, arith, refl, eqb, eqb_iff, Bool-cases,
  inl, inr,
}
use gomcp.Requests.Cancellation.{
  RequestCanceller, register, cancel, is_closed, is_member, close_channel,
}
use gomcp.Requests.Sessions.{SessionManager, create_session, get_session, generate_unique_id}

cancel-registered :
    (rc : RequestCanceller) (id : String) (c : ℕ)
    → lookup id rc.cancellations ≡ some c
    → cancel id rc ≡ (close_channel id c rc, true)
unfolding cancel
cancel-registered rc id c e = ground (arith, e)

-- A channel that has not been made is not closed.
is_closed-fresh :
    (rc : RequestCanceller) (c : ℕ)
    → ((d : ℕ) → is_closed d rc ≡ true → d < rc.next_channel)
    → rc.next_channel ≤ c
    → is_closed c rc ≡ false
is_closed-fresh rc c below le = elim (Bool-cases (is_closed c rc)) [
  | inl closed ↦ (let lt = below c closed in absurd (omega arith))
  | inr fresh ↦ fresh
]

still_open :
    (c d : ℕ) (closed : List ℕ)
    → eqb c d ≡ false
    → is_member c closed ≡ false
    → is_member c (d ∷ closed) ≡ false
unfolding is_member
still_open c d closed other e = rw (other, e) refl

now_closed : (c : ℕ) (closed : List ℕ) → is_member c (c ∷ closed) ≡ true
unfolding is_member
now_closed c closed = ground (arith, eqb_iff c c)

-- A request that registers a second time, as a tool call does, gets a new channel: cancelling the
-- request closes that one, and whoever waits on the first channel never learns of it, also when it
-- registers once more after the cancellation.
pub cancel-misses_first :
    (rc : RequestCanceller) (id : String)
    → ((c : ℕ) → is_closed c rc ≡ true → c < rc.next_channel)
    → (let first = register id rc in
        let second = register id first.0 in
        let cancelled = cancel id second.0 in
        let third = register id cancelled.0 in
        (cancelled.1 ≡ true)
        × (is_closed second.1 cancelled.0 ≡ true)
        × (is_closed first.1 cancelled.0 ≡ false)
        × (is_closed third.1 third.0 ≡ false))
unfolding register
cancel-misses_first rc id below =
    let next = rc.next_channel in
    let twice = (register id (register id rc).0).0 in
    let found = lookup-insert_self id (next + 1) (insert id next rc.cancellations) in
    subst
      (λ (r : RequestCanceller × Bool).
        (r.1 ≡ true)
        × (is_closed (next + 1) r.0 ≡ true)
        × (is_closed next r.0 ≡ false)
        × (is_closed (register id r.0).1 (register id r.0).0 ≡ false))
      (sym (cancel-registered twice id (next + 1) found))
      (
        refl,
        now_closed (next + 1) rc.closed,
        still_open next (next + 1) rc.closed (ground arith)
            (is_closed-fresh rc next below (omega arith)),
        still_open (next + 1 + 1) (next + 1) rc.closed (ground arith)
            (is_closed-fresh rc (next + 1 + 1) below (omega arith)),
      )

-- Two sessions that are created in the same second have the same id, whatever their numbers: the
-- second replaces the first, which can no longer be found.
pub create_session-replaces {ℓ} :
    {Info : Type ℓ} (sm : SessionManager Info) (now later : ℕ) (seconds : String) (a b : Info)
    (v w : String)
    → (let first = create_session sm now seconds a v in
        let second = create_session first.0 later seconds b w in
        (first.1.id ≡ second.1.id)
        × (get_session second.0 first.1.id ≡ some second.1)
        × (length second.0.sessions ≡ length first.0.sessions))
unfolding create_session get_session generate_unique_id
create_session-replaces sm now later seconds a b v w =
    let id = generate_unique_id (sm.next_id + 1) seconds in
    (
      refl,
      lookup-insert_self id _ (insert id _ sm.sessions),
      length-insert_old id _ _ (insert id _ sm.sessions) (lookup-insert_self id _ sm.sessions),
    )
