-- ===== src/Serving/Tracking.antt =====
-- What the tracker of requests promises: its count, and that a response reaches its own waiter.
use gomcp.Prelude.{
  ℕ, suc, ◌≡◌, refl, ap, sym, ◌∙◌, ◌≢◌, true, false, none, some, inl, inr, arith, Option-cases,
  length, Dict, lookup, insert, erase, lookup-insert_self, lookup-erase_self, lookup-erase_ne,
  HasDistinctKeys, insert-HasDistinctKeys, erase-HasDistinctKeys, length-insert_new,
  length-insert_old, erase-absent, zero, to_nat, length-erase_distinct, length-erase_present,
  nat_key, ℤ, pos,
}
use gomcp.Serving.Tracker.{
  RequestTracker, new_request_tracker, add_request, resolve_request, remove_request, setup_timeout,
  stop_timer, offer_response, get_pending_count, incremented, decremented,
}

length-erase :
    (id c : ℕ) (m : Dict ℕ ℕ)
    → HasDistinctKeys m
    → lookup id m ≡ some c
    → length m ≡ suc (length (erase id m))
length-erase id c m d h = omega (arith, length-erase_distinct id m d, length-erase_present id c m h)

decremented-pos : (m n : ℕ) → m ≡ suc n → decremented (pos m) ≡ pos n
decremented-pos m n e = rw e refl

-- Without the request its count is one less.
forget-count :
    (id c : ℕ) (m : Dict ℕ ℕ) (count : ℤ)
    → HasDistinctKeys m
    → lookup id m ≡ some c
    → count ≡ pos (length m)
    → decremented count ≡ pos (length (erase id m))
forget-count id c m count d h e =
    ap decremented e ∙ decremented-pos (length m) (length (erase id m)) (length-erase id c m d h)

pos-injective : (m n : ℕ) → pos m ≡ pos n → m ≡ n
pos-injective m n h = ap to_nat h

decremented-differs : (n : ℕ) → decremented (pos n) ≢ pos n
decremented-differs zero h = cc
decremented-differs (suc n) h = omega (arith, pos-injective n (suc n) h)

incremented-differs : (n : ℕ) → incremented (pos n) ≢ pos n
incremented-differs n h = omega (arith, pos-injective (suc n) n h)

module _ {ℓ} {R : Type ℓ} where
  -- The uses of a tracker in which a new request has an id that does not wait, and only a request
  -- that waits is removed.
  pub data IsCareful : RequestTracker R → Type ℓ where
    started : IsCareful new_request_tracker
    added :
        (rt : RequestTracker R) (id : ℕ)
        → IsCareful rt
        → lookup id rt.requests ≡ none
        → IsCareful (add_request id rt).0
    resolved :
        (rt : RequestTracker R) (id : ℕ) (response : R)
        → IsCareful rt
        → IsCareful (resolve_request id response rt).0
    removed :
        (rt : RequestTracker R) (id c : ℕ)
        → IsCareful rt
        → lookup id rt.requests ≡ some c
        → IsCareful (remove_request id rt)
    timed :
        (rt : RequestTracker R) (id fires_at : ℕ)
        → IsCareful rt
        → IsCareful (setup_timeout id fires_at rt)

  IsCounted : RequestTracker R → Type 0
  IsCounted rt = HasDistinctKeys rt.requests × (get_pending_count rt ≡ pos (length rt.requests))

  resolve_request-IsCounted :
      (rt : RequestTracker R) (id : ℕ) (response : R)
      → IsCounted rt
      → IsCounted (resolve_request id response rt).0
  unfolding IsCounted resolve_request get_pending_count stop_timer
  resolve_request-IsCounted rt id response (d, e) = elim (Option-cases (lookup id rt.requests)) [
    | inl h ↦ rw h (d, e)
    | inr (c, h) ↦ rw h (
      erase-HasDistinctKeys id rt.requests d,
      forget-count id c rt.requests rt.pending_count d h e,
    )
  ]

  -- In every careful use, the count of pending requests is the number of requests that wait.
  pub get_pending_count-exact :
      (rt : RequestTracker R)
      → IsCareful rt
      → HasDistinctKeys rt.requests × (get_pending_count rt ≡ pos (length rt.requests))
  unfolding IsCounted add_request remove_request setup_timeout get_pending_count stop_timer
  get_pending_count-exact rt started = (tt, refl)
  get_pending_count-exact rt (added before id careful fresh) =
      let (d, e) = get_pending_count-exact before careful in
      (
        insert-HasDistinctKeys id before.next_channel before.requests d,
        ap incremented e
            ∙ ap pos (
                let e' : suc (length before.requests)
                    ≡ length (insert id before.next_channel before.requests) =
                  omega (arith, length-insert_new id before.next_channel before.requests fresh) in
                e'),
      )
  get_pending_count-exact rt (resolved before id response careful) =
      resolve_request-IsCounted before id response (get_pending_count-exact before careful)
  get_pending_count-exact rt (removed before id c careful present) =
      let (d, e) = get_pending_count-exact before careful in
      (
        erase-HasDistinctKeys id before.requests d,
        forget-count id c before.requests before.pending_count d present e,
      )
  get_pending_count-exact rt (timed before id fires_at careful) =
      get_pending_count-exact before careful

  offer_response-empty :
      (c : ℕ) (r : R) (m : Dict ℕ R) → lookup c m ≡ none → lookup c (offer_response c r m) ≡ some r
  unfolding offer_response
  offer_response-empty c r m h = rw (offer_response, h) (lookup-insert_self c r m)

  -- The response to a request that waits on an empty channel is put on that channel, the request and
  -- its timer are forgotten, the other requests wait as before, and a second response to the same
  -- request is refused and changes nothing.
  pub resolve_request-delivers :
      (rt : RequestTracker R) (id c : ℕ) (r : R)
      → lookup id rt.requests ≡ some c
      → lookup c rt.buffered ≡ none
      → ((resolve_request id r rt).1 ≡ true)
        × (lookup c (resolve_request id r rt).0.buffered ≡ some r)
        × (lookup id (resolve_request id r rt).0.timeouts ≡ none)
        × ((j : ℕ) → id ≢ j → lookup j (resolve_request id r rt).0.requests ≡ lookup j rt.requests)
        × ((late : R)
            → resolve_request id late (resolve_request id r rt).0
              ≡ ((resolve_request id r rt).0, false))
  unfolding resolve_request stop_timer
  resolve_request-delivers rt id c r h empty = rw h (
    refl,
    offer_response-empty c r rt.buffered empty,
    lookup-erase_self id rt.timeouts,
    λ j other. lookup-erase_ne id j rt.requests other,
    λ late. rw (lookup-erase_self id rt.requests) refl,
  )

  -- Where the same id is added while it waits, or a request is removed that does not wait (its timer
  -- fired while the response was handled, or the send failed after the timer), the count of a careful
  -- tracker is no longer the number of requests that wait.
  pub get_pending_count-drifts :
      (rt : RequestTracker R) (id c : ℕ)
      → IsCareful rt
      → (lookup id rt.requests ≡ none
          → get_pending_count (remove_request id rt) ≢ pos (length (remove_request id rt).requests))
        × (lookup id rt.requests ≡ some c
            → get_pending_count (add_request id rt).0 ≢ pos (length (add_request id rt).0.requests))
  unfolding get_pending_count remove_request add_request stop_timer
  get_pending_count-drifts rt id c careful =
      let (d, e) = get_pending_count-exact rt careful in
      (
        λ absent h. decremented-differs (length rt.requests) (
            sym (ap decremented e)
            ∙ h
            ∙ ap (λ (m : Dict ℕ ℕ). pos (length m)) (erase-absent id rt.requests absent)),
        λ present h. incremented-differs (length rt.requests) (
            sym (ap incremented e)
            ∙ h
            ∙ ap pos (length-insert_old id rt.next_channel c rt.requests present)),
      )
