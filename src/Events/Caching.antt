-- ===== src/Events/Caching.antt =====
-- What the cache of the event system holds (addToCache and eventLoop, events/events.go).
use gomcp.Prelude.{
  ℕ, zero, suc, ◌+◌, ◌-◌, ◌≤◌, ◌<◌, ◌≡◌, ◌≢◌, refl, sym, ap, subst, ◌∙◌, Bool, true, false, inl,
  inr, Bool-cases, eqb, eqb_iff, arith, Option, some, List, [], ◌∷◌, ◌++◌, append_assoc, append-nil,
  length, length-append, drop, length-drop, drop-drop, if◌then◌else◌,
}
use gomcp.Events.{Event, Subject, add_to_cache, deliver_live, with_cache, handle_event}

module _ {ℓ} {A : Type ℓ} where
  -- The last elements, so many of them at most.
  abbrev pub last_n : ℕ → List A → List A
  last_n n xs = drop (length xs - n) xs

  drop-append-within :
      (k : ℕ) (xs ys : List A) → k ≤ length xs → drop k (xs ++ ys) ≡ drop k xs ++ ys
  drop-append-within zero xs ys h = refl
  drop-append-within (suc k) [] ys h = absurd (omega arith)
  drop-append-within (suc k) (x ∷ xs) ys h = drop-append-within k xs ys (omega arith)

  drop-eq : (j k : ℕ) (xs : List A) → j ≡ k → drop j xs ≡ drop k xs
  drop-eq j k xs e = ap (λ (i : ℕ). drop i xs) e

  last_n-append : (n : ℕ) (xs ys : List A) → last_n n (last_n n xs ++ ys) ≡ last_n n (xs ++ ys)
  last_n-append n xs ys =
      let k = length xs - n in
      let e = drop-append-within k xs ys (omega arith) in
      ap (last_n n) (sym e)
      ∙ drop-drop k (length (drop k (xs ++ ys)) - n) (xs ++ ys)
      ∙ drop-eq (k + (length (drop k (xs ++ ys)) - n)) (length (xs ++ ys) - n) (xs ++ ys)
          (omega (arith, length-drop k (xs ++ ys), length-append xs ys))

  length-last_n : (n : ℕ) (xs : List A) → length (last_n n xs) ≤ n
  length-last_n n xs = omega (arith, length-drop (length xs - n) xs)

module _ {ℓ} {M : Type ℓ} where
  add_to_cache-last :
      (size : ℕ) (evt : Event M) (cache : List (Event M))
      → 0 < size
      → length cache ≤ size
      → add_to_cache size evt cache ≡ some (last_n size (cache ++ (evt ∷ [])))
  unfolding add_to_cache
  add_to_cache-last size evt [] h g = elim (Bool-cases (eqb 0 size)) [
    | inl e ↦ absurd (let f = (eqb_iff 0 size).0 e in omega arith)
    | inr e ↦ rw e (ap some (sym (drop-eq (1 - size) 0 (evt ∷ []) (omega arith))))
  ]
  add_to_cache-last size evt (first ∷ rest) h g =
      let n = length-append rest (evt ∷ []) in
      elim (Bool-cases (eqb (length (first ∷ rest)) size)) [
        | inl e ↦ rw e (
            let f = (eqb_iff (length (first ∷ rest)) size).0 e in
            ap some (
              sym (
                drop-eq (suc (length (rest ++ (evt ∷ []))) - size) 1 ((first ∷ rest) ++ (evt ∷ []))
                  (omega arith))))
        | inr e ↦ rw e (
            let f : length (first ∷ rest) ≢ size = λ q.
              (let r = (eqb_iff (length (first ∷ rest)) size).1 q in
                let z : false ≡ true = sym e ∙ r in cc) in
            ap some (
              sym (
                drop-eq (suc (length (rest ++ (evt ∷ []))) - size) 0 ((first ∷ rest) ++ (evt ∷ []))
                  (omega arith))))
      ]

  pub add_to_cache-first :
      (size : ℕ) (evt : Event M) (cache : List (Event M))
      → cache ≡ []
      → eqb 0 size ≡ false
      → add_to_cache size evt cache ≡ some (evt ∷ [])
  unfolding add_to_cache
  add_to_cache-first size evt [] e h = rw h refl
  add_to_cache-first size evt (x ∷ xs) e h = cc

module _ {ℓ κ} {H : Type ℓ} {M : Type κ} where
  -- The loop's handling of events, one after the other.
  unfoldable pub handle_events : List (Event M) → Subject H M → Subject H M
  handle_events [] s = s
  handle_events (evt ∷ rest) s = handle_events rest (handle_event evt s)

  -- What a subject with replay looks like after the loop handled the events `past`.
  HasCached : ℕ → ℕ → List (Event M) → Subject H M → Type κ
  HasCached size count past s =
      (s.config.replay_enabled ≡ true)
      × (s.config.cache_size ≡ size)
      × (s.cache ≡ last_n size past)
      × (s.event_count ≡ count + length past)
      × (s.loop_runs ≡ true)

  pub handle_event-cached :
      (evt : Event M) (s : Subject H M) (cache : List (Event M))
      → s.config.replay_enabled ≡ true
      → add_to_cache s.config.cache_size evt s.cache ≡ some cache
      → handle_event evt s
        ≡ deliver_live evt (record s { event_count = s.event_count + 1; cache = cache })
  unfolding handle_event
  handle_event-cached evt s cache e h =
      ap
        (λ (b : Bool).
          if b
          then with_cache evt (add_to_cache s.config.cache_size evt s.cache)
              (record s { event_count = s.event_count + 1 })
          else deliver_live evt (record s { event_count = s.event_count + 1 }))
        e
      ∙ ap
          (λ (o : Option (List (Event M))).
            with_cache evt o (record s { event_count = s.event_count + 1 }))
          h

  handle_event-HasCached :
      (size count : ℕ) (past : List (Event M)) (evt : Event M) (s : Subject H M)
      → 0 < size
      → HasCached size count past s
      → HasCached size count (past ++ (evt ∷ [])) (handle_event evt s)
  unfolding HasCached
  handle_event-HasCached size count past evt s h (replay, e, c, n, runs) =
      let fits : length s.cache ≤ s.config.cache_size =
        subst (λ (k : ℕ). length s.cache ≤ k) (sym e)
          (subst (λ (xs : List (Event M)). length xs ≤ size) (sym c) (length-last_n size past)) in
      let positive : 0 < s.config.cache_size = omega (arith, e) in
      rw
        (handle_event-cached evt s (last_n s.config.cache_size (s.cache ++ (evt ∷ []))) replay
          (add_to_cache-last s.config.cache_size evt s.cache positive fits))
        (
          replay,
          e,
          ap (λ (k : ℕ). last_n k (s.cache ++ (evt ∷ []))) e
              ∙ ap (λ (xs : List (Event M)). last_n size (xs ++ (evt ∷ []))) c
              ∙ last_n-append size past (evt ∷ []),
          omega (arith, n, length-append past (evt ∷ [])),
          runs,
        )

  -- A subject with replay and a cache of a positive size, whose cache holds the last of the events that
  -- its loop handled, holds the last of all events, in their order and so many at most as the size,
  -- after its loop handled more; the loop still runs, and has counted every event.
  pub handle_events-cache :
      (size count : ℕ) (past evts : List (Event M)) (s : Subject H M)
      → 0 < size
      → s.config.replay_enabled ≡ true
      → s.config.cache_size ≡ size
      → s.cache ≡ last_n size past
      → s.event_count ≡ count + length past
      → s.loop_runs ≡ true
      → ((handle_events evts s).cache ≡ last_n size (past ++ evts))
        × ((handle_events evts s).event_count ≡ count + length (past ++ evts))
        × ((handle_events evts s).loop_runs ≡ true)
  unfolding handle_events HasCached
  handle_events-cache size count past [] s h replay e c n runs =
      let a = append-nil past in
      (c ∙ ap (last_n size) (sym a), omega (arith, n, length-append past []), runs)
  handle_events-cache size count past (evt ∷ rest) s h replay e c n runs =
      let (replay', e', c', n', runs') =
        handle_event-HasCached size count past evt s h (replay, e, c, n, runs) in
      let (x, y, z) =
        handle_events-cache size count (past ++ (evt ∷ [])) rest (handle_event evt s) h replay' e'
          c' n' runs' in
      let a = append_assoc past (evt ∷ []) rest in
      (x ∙ ap (last_n size) a, y ∙ ap (λ (xs : List (Event M)). count + length xs) a, z)
