-- ===== src/Progress/Rates.antt =====
-- How often a limiter lets a notification through.
use gomcp.Prelude.{
  ℕ, suc, ◌+◌, ◌-◌, ◌≤◌, ◌<◌, ◌≡◌, true, false, List, [], ◌∷◌, leb, if◌then◌else◌, ℤ, pos, negsuc,
  arith, to_nat, Bool-cases, inl, inr, ◌⊎◌, refl, sym, ◌∙◌,
}
use gomcp.Progress.RateLimiter.{
  ProgressRateLimiter, can_send_notification, allow, reset_window, reaches, counted, second,
}

-- How many of the calls at these times are allowed, one after the other.
unfoldable pub allowed : ProgressRateLimiter → List ℕ → ℕ
allowed prl [] = 0
allowed prl (now ∷ times) =
    let asked = can_send_notification prl now in
    let rest = allowed asked.0 times in if asked.1 then suc rest else rest

-- The limit, where a negative one allows nothing.
abbrev pub limit : ProgressRateLimiter → ℕ
limit prl = to_nat prl.max_notifications_per_second

-- Times that never go back, from a first one on, all within a second of `start`.
abbrev pub WithinSecond : ℕ → ℕ → List ℕ → Type 0
WithinSecond start from [] = Unit
WithinSecond start from (t ∷ ts) = (from ≤ t) × (t < start + second) × WithinSecond start t ts

reaches-leb : (n : ℕ) (z : ℤ) → reaches n z ≡ leb (to_nat z) n
reaches-leb n (pos k) = refl
reaches-leb n (negsuc k) = ground arith

-- Within the window, the answer depends on the count.
can_send_within :
    (prl : ProgressRateLimiter) (now : ℕ)
    → now < prl.window_start + second
    → can_send_notification prl now ≡ allow now prl
unfolding can_send_notification reset_window
can_send_within prl now h =
    let e : leb second (now - prl.window_start) ≡ false = ground arith in rw e

-- After it, the window starts again.
can_send_after :
    (prl : ProgressRateLimiter) (now : ℕ)
    → prl.window_start + second ≤ now
    → can_send_notification prl now
      ≡ allow now (record prl { window_start = now; notification_count = 0 })
unfolding can_send_notification reset_window
can_send_after prl now h = let e : leb second (now - prl.window_start) ≡ true = ground arith in rw e

-- What an answer of `allow` leads to, for the calls that follow.
allowed-allow :
    (prl : ProgressRateLimiter) (now : ℕ) (p : ProgressRateLimiter) (times : List ℕ)
    → can_send_notification p now ≡ allow now prl
    → ((limit prl ≤ prl.notification_count) × (allowed p (now ∷ times) ≡ allowed prl times))
      ⊎ ((prl.notification_count < limit prl)
          × (allowed p (now ∷ times) ≡ suc (allowed (counted now prl) times)))
unfolding allowed
allowed-allow prl now p times e =
    elim (Bool-cases (reaches prl.notification_count prl.max_notifications_per_second)) [
      | inl full ↦
          let l =
            sym (reaches-leb prl.notification_count prl.max_notifications_per_second) ∙ full in
          inl (ground arith, rw (e, full) refl)
      | inr free ↦
          let l =
            sym (reaches-leb prl.notification_count prl.max_notifications_per_second) ∙ free in
          inr (ground arith, rw (e, free) refl)
    ]

-- Within one window no more calls are allowed than the count leaves.
allowed_within :
    (prl : ProgressRateLimiter) (from : ℕ) (times : List ℕ)
    → WithinSecond prl.window_start from times
    → allowed prl times ≤ limit prl - prl.notification_count
unfolding allowed
allowed_within prl from [] w = omega arith
allowed_within prl from (t ∷ ts) (le, lt, w) =
    elim (allowed-allow prl t prl ts (can_send_within prl t lt)) [
      | inl (full, e) ↦ omega (arith, e, full, allowed_within prl t ts w)
      | inr (free, e) ↦ omega (arith, e, free, allowed_within (counted t prl) t ts w)
    ]

widen :
    (start start' from : ℕ) (times : List ℕ)
    → start ≤ start'
    → WithinSecond start from times
    → WithinSecond start' from times
widen start start' from [] h w = tt
widen start start' from (t ∷ ts) h (le, lt, w) =
    (le, (let e : t < start' + second = omega arith in e), widen start start' t ts h w)

-- In any second, with times that do not go back, a limiter allows at most twice its limit: the
-- limit before its window starts again, and the limit after.
pub allowed-bounded :
    (prl : ProgressRateLimiter) (start from : ℕ) (times : List ℕ)
    → start ≤ from
    → WithinSecond start from times
    → allowed prl times ≤ (limit prl - prl.notification_count) + limit prl
unfolding allowed
allowed-bounded prl start from [] h w = omega arith
allowed-bounded prl start from (t ∷ ts) h (le, lt, w) =
    elim (Bool-cases (leb (prl.window_start + second) t)) [
      | inl after ↦
          elim (allowed-allow (record prl { window_start = t; notification_count = 0 }) t prl ts
            (can_send_after prl t (ground arith))) [
              | inl (full, e) ↦ omega (
                arith,
                e,
                full,
                allowed_within (record prl { window_start = t; notification_count = 0 }) t ts
                    (widen start t t ts (omega arith) w),
              )
              | inr (free, e) ↦ omega (
                arith,
                e,
                free,
                allowed_within (counted t (record prl { window_start = t; notification_count = 0 }))
                    t ts (widen start t t ts (omega arith) w),
              )
            ]
      | inr within ↦ elim (allowed-allow prl t prl ts (can_send_within prl t (ground arith))) [
        | inl (full, e) ↦ omega (arith, e, full, allowed-bounded prl start t ts (omega arith) w)
        | inr (free, e) ↦
            omega (arith, e, free, allowed-bounded (counted t prl) start t ts (omega arith) w)
      ]
    ]
