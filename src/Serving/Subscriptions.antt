-- ===== src/Serving/Subscriptions.antt =====
-- The resource subscriptions of a session (server/resource.go): the updates that the requests
-- resources/subscribe and resources/unsubscribe make, and what they make of the set of subscriptions.
use gomcp.Prelude.{
  ◌≡◌, refl, Bool, true, false, not, ◌&&◌, ◌||◌, inl, inr, Bool-cases, arith, List, [], ◌∷◌, ◌++◌,
  Key, ◌==◌, ==_iff, if◌then◌else◌, string_key,
}

module _ {ℓ} {K : Type ℓ} ⦃key : Key K⦄ where
  -- Whether the session is subscribed to a URI.
  unfoldable pub is_subscribed : K → List K → Bool
  is_subscribed uri [] = false
  is_subscribed uri (x ∷ xs) = if x == uri then true else is_subscribed uri xs

  -- Subscribing: a new URI goes to the end.
  unfoldable pub with_subscription : K → List K → List K
  with_subscription uri xs = if is_subscribed uri xs then xs else xs ++ (uri ∷ [])

  unfoldable pub last_of : K → List K → K
  last_of x [] = x
  last_of x (y ∷ ys) = last_of y ys

  unfoldable pub without_last : K → List K → List K
  without_last x [] = []
  without_last x (y ∷ ys) = x ∷ without_last y ys

  -- The last element takes the first place, and the list ends before it.
  unfoldable pub swap_last : List K → List K
  swap_last [] = []
  swap_last (x ∷ xs) = last_of x xs ∷ without_last x xs

  -- Unsubscribing: the last element takes the place of the first one found.
  unfoldable pub without_subscription : K → List K → List K
  without_subscription uri [] = []
  without_subscription uri (x ∷ xs) =
      if x == uri then swap_last xs else x ∷ without_subscription uri xs

  -- No URI stands twice.
  abbrev pub AllDistinct : List K → Type 0
  AllDistinct [] = Unit
  AllDistinct (x ∷ xs) = (is_subscribed x xs ≡ false) × AllDistinct xs

  is_subscribed-append :
      (j i : K) (xs : List K) → is_subscribed j (xs ++ (i ∷ [])) ≡ (is_subscribed j xs || i == j)
  unfolding is_subscribed
  is_subscribed-append j i [] = ground arith
  is_subscribed-append j i (x ∷ xs) = ground (arith, is_subscribed-append j i xs)

  append-AllDistinct :
      (i : K) (xs : List K)
      → AllDistinct xs
      → is_subscribed i xs ≡ false
      → AllDistinct (xs ++ (i ∷ []))
  unfolding is_subscribed
  append-AllDistinct i [] d h = (refl, tt)
  append-AllDistinct i (x ∷ xs) (fresh, d) h =
      ground (arith, is_subscribed-append x i xs, ==_iff x i, ==_iff i x, append-AllDistinct i xs d)

  is_subscribed-swap :
      (j x : K) (xs : List K)
      → is_subscribed j (last_of x xs ∷ without_last x xs) ≡ is_subscribed j (x ∷ xs)
  unfolding is_subscribed last_of without_last
  is_subscribed-swap j x [] = refl
  is_subscribed-swap j x (y ∷ ys) = ground (arith, is_subscribed-swap j y ys)

  pub is_subscribed-swap_last :
      (j : K) (xs : List K) → is_subscribed j (swap_last xs) ≡ is_subscribed j xs
  unfolding swap_last
  is_subscribed-swap_last j [] = refl
  is_subscribed-swap_last j (x ∷ xs) = is_subscribed-swap j x xs

  -- What stands before the last is a part of the whole.
  is_subscribed-without_last :
      (j x : K) (xs : List K)
      → is_subscribed j (x ∷ xs) ≡ false
      → is_subscribed j (without_last x xs) ≡ false
  unfolding is_subscribed without_last
  is_subscribed-without_last j x [] h = refl
  is_subscribed-without_last j x (y ∷ ys) h = ground (arith, is_subscribed-without_last j y ys)

  is_subscribed-last :
      (x j : K) (xs : List K) → is_subscribed j (x ∷ xs) ≡ false → (last_of x xs == j) ≡ false
  unfolding is_subscribed last_of
  is_subscribed-last x j [] h = ground arith
  is_subscribed-last x j (y ∷ ys) h = is_subscribed-last y j ys (ground arith)

  swap-AllDistinct :
      (x : K) (xs : List K)
      → AllDistinct (x ∷ xs)
      → (is_subscribed (last_of x xs) (without_last x xs) ≡ false) × AllDistinct (without_last x xs)
  unfolding is_subscribed last_of without_last
  swap-AllDistinct x [] d = (refl, tt)
  swap-AllDistinct x (y ∷ ys) (fresh, d) = ground (
    arith,
    swap-AllDistinct y ys d,
    is_subscribed-last y x ys fresh,
    ==_iff (last_of y ys) x,
    ==_iff x (last_of y ys),
    is_subscribed-without_last x y ys fresh,
  )

  swap_last-AllDistinct : (xs : List K) → AllDistinct xs → AllDistinct (swap_last xs)
  unfolding swap_last
  swap_last-AllDistinct [] d = tt
  swap_last-AllDistinct (x ∷ xs) d = swap-AllDistinct x xs d

  is_subscribed-without_subscription :
      (j i : K) (xs : List K)
      → AllDistinct xs
      → is_subscribed j (without_subscription i xs) ≡ (not (i == j) && is_subscribed j xs)
  unfolding is_subscribed without_subscription
  is_subscribed-without_subscription j i [] d = ground arith
  is_subscribed-without_subscription j i (x ∷ xs) (fresh, d) = ground (
    arith,
    is_subscribed-without_subscription j i xs d,
    is_subscribed-swap_last j xs,
    ==_iff x i,
    ==_iff x j,
    ==_iff i j,
  )

  without_subscription-AllDistinct :
      (i : K) (xs : List K) → AllDistinct xs → AllDistinct (without_subscription i xs)
  unfolding is_subscribed without_subscription
  without_subscription-AllDistinct i [] d = tt
  without_subscription-AllDistinct i (x ∷ xs) (fresh, d) = ground (
    arith,
    swap_last-AllDistinct xs d,
    without_subscription-AllDistinct i xs d,
    is_subscribed-without_subscription x i xs d,
  )

  -- On a list without a URI that stands twice, subscribing and unsubscribing are the insertion and
  -- the removal of a set, and leave such a list.
  pub subscriptions-refine_set :
      (xs : List K)
      → AllDistinct xs
      → (i : K)
      → AllDistinct (with_subscription i xs)
        × AllDistinct (without_subscription i xs)
        × ((j : K) → is_subscribed j (with_subscription i xs) ≡ (i == j || is_subscribed j xs))
        × ((j : K)
            → is_subscribed j (without_subscription i xs) ≡ (not (i == j) && is_subscribed j xs))
  unfolding with_subscription
  subscriptions-refine_set xs d i = (
    elim (Bool-cases (is_subscribed i xs)) [
      | inl h ↦ rw h d
      | inr h ↦ rw h (append-AllDistinct i xs d h)
    ],
    without_subscription-AllDistinct i xs d,
    λ j. ground (arith, is_subscribed-append j i xs, ==_iff i j),
    λ j. is_subscribed-without_subscription j i xs d,
  )
