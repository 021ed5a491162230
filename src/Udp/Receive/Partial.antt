-- ===== src/Udp/Receive/Partial.antt =====
-- The fragments of one message while they arrive, in any order and any number of times.
use gomcp.Prelude.{
  ℕ, zero, suc, ◌+◌, ◌^◌, ◌≤◌, ◌<◌, ◌≡◌, refl, some, List, [], arith, length, All, ok, Dict, lookup,
  insert, HasDistinctKeys, insert-HasDistinctKeys, insert-All, lookup-All, lookup_of_full,
  KeysBelow, length-le-keys, keys-le-length, nat_key,
}
use gomcp.Udp.Transport.{FragmentInfo}
use gomcp.Udp.Send.Fragments.{joined}
use gomcp.Udp.Receive.{reassemble}
use gomcp.Udp.Receive.Copying.{Holds, reassemble-Holds}

module _ (c : ℕ → List ℕ) (n : ℕ) where
  -- Some of the message's `n` fragments, each with its own content.
  pub record IsPartial (frs : Dict ℕ FragmentInfo) : Type 0 where
    pub distinct : HasDistinctKeys frs
    pub below : KeysBelow n frs
    pub contents : All (λ e. e.1.content ≡ c e.0) frs

  pub IsPartial-nil : IsPartial []
  IsPartial-nil = record { distinct = tt; below = tt; contents = tt }

  pub insert-IsPartial :
      (i now : ℕ) (frs : Dict ℕ FragmentInfo)
      → i < n
      → IsPartial frs
      → IsPartial (insert i (record { received_time = now; content = c i }) frs)
  insert-IsPartial i now frs h p = record {
    distinct = insert-HasDistinctKeys i _ frs p.distinct;
    below = insert-All (λ e. e.0 < n) i _ frs h p.below;
    contents = insert-All (λ e. e.1.content ≡ c e.0) i _ frs refl p.contents;
  }

  -- Every fragment below `n` is there.
  abbrev pub IsComplete : Dict ℕ FragmentInfo → Type 0
  IsComplete frs = (i : ℕ) → i < n → (f : FragmentInfo) × (lookup i frs ≡ some f)

  pub length-IsComplete :
      (frs : Dict ℕ FragmentInfo) → IsPartial frs → IsComplete frs → length frs ≡ n
  length-IsComplete frs p h =
      omega (arith, length-le-keys n frs p.distinct p.below, keys-le-length n frs h)

  complete-Holds :
      (frs : Dict ℕ FragmentInfo) (k i : ℕ)
      → IsPartial frs
      → IsComplete frs
      → i + k ≤ n
      → Holds frs c k i
  complete-Holds frs zero i p h b = tt
  complete-Holds frs (suc k) i p h b =
      let found = h i (omega arith) in
      (
        (found.0, found.1, lookup-All (λ e. e.1.content ≡ c e.0) i found.0 frs p.contents found.1),
        complete-Holds frs k (i + 1) p h (omega arith),
      )

  -- Whenever as many of a message's fragments are there as it has, whatever the order they came in,
  -- reassembly joins them in the order of their indices.
  pub reassemble-full :
      (id : ℕ) (frs : Dict ℕ FragmentInfo)
      → n < 2 ^ 16
      → IsPartial frs
      → length frs ≡ n
      → reassemble id frs ≡ ok (joined c n 0)
  reassemble-full id frs small p e = reassemble-Holds id frs c n e small (
      complete-Holds frs n 0 p (λ i h. lookup_of_full n frs i p.distinct p.below e h) (omega arith))
