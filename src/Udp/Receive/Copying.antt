-- ===== src/Udp/Receive/Copying.antt =====
-- The two loops of `reassembleMessage` join the fragments in the order of their indices.
use native.Mathlib.Nat.{mod-eq_of_lt}
use gomcp.Prelude.{
  ℕ, zero, suc, ◌+◌, ◌-◌, ◌%◌, ◌^◌, ◌<◌, ◌≡◌, refl, sym, ap, ◌∙◌, some, List, [], ◌++◌,
  append_assoc, arith, length, take, drop, replicate, take-append, drop-append, take-all, drop-drop,
  drop-replicate, length-append, length-replicate, Dict, lookup, nat_key, ok,
}
use gomcp.Udp.Transport.{FragmentInfo}
use gomcp.Udp.Send.Fragments.{joined}
use gomcp.Udp.Receive.{copy_at, total_size, copy_fragments, reassemble, reassemble_total}

copy_at-append :
    (before src : List ℕ) (r : ℕ)
    → copy_at (before ++ replicate (length src + r) 0) (length before) src
      ≡ (before ++ src) ++ replicate r 0
copy_at-append before src r =
    ap
      (λ w.
        w ++ (take (length whole - length before) src ++ drop (length before + length src) whole))
      (take-append before zeros)
    ∙ ap (λ w. before ++ (w ++ drop (length before + length src) whole))
        (take-all _ src
          (omega (arith, length-append before zeros, length-replicate (length src + r) (zero))))
    ∙ ap (λ w. before ++ (src ++ w))
        (sym (drop-drop (length before) (length src) whole)
          ∙ ap (drop (length src)) (drop-append before zeros)
          ∙ drop-replicate (length src) r 0)
    ∙ sym (append_assoc before src (replicate r 0))
  where
    zeros : List ℕ
    zeros = replicate (length src + r) 0

    whole : List ℕ
    whole = before ++ zeros

-- The fragments `i`, …, `i + n - 1` are there, with the given contents.
abbrev pub Holds : Dict ℕ FragmentInfo → (ℕ → List ℕ) → ℕ → ℕ → Type 0
Holds frs c zero i = Unit
Holds frs c (suc n) i =
    ((f : FragmentInfo) × (lookup i frs ≡ some f) × (f.content ≡ c i)) × Holds frs c n (i + 1)

total_size-Holds :
    (id : ℕ) (frs : Dict ℕ FragmentInfo) (c : ℕ → List ℕ) (n i size : ℕ)
    → Holds frs c n i
    → total_size id frs n i size ≡ ok (size + length (joined c n i))
unfolding total_size
total_size-Holds id frs c zero i size h = ap ok (omega arith)
total_size-Holds id frs c (suc n) i size ((f, e, same), h) =
    rw (e, total_size)
      (total_size-Holds id frs c n (i + 1) (size + length f.content) h
        ∙ ap ok (omega (arith, ap length same, length-append (c i) (joined c n (i + 1)))))

copy_fragments-Holds :
    (frs : Dict ℕ FragmentInfo) (c : ℕ → List ℕ) (n i : ℕ) (before : List ℕ)
    → Holds frs c n i
    → copy_fragments frs n i (length before) (before ++ replicate (length (joined c n i)) 0)
      ≡ before ++ joined c n i
unfolding copy_fragments
copy_fragments-Holds frs c zero i before h = refl
copy_fragments-Holds frs c (suc n) i before ((f, e, same), h) =
    rw (e, copy_fragments)
      (ap
          (λ (k : ℕ).
            copy_fragments frs n (i + 1) offset
              (copy_at (before ++ replicate k 0) (length before) src))
          (omega (arith, ap length same, length-append (c i) rest))
        ∙ ap (copy_fragments frs n (i + 1) offset) (copy_at-append before src (length rest))
        ∙ ap
            (λ (k : ℕ).
              copy_fragments frs n (i + 1) k ((before ++ src) ++ replicate (length rest) 0))
            (sym (length-append before src))
        ∙ copy_fragments-Holds frs c n (i + 1) (before ++ src) h
        ∙ append_assoc before src rest
        ∙ ap (λ w. before ++ (w ++ rest)) same)
  where
    src : List ℕ
    src = f.content

    rest : List ℕ
    rest = joined c n (i + 1)

    offset : ℕ
    offset = length before + length src

reassemble_total-Holds :
    (id : ℕ) (frs : Dict ℕ FragmentInfo) (c : ℕ → List ℕ) (n : ℕ)
    → Holds frs c n 0
    → reassemble_total id frs n ≡ ok (joined c n 0)
unfolding reassemble_total
reassemble_total-Holds id frs c n h =
    rw (total_size-Holds id frs c n 0 0 h, reassemble_total)
      (ap ok (
        ap (λ (k : ℕ). copy_fragments frs n 0 0 (replicate k 0))
          (let e : 0 + length (joined c n 0) ≡ length (joined c n 0) = omega arith in e)
        ∙ copy_fragments-Holds frs c n 0 [] h))

-- With all of its `n` fragments there, and nothing else, a message is reassembled as their contents
-- in the order of the indices.
pub reassemble-Holds :
    (id : ℕ) (frs : Dict ℕ FragmentInfo) (c : ℕ → List ℕ) (n : ℕ)
    → length frs ≡ n
    → n < 2 ^ 16
    → Holds frs c n 0
    → reassemble id frs ≡ ok (joined c n 0)
unfolding reassemble
reassemble-Holds id frs c n e small h =
    ap (reassemble_total id frs) (ap (λ (k : ℕ). k % 2 ^ 16) e ∙ mod-eq_of_lt small)
    ∙ reassemble_total-Holds id frs c n h
