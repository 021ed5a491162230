-- ===== src/Progress/Subscriptions.antt =====
-- The channel of progress against what its history of subscriptions says.
use gomcp.Prelude.{
  ℕ, ◌≡◌, Bool, true, String, none, List, [], ◌∷◌, ◌++◌, if◌then◌else◌, lookup, string_key, ◌==◌,
  ==_iff, arith, refl, ◌∙◌, ap, lookup-insert, lookup-erase,
}
use gomcp.Progress.Notifications.{ProgressNotification, validate}
use gomcp.Progress.RateLimiter.{token_of}
use gomcp.Progress.Channel.{
  ProgressChannel, new_progress_channel, listeners_of, subscribe, unsubscribe, publish,
}

pub data ChannelCall : Type 0 where
  subscribes : String → ℕ → ChannelCall
  unsubscribes : String → ChannelCall

abbrev pub run_calls : List ChannelCall → ProgressChannel → ProgressChannel
run_calls [] pc = pc
run_calls (subscribes token l ∷ calls) pc = run_calls calls (subscribe pc token l)
run_calls (unsubscribes token ∷ calls) pc = run_calls calls (unsubscribe pc token)

-- The listeners of a token that a history leaves, from those that it had.
unfoldable pub subscribed : List ChannelCall → String → List ℕ → List ℕ
subscribed [] k ls = ls
subscribed (subscribes token l ∷ calls) k ls =
    subscribed calls k (if token == k then ls ++ (l ∷ []) else ls)
subscribed (unsubscribes token ∷ calls) k ls = subscribed calls k (if token == k then [] else ls)

listeners-subscribe :
    (pc : ProgressChannel) (token k : String) (l : ℕ)
    → pc.active ≡ true
    → listeners_of (subscribe pc token l) k
      ≡ (if token == k then listeners_of pc k ++ (l ∷ []) else listeners_of pc k)
unfolding subscribe listeners_of
listeners-subscribe pc token k l a = ground (
  arith,
  a,
  ==_iff token k,
  lookup-insert token k (listeners_of pc token ++ (l ∷ [])) pc.listeners,
)

listeners-unsubscribe :
    (pc : ProgressChannel) (token k : String)
    → listeners_of (unsubscribe pc token) k ≡ (if token == k then [] else listeners_of pc k)
unfolding unsubscribe listeners_of
listeners-unsubscribe pc token k = ground (arith, ==_iff token k, lookup-erase token k pc.listeners)

active-subscribe :
    (pc : ProgressChannel) (token : String) (l : ℕ)
    → pc.active ≡ true
    → (subscribe pc token l).active ≡ true
unfolding subscribe
active-subscribe pc token l a = ground (arith, a)

active-unsubscribe :
    (pc : ProgressChannel) (token : String)
    → pc.active ≡ true
    → (unsubscribe pc token).active ≡ true
unfolding unsubscribe
active-unsubscribe pc token a = a

active-run_calls :
    (calls : List ChannelCall) (pc : ProgressChannel)
    → pc.active ≡ true
    → (run_calls calls pc).active ≡ true
active-run_calls [] pc a = a
active-run_calls (subscribes token l ∷ calls) pc a =
    active-run_calls calls (subscribe pc token l) (active-subscribe pc token l a)
active-run_calls (unsubscribes token ∷ calls) pc a =
    active-run_calls calls (unsubscribe pc token) (active-unsubscribe pc token a)

listeners-run_calls :
    (calls : List ChannelCall) (pc : ProgressChannel) (k : String)
    → pc.active ≡ true
    → listeners_of (run_calls calls pc) k ≡ subscribed calls k (listeners_of pc k)
unfolding subscribed
listeners-run_calls [] pc k a = refl
listeners-run_calls (subscribes token l ∷ calls) pc k a =
    listeners-run_calls calls (subscribe pc token l) k (active-subscribe pc token l a)
    ∙ ap (subscribed calls k) (listeners-subscribe pc token k l a)
listeners-run_calls (unsubscribes token ∷ calls) pc k a =
    listeners-run_calls calls (unsubscribe pc token) k (active-unsubscribe pc token a)
    ∙ ap (subscribed calls k) (listeners-unsubscribe pc token k)

listeners-new : (k : String) → listeners_of new_progress_channel k ≡ []
unfolding listeners_of lookup
listeners-new k = refl

-- After any history of subscriptions on a new channel, publishing a valid notification calls the
-- listeners of its token, each as often as it has subscribed since the last unsubscription, in the
-- order of their subscriptions, and then those of the empty token, that listen to all.
pub publish-subscribed :
    (calls : List ChannelCall) (fails : ℕ → Bool) (n : ProgressNotification)
    → validate n ≡ none
    → (publish (run_calls calls new_progress_channel) fails n).0
      ≡ subscribed calls (token_of n) [] ++ subscribed calls "" []
unfolding publish
publish-subscribed calls fails n v =
    let pc = run_calls calls new_progress_channel in
    rw (active-run_calls calls new_progress_channel refl, v) (called (token_of n))
  where
    called :
        (k : String)
        → listeners_of (run_calls calls new_progress_channel) k
            ++ listeners_of (run_calls calls new_progress_channel) ""
          ≡ subscribed calls k [] ++ subscribed calls "" []
    called k = cc (
      listeners-run_calls calls new_progress_channel k refl,
      listeners-new k,
      listeners-run_calls calls new_progress_channel "" refl,
      listeners-new "",
    )
