-- ===== src/PubSub/Counts.antt =====
-- How often a session is subscribed, after each operation on the subscribers.
use koheron_server.Base.{
  ℕ, zero, suc, ◌+◌, ◌-◌, ◌<◌, ◌≡◌, refl, List, [], ◌∷◌, arith, ltb, ◌==◌, if◌then◌else◌, length,
  count, pos, minus_one, ◌&&◌,
}
use koheron_server.PubSub.{
  Subscribers, channels_count, channel, contains, push_back, add_subscriber, update, subscribe,
  back, pop_back, remove_subscriber, unsubscribe,
}

pub contains-count : (a : ℕ) (xs : List ℕ) → contains a xs ≡ ltb 0 (count a xs)
unfolding contains
contains-count a [] = refl
contains-count a (x ∷ xs) = ground (arith, contains-count a xs)

count-push_back :
    (a b : ℕ) (xs : List ℕ) → count a (push_back b xs) ≡ count a xs + (if b == a then 1 else 0)
count-push_back a b [] = ground arith
count-push_back a b (x ∷ xs) = omega (arith, count-push_back a b xs)

count-add_subscriber :
    (a sid : ℕ) (s : List ℕ)
    → count a (add_subscriber sid s) ≡ count a s + (if sid == a && count sid s == 0 then 1 else 0)
unfolding add_subscriber
count-add_subscriber a sid s = ground (arith, contains-count sid s, count-push_back a sid s)

count-pop_back : (a x : ℕ) (xs : List ℕ) → count a (back x xs ∷ pop_back x xs) ≡ count a (x ∷ xs)
count-pop_back a x [] = refl
count-pop_back a x (y ∷ ys) = omega (arith, count-pop_back a y ys)

count-remove_subscriber :
    (a sid : ℕ) (s : List ℕ)
    → count a (remove_subscriber sid s) ≡ count a s - (if sid == a then 1 else 0)
unfolding remove_subscriber
count-remove_subscriber a sid [] = ground arith
count-remove_subscriber a sid (x ∷ []) = ground arith
count-remove_subscriber a sid (x ∷ y ∷ ys) =
    ground (arith, count-pop_back a y ys, count-remove_subscriber a sid (y ∷ ys))

-- After `unsubscribe` the session is subscribed once less to each channel, if at all, and every
-- other session as often as before.
pub count-unsubscribe :
    (a sid c : ℕ) (subs : Subscribers)
    → count a (channel c (unsubscribe sid subs))
      ≡ count a (channel c subs) - (if sid == a then 1 else 0)
unfolding unsubscribe
count-unsubscribe a sid c [] = ground arith
count-unsubscribe a sid zero (s ∷ ss) = count-remove_subscriber a sid s
count-unsubscribe a sid (suc c) (s ∷ ss) = count-unsubscribe a sid c ss

count-update :
    (a sid c k : ℕ) (subs : Subscribers)
    → k < length subs
    → count a (channel c (update k (add_subscriber sid) subs))
      ≡ count a (channel c subs)
        + (if k == c && (sid == a && count sid (channel c subs) == 0) then 1 else 0)
count-update a sid c k [] h = absurd (omega arith)
count-update a sid zero zero (s ∷ ss) h = count-add_subscriber a sid s
count-update a sid (suc c) zero (s ∷ ss) h = ground arith
count-update a sid zero (suc k) (s ∷ ss) h = ground arith
count-update a sid (suc c) (suc k) (s ∷ ss) h = ground (arith, count-update a sid c k ss)

-- With a vector for each of the channels, `subscribe` on a valid channel succeeds and adds the
-- session to that channel unless it is there, and no other subscription changes. An invalid
-- channel is refused and nothing changes.
pub subscribe-count :
    (a sid c k : ℕ) (subs : Subscribers)
    → length subs ≡ channels_count
    → ((subscribe k sid subs).0 ≡ (if ltb k channels_count then pos 0 else minus_one))
      × (count a (channel c (subscribe k sid subs).1)
          ≡ count a (channel c subs)
            + (if ltb k channels_count && (k == c && (sid == a && count sid (channel c subs) == 0))
                then 1
                else 0))
unfolding subscribe
subscribe-count a sid c k subs h = ground (arith, count-update a sid c k subs)

length-update :
    (f : List ℕ → List ℕ) (k : ℕ) (subs : Subscribers) → length (update k f subs) ≡ length subs
length-update f k [] = refl
length-update f zero (s ∷ ss) = refl
length-update f (suc k) (s ∷ ss) = omega (arith, length-update f k ss)

pub length-subscribe :
    (k sid : ℕ) (subs : Subscribers) → length (subscribe k sid subs).1 ≡ length subs
unfolding subscribe
length-subscribe k sid subs = ground (arith, length-update (add_subscriber sid) k subs)

pub length-unsubscribe :
    (sid : ℕ) (subs : Subscribers) → length (unsubscribe sid subs) ≡ length subs
unfolding unsubscribe
length-unsubscribe sid [] = refl
length-unsubscribe sid (s ∷ ss) = omega (arith, length-unsubscribe sid ss)
