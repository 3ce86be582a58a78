-- ===== src/PubSub.antt =====
-- core/pubsub.hpp and core/pubsub.tpp: the subscribers of each channel and the emission of events.
-- A session id is a number; a vector is a list, front first.
pub mod Counts
pub mod Emission
use koheron_server.Base.{
  ℕ, zero, suc, ◌≡◌, Option, none, some, List, [], ◌∷◌, map, arith, leb, ltb, ◌==◌, if◌then◌else◌,
  length, ◌>>=◌, ℤ, pos, minus_one, is_neg, Bool, true, false, negsuc, replicate, ◌%◌, ◌^◌,
}

-- `_subscribers`, one vector for each channel.
abbrev pub Subscribers : Type 0
Subscribers = List (List ℕ)

abbrev pub channels_count : ℕ
channels_count = 3

abbrev pub no_subscribers : Subscribers
no_subscribers = replicate channels_count []

-- `get<channel>()`
abbrev pub channel : ℕ → Subscribers → List ℕ
channel c [] = []
channel zero (s ∷ ss) = s
channel (suc c) (s ∷ ss) = channel c ss

-- `std::find(...) != end()`
unfoldable pub contains : ℕ → List ℕ → Bool
contains a [] = false
contains a (x ∷ xs) = let rest = contains a xs in if x == a then true else rest

-- `push_back`
abbrev push_back : ℕ → List ℕ → List ℕ
push_back a [] = a ∷ []
push_back a (x ∷ xs) = x ∷ push_back a xs

-- A session that has not subscribed goes to the end of the vector.
add_subscriber : ℕ → List ℕ → List ℕ
unfolding contains
add_subscriber sid s = if contains sid s then s else push_back sid s

-- The vector of the channel is replaced by what `f` makes of it.
abbrev update : ℕ → (List ℕ → List ℕ) → Subscribers → Subscribers
update c f [] = []
update zero f (s ∷ ss) = f s ∷ ss
update (suc c) f (s ∷ ss) = s ∷ update c f ss

-- `subscribe(channel, sid)`
unfoldable pub subscribe : ℕ → ℕ → Subscribers → ℤ × Subscribers
unfolding add_subscriber
subscribe c sid subs =
    if leb channels_count c then (minus_one, subs) else (pos 0, update c (add_subscriber sid) subs)

-- The request of a client names the channel by a uint32_t, which `PubSub::subscribe` takes as a
-- uint16_t.
unfoldable pub subscribe_request : ℕ → ℕ → Subscribers → ℤ × Subscribers
unfolding subscribe
subscribe_request c sid subs = subscribe (c % 2 ^ 16) sid subs

-- What is left of `x ∷ xs` when its last element takes the place of the one in front of it.
abbrev back : ℕ → List ℕ → ℕ
back x [] = x
back x (y ∷ ys) = back y ys

abbrev pop_back : ℕ → List ℕ → List ℕ
pop_back x [] = []
pop_back x (y ∷ ys) = x ∷ pop_back y ys

-- `swap(*it, s.back()); s.pop_back()` at the first element, with `xs` behind it.
abbrev swap_pop : List ℕ → List ℕ
swap_pop [] = []
swap_pop (x ∷ xs) = back x xs ∷ pop_back x xs

remove_subscriber : ℕ → List ℕ → List ℕ
remove_subscriber sid [] = []
remove_subscriber sid (x ∷ xs) = if x == sid then swap_pop xs else x ∷ remove_subscriber sid xs

-- `unsubscribe(sid)`, over all channels.
unfoldable pub unsubscribe : ℕ → Subscribers → Subscribers
unfolding remove_subscriber
unsubscribe sid [] = []
unsubscribe sid (s ∷ ss) = remove_subscriber sid s ∷ unsubscribe sid ss

-- `send` is that of the session with the given id; `none` if `get_session` throws.
module _ {T : Type 0} (send : ℕ → T → Option (ℤ × T)) where
  -- The loop of `emit`: the last error is kept.
  unfoldable pub emit_loop : List ℕ → ℤ → T → Option (ℤ × T)
  emit_loop [] err t = some (err, t)
  emit_loop (sid ∷ sids) err t =
      send sid t >>= λ (r, t'). emit_loop sids (if is_neg r then r else err) t'

  -- `emit<channel, event>(args...)`
  unfoldable pub emit : Bool → ℕ → Subscribers → T → Option (ℤ × T)
  unfolding emit_loop
  emit interrupted c subs t =
      if interrupted then some (pos 0, t) else emit_loop (channel c subs) (pos 0) t

  abbrev fmt_buff_len : ℕ
  fmt_buff_len = 1024

  -- The part of the string overload behind `snprintf`, which gave `ret`.
  emit_formatted : ℤ → ℕ → Subscribers → T → Option (ℤ × T)
  unfolding emit_loop
  emit_formatted (negsuc n) c subs t = some (minus_one, t)
  emit_formatted (pos n) c subs t =
      if leb fmt_buff_len n
      then some (minus_one, t)
      else if ltb 0 (length (channel c subs))
      then emit_loop (channel c subs) (pos 0) t
      else some (pos 0, t)

  -- `emit<channel, event>(str, args...)`
  unfoldable pub emit_text : Bool → ℤ → ℕ → Subscribers → T → Option (ℤ × T)
  unfolding emit_formatted
  emit_text interrupted ret c subs t =
      if interrupted then some (pos 0, t) else emit_formatted ret c subs t
