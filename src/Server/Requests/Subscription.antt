-- ===== src/Server/Requests/Subscription.antt =====
-- A client's subscription through the server's `execute`.
use koheron_server.Base.{
  ℕ, ◌+◌, ◌%◌, ◌^◌, ◌≡◌, ap, some, ltb, ◌==◌, ◌&&◌, if◌then◌else◌, length, count, pos, minus_one,
}
use koheron_server.PubSub.{Subscribers, channels_count, channel, subscribe, subscribe_request}
use koheron_server.PubSub.Counts.{subscribe-count}
use koheron_server.Server.Requests.{Host, subscribe_pubsub_num, subscribe_pubsub, execute}

-- If a client's number `c` was read, `execute` with the operation SUBSCRIBE_PUBSUB takes its 16 low
-- bits for the channel: if that is a channel, the result is 0 and the session of the command is
-- added to it unless it is there; otherwise the result is -1. No other subscription changes.
pub execute-subscribe :
    {T : Type 0} (host : Host T) (sess_id n c : ℕ) (t t' : T)
    → ((subs : Subscribers) (u : T) → host.subscribers (host.set_subscribers subs u) ≡ subs)
    → host.deserialize_channel t ≡ some (pos n, c, t')
    → length (host.subscribers t') ≡ channels_count
    → (t'' : T) × (execute host sess_id subscribe_pubsub_num t
        ≡ some (if ltb (c % 2 ^ 16) channels_count then pos 0 else minus_one, t''))
      × ((a k : ℕ)
          → count a (channel k (host.subscribers t''))
            ≡ count a (channel k (host.subscribers t'))
              + (if ltb (c % 2 ^ 16) channels_count
                    && (c % 2 ^ 16 == k
                        && (sess_id == a && count sess_id (channel k (host.subscribers t')) == 0))
                  then 1
                  else 0))
unfolding execute subscribe_pubsub subscribe_request
execute-subscribe host sess_id n c t t' stored read size =
    let subs = host.subscribers t' in
    let after = subscribe (c % 2 ^ 16) sess_id subs in
    (
      host.set_subscribers after.1 t',
      rw read (
          ap (λ r. some (r, host.set_subscribers after.1 t'))
            (subscribe-count 0 sess_id 0 (c % 2 ^ 16) subs size).0),
      λ a k. rw (stored after.1 t') (subscribe-count a sess_id k (c % 2 ^ 16) subs size).1,
    )
