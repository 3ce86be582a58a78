-- ===== src/Examples/Listener.antt =====
-- A channel with two clients, whose threads have both counted themselves.
use koheron_server.Base.{
  ◌<◌, ◌≤◌, ◌≡◌, ◌^◌, ◌+◌, refl, [], ◌∷◌, ◌++◌, arith, true, false, pos, minus_one, is_neg,
}
use koheron_server.Listener.{
  TcpAnswers, create_tcp_listening, create_unix_listening, OptionAnswers, open_tcp_communication,
  new_endpoint, init,
}
use koheron_server.Listener.Threads.{
  spawned, counted, advance, Channel, is_max_threads, comm_round, start_channel, stepped, accepts,
  advances, Reach, begin, next,
}
use koheron_server.Listener.Schedule.{IsAccounted, IsPrompt, Reach-IsAccounted, Reach-prompt_le}
use koheron_server.Listener.Races.{Any, limit_overshot}
use koheron_server.Listener.Setup.{IsKept, descriptors-IsKept}

abbrev one_accepted : Channel
one_accepted = comm_round 2 (pos 5) start_channel

abbrev one_counted : Channel
one_counted = stepped 0 [] spawned [] one_accepted

abbrev two_accepted : Channel
two_accepted = comm_round 2 (pos 6) one_counted

abbrev two_counted : Channel
two_counted = stepped 0 [] spawned (counted ∷ []) two_accepted

first_client : Reach 2 IsPrompt one_counted
unfolding comm_round is_max_threads advance
first_client =
    next (next begin (accepts (pos 5) refl refl refl)) (advances 0 [] spawned [] refl refl)

both_clients : Reach 2 IsPrompt two_counted
unfolding comm_round is_max_threads advance
both_clients =
    next (next first_client (accepts (pos 6) refl refl refl))
      (advances 0 [] spawned (counted ∷ []) refl refl)

both_counted : two_counted.threads ≡ [] ++ (counted ∷ counted ∷ [])
unfolding comm_round is_max_threads advance
both_counted = refl

small_limit : 2 + 1 < 2 ^ 31
small_limit = omega arith

Reach-IsAccounted_example : IsAccounted two_counted
Reach-IsAccounted_example = Reach-IsAccounted both_clients

Reach-prompt_le_example : two_counted.shared.num_threads ≤ 2
Reach-prompt_le_example = Reach-prompt_le small_limit both_clients

-- Five sessions at once where two are the limit.
limit_overshot_example : (ch : Channel) × Reach 2 Any ch × (ch.shared.num_threads ≡ 5)
limit_overshot_example = limit_overshot 2 5 (omega arith) small_limit (omega arith)

abbrev bind_fails : TcpAnswers
bind_fails = record { opened = pos 3; reuse_addr = pos 0; no_delay = pos 0; bound = minus_one }

abbrev no_send_buffer : OptionAnswers
no_send_buffer = record { send_buffer = minus_one; receive_buffer = pos 0; no_delay = pos 0 }

descriptors-IsKept_example :
    IsKept (pos 3) (create_tcp_listening bind_fails)
    × IsKept (pos 4) (create_unix_listening (pos 4) (pos 0))
    × IsKept (pos 5) (open_tcp_communication (pos 5) true no_send_buffer)
descriptors-IsKept_example =
    descriptors-IsKept bind_fails (pos 4) (pos 0) (pos 5) true no_send_buffer

created : is_neg (init (pos 3) (new_endpoint 10)).0 ≡ false
unfolding init
created = refl
