-- ===== src/Login/Tests.antt =====
-- The theorems on connections and logins at concrete attempts and players.
use rubyserver.Base.{◌<◌, ◌≡◌, refl, true, false, [], ◌∷◌, none, some, arith, ◌⊎◌, replicate}
use rubyserver.Login.Ban.{IpConnectMap}
use rubyserver.Login.Ban.Flood.{connect, answers, connect-flood, connect-patient}
use rubyserver.Login.WaitList.{
  Player, WaitListInfo, find_client, find_in_wait, find_in, enqueue, cleanup, cleanup_list,
  has_expired, client_login, may_always_login, has_room, get_client_slot, login_queued, login_at,
  erase,
}
use rubyserver.Login.WaitList.Queues.{
  times, times_queued, IsQueues, client_login-IsQueues, client_login-room, cleanup_list-passed,
}
use rubyserver.Login.WaitList.Slots.{end_slot, client_login-newcomer}

abbrev nobody : IpConnectMap
nobody ip = none

connect-flood_example :
    connect 1000000 (100 ∷ 250 ∷ 0 ∷ 7 ∷ 30 ∷ 250 ∷ 250 ∷ []) 0x0100007F nobody ≡ answers 5 8
connect-flood_example =
    connect-flood 1000000 (100 ∷ 250 ∷ 0 ∷ 7 ∷ 30 ∷ 250 ∷ 250 ∷ []) 0x0100007F nobody refl
      ((
        omega arith,
        (
          omega arith,
          (omega arith, (omega arith, (omega arith, (omega arith, (omega arith, tt))))),
        ),
      ))
      (omega arith)

connect-patient_example : connect 1000000 (5001 ∷ 60000 ∷ []) 0x0100007F nobody ≡ replicate 3 true
connect-patient_example =
    connect-patient 1000000 (5001 ∷ 60000 ∷ []) 0x0100007F nobody refl
      ((omega arith, (omega arith, tt))) (omega arith)

abbrev ash : Player
ash = record { guid = 1; can_always_login = false; account_type = 1; premium = false }

abbrev misty : Player
misty = record { guid = 2; can_always_login = false; account_type = 1; premium = true }

-- Misty waits, with a timeout that has passed at 100000.
abbrev queues : WaitListInfo
queues = record {
  priority_wait_list = record { timeout = 90000; player_guid = 2 } ∷ [];
  wait_list = [];
}

queues-IsQueues : IsQueues queues
queues-IsQueues guid = unfold times in ground arith

abbrev ash_waits : WaitListInfo
ash_waits = enqueue 100000 ash (cleanup 100000 queues)

-- Ash at the front of the other queue.
abbrev ash_first : WaitListInfo
ash_first = record {
  priority_wait_list = [];
  wait_list = record { timeout = 120000; player_guid = 1 } ∷ [];
}

ash_is_plain : may_always_login ash ≡ false
ash_is_plain = unfold may_always_login in refl

queues_are_full : has_room 10 9 queues ≡ false
queues_are_full = unfold has_room in refl

ash_is_new : times_queued 1 queues ≡ 0
ash_is_new = unfold times in refl

client_login-newcomer_example :
    (client_login 10 9 100000 ash queues ≡ some (false, ash_waits))
    × (get_client_slot 1 ash_waits ≡ end_slot ash (cleanup 100000 queues))
client_login-newcomer_example =
    client_login-newcomer 10 9 100000 ash queues ash_is_plain queues_are_full ash_is_new

ash_waits_at_2 : get_client_slot 1 ash_waits ≡ 2
unfolding get_client_slot find_client find_in_wait find_in enqueue cleanup cleanup_list has_expired
ash_waits_at_2 = refl

ash_refused : client_login 10 9 100000 ash queues ≡ some (false, ash_waits)
ash_refused =
    (client_login-newcomer 10 9 100000 ash queues ash_is_plain queues_are_full ash_is_new).0

ash_enters :
    client_login 10 9 100000 ash ash_first
    ≡ some (true, record { priority_wait_list = []; wait_list = [] })
unfolding client_login may_always_login has_room login_queued find_client find_in_wait find_in
    login_at cleanup cleanup_list has_expired erase
ash_enters = refl

client_login-IsQueues_example :
    IsQueues ash_waits × ((false ≡ true) ⊎ (times_queued 1 ash_waits ≡ 1))
client_login-IsQueues_example =
    client_login-IsQueues 10 9 100000 ash queues ash_waits false queues-IsQueues ash_refused

client_login-room_example : 9 < 10
client_login-room_example =
    client_login-room 10 9 100000 ash ash_first (record { priority_wait_list = []; wait_list = [] })
      (omega arith) ash_is_plain ash_enters

cleanup_list-passed_example :
    cleanup_list 100000 queues.priority_wait_list ≡ queues.priority_wait_list
cleanup_list-passed_example =
    cleanup_list-passed 100000 queues.priority_wait_list (omega arith) ((omega arith, tt))

-- With one place free Misty is let in from the front, where erase is called on the other queue.
misty_undefined : client_login 10 9 100000 misty queues ≡ none
unfolding client_login may_always_login has_room login_queued find_client find_in_wait find_in
    login_at cleanup cleanup_list has_expired
misty_undefined = refl
