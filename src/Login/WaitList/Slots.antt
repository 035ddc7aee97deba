-- ===== src/Login/WaitList/Slots.antt =====
-- The place in the queues that a newcomer gets.
use rubyserver.Base.{
  ℕ, suc, ◌+◌, ◌≡◌, ◌∙◌, true, false, List, [], ◌∷◌, ◌++◌, some, arith, if◌then◌else◌, length,
}
use rubyserver.Login.WaitList.{
  Wait, Player, WaitListInfo, find_in, find_in_wait, find_client, enqueue, login_at, login_queued,
  cleanup, client_login, may_always_login, has_room, get_client_slot, retry_at,
}
use rubyserver.Login.WaitList.Queues.{
  times, times_queued, times_queued-cleanup, client_login-queued,
}

find_in-none :
    (guid slot : ℕ) (ws : List Wait)
    → times guid ws ≡ 0
    → find_in guid slot ws ≡ (false, slot + length ws)
unfolding find_in times
find_in-none guid slot [] h = ground arith
find_in-none guid slot (w ∷ ws) h = ground (arith, h, find_in-none guid (suc slot) ws)

find_in-last :
    (guid slot t : ℕ) (ws : List Wait)
    → times guid ws ≡ 0
    → find_in guid slot (ws ++ (record { timeout = t; player_guid = guid } ∷ []))
      ≡ (true, slot + length ws)
unfolding find_in times
find_in-last guid slot t [] h = ground arith
find_in-last guid slot t (w ∷ ws) h = ground (arith, h, find_in-last guid (suc slot) t ws)

-- The slot of a player at the end of a queue: premium players wait in front of the others.
abbrev pub end_slot : Player → WaitListInfo → ℕ
end_slot player info =
    1 + length info.priority_wait_list + (if player.premium then 0 else length info.wait_list)

get_client_slot-enqueue :
    (time : ℕ) (player : Player) (info : WaitListInfo)
    → times_queued player.guid info ≡ 0
    → get_client_slot player.guid (enqueue time player info) ≡ end_slot player info
unfolding get_client_slot find_client find_in_wait enqueue
get_client_slot-enqueue time player info h = ground (
  arith,
  h,
  find_in-none player.guid 1 info.priority_wait_list,
  find_in-last player.guid 1 (retry_at time (length info.priority_wait_list + 1))
      info.priority_wait_list,
  find_in-last player.guid (1 + length info.priority_wait_list)
      (retry_at time (length info.priority_wait_list + length info.wait_list + 1)) info.wait_list,
)

login_queued-newcomer :
    (max_players online time : ℕ) (player : Player) (info : WaitListInfo)
    → times_queued player.guid info ≡ 0
    → login_queued max_players online time player info ≡ some (false, enqueue time player info)
unfolding login_queued login_at find_client find_in_wait
login_queued-newcomer max_players online time player info h = ground (
  arith,
  h,
  find_in-none player.guid 1 info.priority_wait_list,
  find_in-none player.guid (1 + length info.priority_wait_list) info.wait_list,
)

-- A newcomer who has to wait is refused, and getClientSlot then gives the place behind the priority
-- queue's players, and for one without premium behind those of the other queue too.
pub client_login-newcomer :
    (max_players online time : ℕ) (player : Player) (info : WaitListInfo)
    → may_always_login player ≡ false
    → has_room max_players online info ≡ false
    → times_queued player.guid info ≡ 0
    → (client_login max_players online time player info
        ≡ some (false, enqueue time player (cleanup time info)))
      × (get_client_slot player.guid (enqueue time player (cleanup time info))
          ≡ end_slot player (cleanup time info))
client_login-newcomer max_players online time player info h full new =
    let still_new : times_queued player.guid (cleanup time info) ≡ 0 =
      omega (arith, new, times_queued-cleanup player.guid time info) in
    (
      client_login-queued max_players online time player info h full
          ∙ login_queued-newcomer max_players online time player (cleanup time info) still_new,
      get_client_slot-enqueue time player (cleanup time info) still_new,
    )
