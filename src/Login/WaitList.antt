-- ===== src/Login/WaitList.antt =====
-- WaitingList of src/waitlist.cpp: the two queues in front of a full server. An iterator is the queue it
-- points into, with the player it was found by; a call of erase on a queue that the iterator does not
-- point into is undefined, and the answer is then `none`.
pub mod Queues
pub mod Slots
use rubyserver.Base.{
  ℕ, suc, ◌+◌, ◌-◌, ◌*◌, ◌%◌, ◌^◌, Bool, true, false, ◌&&◌, ◌||◌, List, [], ◌∷◌, ◌++◌, Option, none,
  some, ltb, leb, ◌==◌, if◌then◌else◌, length,
}

pub record Wait : Type 0 where
  pub timeout : ℕ
  pub player_guid : ℕ

-- What the source reads of a Player.
pub record Player : Type 0 where
  pub guid : ℕ
  pub can_always_login : Bool
  pub account_type : ℕ
  pub premium : Bool

abbrev pub account_type_gamemaster : ℕ
account_type_gamemaster = 4

pub record WaitListInfo : Type 0 where
  pub priority_wait_list : List Wait
  pub wait_list : List Wait

-- cleanupList: the difference is a size_t, which is at most 0 only when it is 0.
unfoldable pub has_expired : ℕ → Wait → Bool
has_expired time w = leb ((w.timeout + 2 ^ 64 - time) % 2 ^ 64) 0

unfoldable pub cleanup_list : ℕ → List Wait → List Wait
cleanup_list time [] = []
cleanup_list time (w ∷ ws) =
    let rest = cleanup_list time ws in if has_expired time w then rest else w ∷ rest

-- WaitingList::getTime, in seconds
unfoldable pub get_time : ℕ → ℕ
get_time slot =
    if ltb slot 5
    then 5
    else (if ltb slot 10
        then 10
        else (if ltb slot 20 then 20 else (if ltb slot 50 then 60 else 120)))

unfoldable pub get_timeout : ℕ → ℕ
get_timeout slot = get_time slot + 15

-- A loop of findClient: whether it returned from inside, and the slot it had reached.
unfoldable pub find_in : ℕ → ℕ → List Wait → Bool × ℕ
find_in guid slot [] = (false, slot)
find_in guid slot (w ∷ ws) =
    let rest = find_in guid (suc slot) ws in if w.player_guid == guid then (true, slot) else rest

pub data Place : Type 0 where
  in_priority in_wait at_end : Place

unfoldable pub find_in_wait : ℕ → ℕ → List Wait → Place × ℕ
find_in_wait guid slot ws =
    let (found, end) = find_in guid slot ws in (if found then in_wait else at_end, end)

unfoldable pub find_client : ℕ → WaitListInfo → Place × ℕ
find_client guid info =
    let (found, slot) = find_in guid 1 info.priority_wait_list in
    if found then (in_priority, slot) else find_in_wait guid slot info.wait_list

-- erase(it), and it->timeout = t
unfoldable pub erase : ℕ → List Wait → List Wait
erase guid [] = []
erase guid (w ∷ ws) = let rest = erase guid ws in if w.player_guid == guid then ws else w ∷ rest

unfoldable pub set_timeout : ℕ → ℕ → List Wait → List Wait
set_timeout guid t [] = []
set_timeout guid t (w ∷ ws) =
    let rest = set_timeout guid t ws in
    if w.player_guid == guid then record w { timeout = t } ∷ ws else w ∷ rest

unfoldable pub retry_at : ℕ → ℕ → ℕ
retry_at time slot = (time + get_timeout slot * 1000) % 2 ^ 64

-- emplace_back to the queue of the player
unfoldable pub enqueue : ℕ → Player → WaitListInfo → WaitListInfo
enqueue time player info =
    let slot = length info.priority_wait_list in
    let later = slot + length info.wait_list in
    if player.premium
    then record info {
      priority_wait_list =
          info.priority_wait_list
          ++ (record { timeout = retry_at time (slot + 1); player_guid = player.guid } ∷ []);
    }
    else record info {
      wait_list =
          info.wait_list
          ++ (record { timeout = retry_at time (later + 1); player_guid = player.guid } ∷ []);
    }

-- The part of clientLogin behind the two calls of cleanupList.
unfoldable pub login_at :
    Place → ℕ → ℕ → ℕ → ℕ → Player → WaitListInfo → Option (Bool × WaitListInfo)
login_at at_end slot max_players online time player info = some (false, enqueue time player info)
login_at in_wait slot max_players online time player info =
    if leb (online + slot) max_players
    then some (true, record info { wait_list = erase player.guid info.wait_list })
    else some (
      false,
      record info { wait_list = set_timeout player.guid (retry_at time slot) info.wait_list },
    )
login_at in_priority slot max_players online time player info =
    if leb (online + slot) max_players
    then none
    else some (
      false,
      record info {
        priority_wait_list = set_timeout player.guid (retry_at time slot) info.priority_wait_list;
      },
    )

unfoldable pub login_queued : ℕ → ℕ → ℕ → Player → WaitListInfo → Option (Bool × WaitListInfo)
login_queued max_players online time player info =
    let (place, slot) = find_client player.guid info in
    login_at place slot max_players online time player info

unfoldable pub cleanup : ℕ → WaitListInfo → WaitListInfo
cleanup time info = record {
  priority_wait_list = cleanup_list time info.priority_wait_list;
  wait_list = cleanup_list time info.wait_list;
}

abbrev pub is_empty : List Wait → Bool
is_empty [] = true
is_empty (w ∷ ws) = false

-- Who logs in with no look at the queues.
unfoldable pub may_always_login : Player → Bool
may_always_login player = player.can_always_login || leb account_type_gamemaster player.account_type

unfoldable pub has_room : ℕ → ℕ → WaitListInfo → Bool
has_room max_players online info =
    max_players == 0
    || (is_empty info.priority_wait_list && (is_empty info.wait_list && ltb online max_players))

-- clientLogin
unfoldable pub client_login : ℕ → ℕ → ℕ → Player → WaitListInfo → Option (Bool × WaitListInfo)
client_login max_players online time player info =
    if may_always_login player || has_room max_players online info
    then some (true, info)
    else login_queued max_players online time player (cleanup time info)

-- getClientSlot
unfoldable pub get_client_slot : ℕ → WaitListInfo → ℕ
get_client_slot guid info =
    let (place, slot) = find_client guid info in elim place [ at_end ↦ 0 | _ ↦ slot ]
