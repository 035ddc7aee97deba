-- ===== src/Login/WaitList/Queues.antt =====
-- What the queues hold, and what a login makes of them.
use rubyserver.Base.{
  ℕ, suc, ◌+◌, ◌-◌, ◌^◌, ◌≤◌, ◌<◌, ◌≡◌, refl, sym, ◌∙◌, Bool, true, false, ◌||◌, List, [], ◌∷◌,
  ◌++◌, some, arith, ◌==◌, if◌then◌else◌, length, Bool-cases, inl, inr, ◌⊎◌,
}
use rubyserver.Login.WaitList.{
  Wait, Player, WaitListInfo, has_expired, cleanup_list, find_in, Place, in_priority, in_wait,
  at_end, find_in_wait, find_client, erase, set_timeout, enqueue, login_at, login_queued, cleanup,
  client_login, may_always_login, has_room, retry_at,
}

-- How often a player stands in a queue, and in both.
unfoldable pub times : ℕ → List Wait → ℕ
times guid [] = 0
times guid (w ∷ ws) = (if w.player_guid == guid then 1 else 0) + times guid ws

abbrev pub times_queued : ℕ → WaitListInfo → ℕ
times_queued guid info = times guid info.priority_wait_list + times guid info.wait_list

-- No player waits twice.
abbrev pub IsQueues : WaitListInfo → Type 0
IsQueues info = (guid : ℕ) → times_queued guid info ≤ 1

times-cleanup_list :
    (guid time : ℕ) (ws : List Wait) → times guid (cleanup_list time ws) ≤ times guid ws
unfolding times cleanup_list
times-cleanup_list guid time [] = omega arith
times-cleanup_list guid time (w ∷ ws) = ground (arith, times-cleanup_list guid time ws)

times-append :
    (guid : ℕ) (xs ys : List Wait) → times guid (xs ++ ys) ≡ times guid xs + times guid ys
unfolding times
times-append guid [] ys = omega arith
times-append guid (x ∷ xs) ys = omega (arith, times-append guid xs ys)

times-set_timeout :
    (guid g t : ℕ) (ws : List Wait) → times guid (set_timeout g t ws) ≡ times guid ws
unfolding times set_timeout
times-set_timeout guid g t [] = refl
times-set_timeout guid g t (w ∷ ws) = ground (arith, times-set_timeout guid g t ws)

times-erase :
    (guid g : ℕ) (ws : List Wait)
    → times guid (erase g ws) ≡ times guid ws - (if g == guid then 1 else 0)
unfolding times erase
times-erase guid g [] = ground arith
times-erase guid g (w ∷ ws) = ground (arith, times-erase guid g ws)

find_in-found :
    (guid slot : ℕ) (ws : List Wait) → (find_in guid slot ws).0 ≡ true → 1 ≤ times guid ws
unfolding times find_in
find_in-found guid slot [] h = ground (arith, h)
find_in-found guid slot (w ∷ ws) h = ground (arith, h, find_in-found guid (suc slot) ws)

pub find_in-missing :
    (guid slot : ℕ) (ws : List Wait)
    → (find_in guid slot ws).0 ≡ false
    → (times guid ws ≡ 0) × ((find_in guid slot ws).1 ≡ slot + length ws)
unfolding times find_in
find_in-missing guid slot [] h = (refl, omega arith)
find_in-missing guid slot (w ∷ ws) h = ground (arith, h, find_in-missing guid (suc slot) ws)

find_in-slot : (guid slot : ℕ) (ws : List Wait) → slot ≤ (find_in guid slot ws).1
unfolding find_in
find_in-slot guid slot [] = omega arith
find_in-slot guid slot (w ∷ ws) = ground (arith, find_in-slot guid (suc slot) ws)

find_client-priority :
    (guid : ℕ) (info : WaitListInfo)
    → (find_client guid info).0 ≡ in_priority
    → 1 ≤ times guid info.priority_wait_list
unfolding find_client find_in_wait
find_client-priority guid info h = ground (arith, h, find_in-found guid 1 info.priority_wait_list)

find_client-wait :
    (guid : ℕ) (info : WaitListInfo)
    → (find_client guid info).0 ≡ in_wait
    → 1 ≤ times guid info.wait_list
unfolding find_client find_in_wait
find_client-wait guid info h =
    ground (arith, h, find_in-found guid (find_in guid 1 info.priority_wait_list).1 info.wait_list)

find_client-end :
    (guid : ℕ) (info : WaitListInfo)
    → (find_client guid info).0 ≡ at_end
    → times_queued guid info ≡ 0
unfolding find_client find_in_wait
find_client-end guid info h = ground (
  arith,
  h,
  find_in-missing guid 1 info.priority_wait_list,
  find_in-missing guid (find_in guid 1 info.priority_wait_list).1 info.wait_list,
)

find_client-slot : (guid : ℕ) (info : WaitListInfo) → 1 ≤ (find_client guid info).1
unfolding find_client find_in_wait
find_client-slot guid info = ground (
  arith,
  find_in-slot guid 1 info.priority_wait_list,
  find_in-slot guid (find_in guid 1 info.priority_wait_list).1 info.wait_list,
)

times_queued-enqueue :
    (guid time : ℕ) (player : Player) (info : WaitListInfo)
    → times_queued guid (enqueue time player info)
      ≡ times_queued guid info + (if player.guid == guid then 1 else 0)
unfolding enqueue times
times_queued-enqueue guid time player info = ground (
  arith,
  times-append guid info.priority_wait_list (
      record {
        timeout = retry_at time (length info.priority_wait_list + 1);
        player_guid = player.guid;
      }
      ∷ []),
  times-append guid info.wait_list (
      record {
        timeout = retry_at time (length info.priority_wait_list + length info.wait_list + 1);
        player_guid = player.guid;
      }
      ∷ []),
)

login_at-times :
    (g : ℕ) (place : Place) (slot max_players online time : ℕ) (player : Player)
    (info after : WaitListInfo) (answer : Bool)
    → times_queued g info ≤ 1
    → times_queued player.guid info ≤ 1
    → (find_client player.guid info).0 ≡ place
    → login_at place slot max_players online time player info ≡ some (answer, after)
    → (times_queued g after ≤ 1) × ((answer ≡ true) ⊎ (times_queued player.guid after ≡ 1))
unfolding login_at
login_at-times g in_priority slot max_players online time player info after answer h k p e =
    ground (
      arith,
      e,
      find_client-priority player.guid info p,
      times-set_timeout g player.guid (retry_at time slot) info.priority_wait_list,
      times-set_timeout player.guid player.guid (retry_at time slot) info.priority_wait_list,
    )
login_at-times g in_wait slot max_players online time player info after answer h k p e = ground (
  arith,
  e,
  find_client-wait player.guid info p,
  times-erase g player.guid info.wait_list,
  times-set_timeout g player.guid (retry_at time slot) info.wait_list,
  times-set_timeout player.guid player.guid (retry_at time slot) info.wait_list,
)
login_at-times g at_end slot max_players online time player info after answer h k p e = ground (
  arith,
  e,
  find_client-end player.guid info p,
  times_queued-enqueue g time player info,
  times_queued-enqueue player.guid time player info,
)

pub times_queued-cleanup :
    (g time : ℕ) (info : WaitListInfo) → times_queued g (cleanup time info) ≤ times_queued g info
unfolding cleanup
times_queued-cleanup g time info = omega (
  arith,
  times-cleanup_list g time info.priority_wait_list,
  times-cleanup_list g time info.wait_list,
)

pub client_login-queued :
    (max_players online time : ℕ) (player : Player) (info : WaitListInfo)
    → may_always_login player ≡ false
    → has_room max_players online info ≡ false
    → client_login max_players online time player info
      ≡ login_queued max_players online time player (cleanup time info)
unfolding client_login
client_login-queued max_players online time player info e f = rw (client_login, e, f)

client_login-passes :
    (max_players online time : ℕ) (player : Player) (info : WaitListInfo)
    → (may_always_login player || has_room max_players online info) ≡ true
    → client_login max_players online time player info ≡ some (true, info)
unfolding client_login
client_login-passes max_players online time player info e = rw (client_login, e)

login_queued-times :
    (g max_players online time : ℕ) (player : Player) (info after : WaitListInfo) (answer : Bool)
    → times_queued g info ≤ 1
    → times_queued player.guid info ≤ 1
    → login_queued max_players online time player info ≡ some (answer, after)
    → (times_queued g after ≤ 1) × ((answer ≡ true) ⊎ (times_queued player.guid after ≡ 1))
unfolding login_queued
login_queued-times g max_players online time player info after answer h k e =
    login_at-times g (find_client player.guid info).0 (find_client player.guid info).1 max_players
      online time player info after answer h k refl e

client_login-times :
    (g max_players online time : ℕ) (player : Player) (info after : WaitListInfo) (answer : Bool)
    → IsQueues info
    → client_login max_players online time player info ≡ some (answer, after)
    → (times_queued g after ≤ 1) × ((answer ≡ true) ⊎ (times_queued player.guid after ≡ 1))
unfolding client_login
client_login-times g max_players online time player info after answer h e = ground (
  arith,
  e,
  h g,
  login_queued-times g max_players online time player (cleanup time info) after answer
      (omega (arith, h g, times_queued-cleanup g time info))
      (omega (arith, h player.guid, times_queued-cleanup player.guid time info)),
)

-- A login leaves every player in at most one place of the two queues where that was so before, and a
-- player who is refused stands in one of them.
pub client_login-IsQueues :
    (max_players online time : ℕ) (player : Player) (info after : WaitListInfo) (answer : Bool)
    → IsQueues info
    → client_login max_players online time player info ≡ some (answer, after)
    → IsQueues after × ((answer ≡ true) ⊎ (times_queued player.guid after ≡ 1))
client_login-IsQueues max_players online time player info after answer h e = (
  λ g. (client_login-times g max_players online time player info after answer h e).0,
  (client_login-times 0 max_players online time player info after answer h e).1,
)

login_at-room :
    (place : Place) (slot max_players online time : ℕ) (player : Player) (info after : WaitListInfo)
    → login_at place slot max_players online time player info ≡ some (true, after)
    → online + slot ≤ max_players
unfolding login_at
login_at-room in_priority slot max_players online time player info after e = ground (arith, e)
login_at-room in_wait slot max_players online time player info after e = ground (arith, e)
login_at-room at_end slot max_players online time player info after e = ground (arith, e)

login_queued-room :
    (max_players online time : ℕ) (player : Player) (info after : WaitListInfo)
    → login_queued max_players online time player info ≡ some (true, after)
    → online < max_players
unfolding login_queued
login_queued-room max_players online time player info after e = omega (
  arith,
  find_client-slot player.guid info,
  login_at-room (find_client player.guid info).0 (find_client player.guid info).1 max_players online
      time player info after e,
)

-- Where there is a limit, a player who is no game master and has no right to always log in is let in
-- only while fewer players are online than the limit.
pub client_login-room :
    (max_players online time : ℕ) (player : Player) (info after : WaitListInfo)
    → 0 < max_players
    → may_always_login player ≡ false
    → client_login max_players online time player info ≡ some (true, after)
    → online < max_players
client_login-room max_players online time player info after limit h e =
    elim (Bool-cases (has_room max_players online info)) [
      | inl room ↦ unfold has_room in ground (arith, room, limit)
      | inr full ↦
          login_queued-room max_players online time player (cleanup time info) after
            (sym (client_login-queued max_players online time player info h full) ∙ e)
    ]

abbrev pub AllBefore : ℕ → List Wait → Type 0
AllBefore time [] = Unit
AllBefore time (w ∷ ws) = (w.timeout < time) × AllBefore time ws

-- An entry whose timeout has passed is kept: none of a queue of such entries is removed.
pub cleanup_list-passed :
    (time : ℕ) (ws : List Wait) → time < 2 ^ 64 → AllBefore time ws → cleanup_list time ws ≡ ws
unfolding cleanup_list has_expired
cleanup_list-passed time [] h passed = refl
cleanup_list-passed time (w ∷ ws) h passed =
    ground (arith, h, passed.0, cleanup_list-passed time ws h passed.1)
