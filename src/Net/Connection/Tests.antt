-- ===== src/Net/Connection/Tests.antt =====
-- The theorems on connections and services at concrete values, and runs of the code.
use rubyserver.Base.{ℕ, ◌≤◌, ◌≡◌, refl, true, false, List, [], ◌∷◌, some, arith, inr}
use rubyserver.Net.Message.{NetworkMessage}
use rubyserver.Net.Output.{OutputMessage}
use rubyserver.Net.Protocol.{Protocol}
use rubyserver.Net.Service.{
  Service, ServicePort, any_single_socket, is_single_socket, find_port, add_found, add_to_port,
}
use rubyserver.Net.Service.Ports.{AreShared, add_to_port-AreShared}
use rubyserver.Net.Connection.{
  Connection, Effects, Event, on_send, on_write, on_timeout, run, handle, send, internal_send,
  on_write_operation, next_write, handle_timeout, close, release, close_socket,
}
use rubyserver.Net.Connection.Order.{IsStream, all_taken, run-IsStream}
use rubyserver.Net.Connection.Life.{IsReleasedOnce, run-closed}

abbrev blank : NetworkMessage
blank = record { length = 0; position = 8; overrun = false; buffer = λ _. 0 }

abbrev plain : Protocol
plain = record {
  key = record { key0 = 1; key1 = 2; key2 = 3; key3 = 4 };
  encryption_enabled = false;
  checksum_enabled = false;
  raw_messages = false;
}

-- A login service, and the connection of a client to it.
abbrev login_service : Service
login_service = record {
  server_sends_first = false;
  use_checksum = false;
  protocol_identifier = 1;
  new_protocol = plain;
}

abbrev game_service : Service
game_service = record login_service { server_sends_first = true }

abbrev nothing_done : Effects
nothing_done = record { written = []; delivered = []; releases = 0 }

abbrev connected : Connection
connected = record {
  is_open = true;
  socket_open = true;
  message_queue = [];
  protocol = some plain;
  time_connected = 0;
  packets_sent = 0;
  received_first = false;
  msg = blank;
  writing = false;
  effects = nothing_done;
}

abbrev answer : ℕ → OutputMessage
answer n = record { message = record blank { length = n }; output_buffer_start = 2 }

-- Two messages, of which the first is written before the connection times out.
abbrev client_events : List Event
client_events =
    on_send false (answer 1)
    ∷ on_send false (answer 2)
    ∷ on_write false false
    ∷ on_timeout false
    ∷ []

run_client :
    (run (login_service ∷ []) client_events connected).effects.written ≡ answer 1 ∷ answer 2 ∷ []
unfolding run handle send internal_send on_write_operation next_write handle_timeout close release
    close_socket
run_client = refl

run-IsStream_example :
    IsStream
      (all_taken (login_service ∷ []) client_events connected)
      (run (login_service ∷ []) client_events connected)
run-IsStream_example = run-IsStream (login_service ∷ []) client_events connected refl refl refl

connected-IsReleasedOnce : IsReleasedOnce connected
connected-IsReleasedOnce = (omega arith, inr refl)

client-closed : (run (login_service ∷ []) client_events connected).is_open ≡ false
unfolding run handle send internal_send on_write_operation next_write handle_timeout close release
    close_socket
client-closed = refl

abbrev closed_client : Connection
closed_client = run (login_service ∷ []) client_events connected

run-closed_example :
    ((run (login_service ∷ []) client_events closed_client).is_open ≡ false)
    × (((run (login_service ∷ []) client_events closed_client).effects.delivered
          ≡ closed_client.effects.delivered)
        × ((run (login_service ∷ []) client_events closed_client).effects.releases ≤ 1))
run-closed_example =
    run-closed (login_service ∷ []) client_events client_events connected connected-IsReleasedOnce
      client-closed

abbrev login_port : ServicePort
login_port = record {
  services = login_service ∷ login_service ∷ [];
  server_port = 7171;
  pending_start = false;
  accepting = true;
}

-- The game's service is refused on a port that others use.
add_to_port_refused : (add_to_port false 7171 game_service (login_port ∷ [])).0 ≡ false
unfolding add_to_port add_found find_port is_single_socket
add_to_port_refused = refl

add_to_port-AreShared_example : AreShared (add_to_port false 7172 game_service (login_port ∷ [])).1
add_to_port-AreShared_example =
    add_to_port-AreShared false 7172 game_service (login_port ∷ [])
      (unfold any_single_socket in (refl, tt))
