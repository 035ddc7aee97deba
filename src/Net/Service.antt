-- ===== src/Net/Service.antt =====
-- ServicePort and ServiceManager of src/server.h and src/server.cpp: the protocols that share a port, and
-- the connections that a port takes. The io_service, its acceptor and its timers answer by arguments.
pub mod Ports
use rubyserver.Base.{
  ℕ, Bool, true, false, not, ◌&&◌, ◌||◌, List, [], ◌∷◌, ◌++◌, Option, none, some, ◌==◌,
  if◌then◌else◌,
}
use rubyserver.Login.Ban.{IpConnectMap, accept_connection}
use rubyserver.Net.Message.{NetworkMessage, get_byte}
use rubyserver.Net.Protocol.{Protocol}

-- A service is what its ProtocolType says, and the protocol that it makes.
pub record Service : Type 0 where
  pub server_sends_first : Bool
  pub use_checksum : Bool
  pub protocol_identifier : ℕ
  pub new_protocol : Protocol

pub record ServicePort : Type 0 where
  pub services : List Service
  pub server_port : ℕ
  pub pending_start : Bool
  pub accepting : Bool

-- The front of the services answers for all of them.
unfoldable pub is_single_socket : List Service → Bool
is_single_socket [] = false
is_single_socket (svc ∷ services) = svc.server_sends_first

-- std::any_of in add_service
unfoldable pub any_single_socket : List Service → Bool
any_single_socket [] = false
any_single_socket (svc ∷ services) = svc.server_sends_first || any_single_socket services

unfoldable pub add_service : Service → ServicePort → Bool × ServicePort
add_service new_svc port =
    if any_single_socket port.services
    then (false, port)
    else (true, record port { services = port.services ++ (new_svc ∷ []) })

-- The loop of make_protocol.
unfoldable pub find_service : ℕ → Bool → List Service → Option Protocol
find_service protocol_id checksummed [] = none
find_service protocol_id checksummed (svc ∷ services) =
    let rest = find_service protocol_id checksummed services in
    if not (protocol_id == svc.protocol_identifier)
    then rest
    else (if (checksummed && svc.use_checksum) || not svc.use_checksum
        then some svc.new_protocol
        else rest)

unfoldable pub make_protocol :
    Bool → List Service → NetworkMessage → Option Protocol × NetworkMessage
make_protocol checksummed services msg =
    let (protocol_id, m) = get_byte msg in (find_service protocol_id checksummed services, m)

-- What becomes of a connection that is accepted.
pub data Accepted : Type 0 where
  dropped : Accepted
  closed : Accepted
  accept_first : Protocol → Accepted
  accept : Accepted

unfoldable pub accept_with : List Service → Accepted
accept_with [] = dropped
accept_with (svc ∷ services) =
    if svc.server_sends_first then accept_first svc.new_protocol else accept

-- The answer for an address that is known: Ban decides.
unfoldable pub screen : ℕ → ℕ → List Service → IpConnectMap → Accepted × IpConnectMap
screen now remote_ip services bans =
    if remote_ip == 0
    then (closed, bans)
    else (let (answer, bans') = accept_connection now remote_ip bans in
        (if answer then accept_with services else closed, bans'))

-- onAccept: the connection's fate, the bans, and whether the port waits for the next connection.
-- The answer `aborted` of an error is boost's operation_aborted.
unfoldable pub on_accept :
    Bool → Bool → ℕ → ℕ → IpConnectMap → ServicePort → Accepted × (IpConnectMap × ServicePort)
on_accept error aborted now remote_ip bans port =
    if not error
    then (let (fate, bans') = screen now remote_ip port.services bans in
        elim port.services [
          | [] ↦ (dropped, (bans, record port { accepting = false }))
          | svc ∷ services ↦ (fate, (bans', port))
        ])
    else (if not aborted && not port.pending_start
        then (dropped, (bans, record port { pending_start = true; accepting = false }))
        else (dropped, (bans, record port { accepting = false })))

-- open: `fails` where the acceptor cannot be set up, and is tried again by an event.
unfoldable pub open_port : Bool → ℕ → ServicePort → ServicePort
open_port fails server_port port = record port {
  server_port = server_port;
  pending_start = fails;
  accepting = not fails;
}

-- The ports of a ServiceManager, by number.
abbrev pub Acceptors : Type 0
Acceptors = List ServicePort

unfoldable pub find_port : ℕ → Acceptors → Option ServicePort
find_port number [] = none
find_port number (port ∷ ports) =
    if port.server_port == number then some port else find_port number ports

unfoldable pub set_port : ServicePort → Acceptors → Acceptors
set_port new [] = new ∷ []
set_port new (port ∷ ports) =
    let rest = set_port new ports in
    if port.server_port == new.server_port then new ∷ ports else port ∷ rest

abbrev pub new_port : ServicePort
new_port = record { services = []; server_port = 0; pending_start = false; accepting = false }

-- ServiceManager::add
unfoldable pub add_to : Service → ServicePort → Acceptors → Bool × Acceptors
add_to svc port acceptors =
    let (answer, port') = add_service svc port in (answer, set_port port' acceptors)

-- The port that is there, or a new one that is opened first.
unfoldable pub add_found : Option ServicePort → Bool → ℕ → Service → Acceptors → Bool × Acceptors
add_found none fails number svc acceptors = add_to svc (open_port fails number new_port) acceptors
add_found (some port) fails number svc acceptors =
    if is_single_socket port.services || svc.server_sends_first
    then (false, acceptors)
    else add_to svc port acceptors

unfoldable pub add_to_port : Bool → ℕ → Service → Acceptors → Bool × Acceptors
add_to_port fails number svc acceptors =
    if number == 0
    then (false, acceptors)
    else add_found (find_port number acceptors) fails number svc acceptors
