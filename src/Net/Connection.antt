-- ===== src/Net/Connection.antt =====
-- Connection of src/connection.h and src/connection.cpp: a socket with its queue of messages to write.
-- Each handler holds the connection's lock, so a run is a sequence of handlers. An argument `fails` is
-- the answer that a call of boost::asio throws; timers only bring about the event of a timeout.
pub mod Order
pub mod Life
mod Tests
use rubyserver.Base.{
  ℕ, suc, ◌+◌, ◌-◌, ◌/◌, ◌%◌, ◌^◌, Bool, true, false, not, ◌&&◌, ◌||◌, List, [], ◌∷◌, ◌++◌, Option,
  none, some, ltb, if◌then◌else◌,
}
use rubyserver.Net.Message.{NetworkMessage, get_length_header, skip_bytes}
use rubyserver.Net.Output.{OutputMessage}
use rubyserver.Net.Protocol.{Protocol, accept_size, start_body, check_checksum, on_recv_message}
use rubyserver.Net.Service.{Service, make_protocol}

-- What a connection has asked of others: messages handed to onSendMessage and async_write, packets
-- handed to the protocol, and tasks that call Protocol::release.
pub record Effects : Type 0 where
  pub written : List OutputMessage
  pub delivered : List NetworkMessage
  pub releases : ℕ

-- `writing` is that an async_write has not called back, `reading` that an async_read has not.
pub record Connection : Type 0 where
  pub is_open : Bool
  pub socket_open : Bool
  pub message_queue : List OutputMessage
  pub protocol : Option Protocol
  pub time_connected : ℕ
  pub packets_sent : ℕ
  pub received_first : Bool
  pub msg : NetworkMessage
  pub writing : Bool
  pub effects : Effects

abbrev pub is_none {ℓ} : {A : Type ℓ} → Option A → Bool
is_none none = true
is_none (some a) = false

abbrev pub is_empty : List OutputMessage → Bool
is_empty [] = true
is_empty (m ∷ ms) = false

unfoldable pub close_socket : Connection → Connection
close_socket c = record c { socket_open = false }

-- The task of Protocol::release, where there is a protocol.
unfoldable pub release : Connection → Connection
release c =
    if is_none c.protocol
    then c
    else record c { effects = record c.effects { releases = suc c.effects.releases } }

-- close(force)
unfoldable pub close : Bool → Connection → Connection
close force c =
    if not c.is_open
    then c
    else (let c' = release (record c { is_open = false }) in
        if is_empty c'.message_queue || force then close_socket c' else c')

-- internalSend
unfoldable pub internal_send : Bool → OutputMessage → Connection → Connection
internal_send fails m c = if fails then close true c else record c {
  writing = true;
  effects = record c.effects { written = c.effects.written ++ (m ∷ []) };
}

unfoldable pub send : Bool → OutputMessage → Connection → Connection
send fails m c =
    if not c.is_open
    then c
    else (let queued = record c { message_queue = c.message_queue ++ (m ∷ []) } in
        if is_empty c.message_queue then internal_send fails m queued else queued)

-- pop_front; the queue is not empty while a write is under way.
abbrev pub tail : List OutputMessage → List OutputMessage
tail [] = []
tail (m ∷ ms) = ms

-- onWriteOperation, behind the pop.
unfoldable pub next_write : Bool → List OutputMessage → Connection → Connection
next_write fails [] c = if not c.is_open then close_socket c else c
next_write fails (m ∷ ms) c = internal_send fails m c

unfoldable pub on_write_operation : Bool → Bool → Connection → Connection
on_write_operation error fails c =
    let popped = record c { writing = false; message_queue = tail c.message_queue } in
    if error
    then close true (record popped { message_queue = [] })
    else next_write fails popped.message_queue popped

-- parseHeader, the seconds since the counter began: a uint32_t of at least 1.
unfoldable pub time_passed : ℕ → Connection → ℕ
time_passed now c =
    let passed = (now + 2 ^ 64 - c.time_connected + 1) % 2 ^ 32 in
    if ltb passed 1 then 1 else passed

unfoldable pub count_packet : ℕ → Connection → Connection
count_packet now c =
    if ltb 2 (time_passed now c)
    then record c { time_connected = now; packets_sent = 0 }
    else record c { packets_sent = (c.packets_sent + 1) % 2 ^ 32 }

-- parseHeader behind its checks of the connection: the size, and the read of the body.
unfoldable pub read_body : Bool → Connection → Connection
read_body fails c =
    let size = get_length_header c.msg in
    if accept_size size
    then (let reading = record c { msg = start_body size c.msg } in
        if fails then close true reading else reading)
    else close true c

unfoldable pub parse_header : Bool → Bool → ℕ → ℕ → Connection → Connection
parse_header error fails now max_packets c =
    if error
    then close true c
    else (if not c.is_open
        then c
        else (if ltb max_packets ((c.packets_sent + 1) % 2 ^ 32 / time_passed now c)
            then close false (record c { packets_sent = (c.packets_sent + 1) % 2 ^ 32 })
            else read_body fails (count_packet now c)))

-- A packet that the protocol gets: onRecvFirstMessage, or parsePacket where onRecvMessage calls it.
unfoldable pub deliver : NetworkMessage → Connection → Connection
deliver m c = record c {
  msg = m;
  effects = record c.effects { delivered = c.effects.delivered ++ (m ∷ []) };
}

unfoldable pub deliver_next : Option Protocol → NetworkMessage → Connection → Connection
deliver_next none m c = c
deliver_next (some p) m c =
    let (called, m') = on_recv_message p m in if called then deliver m' c else record c { msg = m' }

-- The first packet finds the protocol, unless the server sends first.
unfoldable pub first_packet : Bool → List Service → NetworkMessage → Connection → Connection
first_packet checksummed services m c =
    if is_none c.protocol
    then (let (made, m') = make_protocol checksummed services m in
        if is_none made then close true c else deliver m' (record c { protocol = made }))
    else deliver (skip_bytes 1 m) c

unfoldable pub packet : List Service → Connection → Connection
packet services c =
    let (checksummed, m) = check_checksum c.msg in
    if not c.received_first
    then first_packet checksummed services m (record c { received_first = true })
    else deliver_next c.protocol m c

-- parsePacket; the read of the next header may throw.
unfoldable pub parse_packet : Bool → Bool → List Service → Connection → Connection
parse_packet error fails services c =
    if error
    then close true c
    else (if not c.is_open
        then c
        else (let c' = packet services c in if fails then close true c' else c'))

-- handleTimeout: an aborted timer was cancelled by hand.
unfoldable pub handle_timeout : Bool → Connection → Connection
handle_timeout aborted c = if aborted then c else close true c

-- accept(protocol) of a server that sends first.
unfoldable pub accept_protocol : Bool → Protocol → Connection → Connection
accept_protocol fails p c =
    let c' = record c { protocol = some p } in if fails then close true c' else c'

-- What happens to a connection; an async_write calls back only if it is under way.
pub data Event : Type 0 where
  on_send : Bool → OutputMessage → Event
  on_write : Bool → Bool → Event
  on_header : Bool → Bool → ℕ → ℕ → Event
  on_packet : Bool → Bool → Event
  on_timeout : Bool → Event
  on_close : Bool → Event

unfoldable pub handle : List Service → Event → Connection → Connection
handle services (on_send fails m) c = send fails m c
handle services (on_write error fails) c = if c.writing then on_write_operation error fails c else c
handle services (on_header error fails now max_packets) c =
    parse_header error fails now max_packets c
handle services (on_packet error fails) c = parse_packet error fails services c
handle services (on_timeout aborted) c = handle_timeout aborted c
handle services (on_close force) c = close force c

unfoldable pub run : List Service → List Event → Connection → Connection
run services [] c = c
run services (e ∷ es) c = run services es (handle services e c)
