-- ===== src/Net/Connection/Life.antt =====
-- A connection is closed once, and is silent afterwards.
use rubyserver.Base.{
  ℕ, ◌+◌, ◌/◌, ◌%◌, ◌^◌, ◌≤◌, ◌≡◌, refl, ◌∙◌, ◌⊎◌, Bool, true, false, not, List, [], ◌∷◌, ◌++◌,
  Option, none, some, ltb, if◌then◌else◌, arith, if_either, if_split,
}
use rubyserver.Net.Message.{NetworkMessage, get_length_header}
use rubyserver.Net.Output.{OutputMessage}
use rubyserver.Net.Protocol.{Protocol, accept_size, start_body, check_checksum, on_recv_message}
use rubyserver.Net.Service.{Service, make_protocol}
use rubyserver.Net.Connection.{
  Connection, is_empty, is_none, close_socket, release, close, internal_send, send, tail,
  next_write, on_write_operation, time_passed, count_packet, read_body, parse_header, deliver,
  deliver_next, first_packet, packet, parse_packet, handle_timeout, Event, on_send, on_write,
  on_header, on_packet, on_timeout, on_close, handle, run,
}

-- How often the protocol is released: never while the connection is open, and at most once.
abbrev pub IsReleasedOnce : Connection → Type 0
IsReleasedOnce c = (c.effects.releases ≤ 1) × ((c.is_open ≡ false) ⊎ (c.effects.releases ≡ 0))

close-IsReleasedOnce :
    (force : Bool) (c : Connection) → IsReleasedOnce c → IsReleasedOnce (close force c)
unfolding close release close_socket
close-IsReleasedOnce force c h = ground (arith, h)

maybe_close-IsReleasedOnce :
    (fails : Bool) (c : Connection)
    → IsReleasedOnce c
    → IsReleasedOnce (if fails then close true c else c)
maybe_close-IsReleasedOnce fails c h =
    if_either IsReleasedOnce fails (close true c) c (close-IsReleasedOnce true c h) h

internal_send-IsReleasedOnce :
    (fails : Bool) (m : OutputMessage) (c : Connection)
    → IsReleasedOnce c
    → IsReleasedOnce (internal_send fails m c)
unfolding internal_send
internal_send-IsReleasedOnce fails m c h =
    if_either IsReleasedOnce fails (close true c) _ (close-IsReleasedOnce true c h) h

next_write-IsReleasedOnce :
    (fails : Bool) (ms : List OutputMessage) (c : Connection)
    → IsReleasedOnce c
    → IsReleasedOnce (next_write fails ms c)
unfolding next_write close_socket
next_write-IsReleasedOnce fails [] c h = if_either IsReleasedOnce (not c.is_open) _ c h h
next_write-IsReleasedOnce fails (m ∷ ms) c h = internal_send-IsReleasedOnce fails m c h

first_packet-IsReleasedOnce :
    (checksummed : Bool) (services : List Service) (m : NetworkMessage) (c : Connection)
    → IsReleasedOnce c
    → IsReleasedOnce (first_packet checksummed services m c)
unfolding first_packet deliver
first_packet-IsReleasedOnce checksummed services m c h =
    if_either IsReleasedOnce (is_none c.protocol) _ _
      (if_either IsReleasedOnce (is_none (make_protocol checksummed services m).0) (close true c) _
        (close-IsReleasedOnce true c h) h)
      h

deliver_next-IsReleasedOnce :
    (p : Option Protocol) (m : NetworkMessage) (c : Connection)
    → IsReleasedOnce c
    → IsReleasedOnce (deliver_next p m c)
unfolding deliver_next deliver
deliver_next-IsReleasedOnce none m c h = h
deliver_next-IsReleasedOnce (some p) m c h =
    if_either IsReleasedOnce (on_recv_message p m).0 _ _ h h

read_body-IsReleasedOnce :
    (fails : Bool) (c : Connection) → IsReleasedOnce c → IsReleasedOnce (read_body fails c)
unfolding read_body
read_body-IsReleasedOnce fails c h =
    if_either IsReleasedOnce (accept_size (get_length_header c.msg)) _ (close true c)
      (maybe_close-IsReleasedOnce fails
        (record c { msg = start_body (get_length_header c.msg) c.msg }) h)
      (close-IsReleasedOnce true c h)

parse_header-IsReleasedOnce :
    (error fails : Bool) (now max_packets : ℕ) (c : Connection)
    → IsReleasedOnce c
    → IsReleasedOnce (parse_header error fails now max_packets c)
unfolding parse_header count_packet
parse_header-IsReleasedOnce error fails now max_packets c h =
    if_either IsReleasedOnce error (close true c) _ (close-IsReleasedOnce true c h) (
      if_either IsReleasedOnce (not c.is_open) c _ h (
        if_either IsReleasedOnce
          (ltb max_packets ((c.packets_sent + 1) % 2 ^ 32 / time_passed now c)) _ _
          (close-IsReleasedOnce false (record c { packets_sent = (c.packets_sent + 1) % 2 ^ 32 }) h)
          (read_body-IsReleasedOnce fails (count_packet now c)
            (if_either IsReleasedOnce (ltb 2 (time_passed now c)) _ _ h h))))

packet-IsReleasedOnce :
    (services : List Service) (c : Connection)
    → IsReleasedOnce c
    → IsReleasedOnce (packet services c)
unfolding packet
packet-IsReleasedOnce services c h =
    if_either IsReleasedOnce (not c.received_first) _ _
      (first_packet-IsReleasedOnce (check_checksum c.msg).0 services (check_checksum c.msg).1
        (record c { received_first = true }) h)
      (deliver_next-IsReleasedOnce c.protocol (check_checksum c.msg).1 c h)

handle-IsReleasedOnce :
    (services : List Service) (e : Event) (c : Connection)
    → IsReleasedOnce c
    → IsReleasedOnce (handle services e c)
unfolding handle send on_write_operation parse_packet handle_timeout
handle-IsReleasedOnce services (on_send fails m) c h =
    if_either IsReleasedOnce (not c.is_open) c _ h (
      if_either IsReleasedOnce (is_empty c.message_queue) _ _
        (internal_send-IsReleasedOnce fails m
          (record c { message_queue = c.message_queue ++ (m ∷ []) }) h)
        h)
handle-IsReleasedOnce services (on_write error fails) c h =
    if_either IsReleasedOnce c.writing _ c
      (if_either IsReleasedOnce error _ _
        (close-IsReleasedOnce true (record c { writing = false; message_queue = [] }) h)
        (next_write-IsReleasedOnce fails (tail c.message_queue)
          (record c { writing = false; message_queue = tail c.message_queue }) h))
      h
handle-IsReleasedOnce services (on_header error fails now max_packets) c h =
    parse_header-IsReleasedOnce error fails now max_packets c h
handle-IsReleasedOnce services (on_packet error fails) c h =
    if_either IsReleasedOnce error (close true c) _ (close-IsReleasedOnce true c h) (
      if_either IsReleasedOnce (not c.is_open) c _ h
        (maybe_close-IsReleasedOnce fails (packet services c) (packet-IsReleasedOnce services c h)))
handle-IsReleasedOnce services (on_timeout aborted) c h =
    if_either IsReleasedOnce aborted c _ h (close-IsReleasedOnce true c h)
handle-IsReleasedOnce services (on_close force) c h = close-IsReleasedOnce force c h

run-IsReleasedOnce :
    (services : List Service) (es : List Event) (c : Connection)
    → IsReleasedOnce c
    → IsReleasedOnce (run services es c)
unfolding run
run-IsReleasedOnce services [] c h = h
run-IsReleasedOnce services (e ∷ es) c h =
    run-IsReleasedOnce services es (handle services e c) (handle-IsReleasedOnce services e c h)

-- A closed connection hands nothing to the protocol, and stays closed.
abbrev IsSilent : Connection → Connection → Type 0
IsSilent c c' = (c'.is_open ≡ false) × (c'.effects.delivered ≡ c.effects.delivered)

close-IsSilent : (force : Bool) (c : Connection) → c.is_open ≡ false → IsSilent c (close force c)
unfolding close
close-IsSilent force c h = ground (arith, h)

internal_send-IsSilent :
    (fails : Bool) (m : OutputMessage) (c : Connection)
    → c.is_open ≡ false
    → IsSilent c (internal_send fails m c)
unfolding internal_send
internal_send-IsSilent fails m c h =
    if_either (IsSilent c) fails (close true c) _ (close-IsSilent true c h) (h, refl)

next_write-IsSilent :
    (fails : Bool) (ms : List OutputMessage) (c : Connection)
    → c.is_open ≡ false
    → IsSilent c (next_write fails ms c)
unfolding next_write close_socket
next_write-IsSilent fails [] c h = if_either (IsSilent c) (not c.is_open) _ c (h, refl) (h, refl)
next_write-IsSilent fails (m ∷ ms) c h = internal_send-IsSilent fails m c h

-- What a handler does behind its test for an open connection does not matter.
if_open-IsSilent :
    (c c' : Connection) → c.is_open ≡ false → IsSilent c (if not c.is_open then c else c')
if_open-IsSilent c c' h =
    if_split (IsSilent c) (not c.is_open) c c' (λ e. (h, refl)) (λ e. absurd (ground (arith, e, h)))

handle-IsSilent :
    (services : List Service) (e : Event) (c : Connection)
    → c.is_open ≡ false
    → IsSilent c (handle services e c)
unfolding handle send on_write_operation parse_header parse_packet handle_timeout
handle-IsSilent services (on_send fails m) c h = if_open-IsSilent c _ h
handle-IsSilent services (on_write error fails) c h =
    if_either (IsSilent c) c.writing _ c
      (if_either (IsSilent c) error _ _
        (close-IsSilent true (record c { writing = false; message_queue = [] }) h)
        (next_write-IsSilent fails (tail c.message_queue)
          (record c { writing = false; message_queue = tail c.message_queue }) h))
      (h, refl)
handle-IsSilent services (on_header error fails now max_packets) c h =
    if_either (IsSilent c) error (close true c) _ (close-IsSilent true c h) (if_open-IsSilent c _ h)
handle-IsSilent services (on_packet error fails) c h =
    if_either (IsSilent c) error (close true c) _ (close-IsSilent true c h) (if_open-IsSilent c _ h)
handle-IsSilent services (on_timeout aborted) c h =
    if_either (IsSilent c) aborted c _ (h, refl) (close-IsSilent true c h)
handle-IsSilent services (on_close force) c h = close-IsSilent force c h

run-IsSilent :
    (services : List Service) (es : List Event) (c : Connection)
    → c.is_open ≡ false
    → IsSilent c (run services es c)
unfolding run
run-IsSilent services [] c h = (h, refl)
run-IsSilent services (e ∷ es) c h =
    let now = handle-IsSilent services e c h in
    let later = run-IsSilent services es (handle services e c) now.0 in (later.0, later.1 ∙ now.1)

-- Once a connection is closed nothing that happens opens it again, no packet reaches its protocol any
-- more, and the protocol is released at most once over its whole life.
pub run-closed :
    (services : List Service) (before after : List Event) (c : Connection)
    → IsReleasedOnce c
    → (run services before c).is_open ≡ false
    → ((run services after (run services before c)).is_open ≡ false)
      × (((run services after (run services before c)).effects.delivered
            ≡ (run services before c).effects.delivered)
          × ((run services after (run services before c)).effects.releases ≤ 1))
run-closed services before after c h shut =
    let silent = run-IsSilent services after (run services before c) shut in
    (
      silent.0,
      (
        silent.1,
        (run-IsReleasedOnce services after (run services before c)
            (run-IsReleasedOnce services before c h)).0,
      ),
    )
