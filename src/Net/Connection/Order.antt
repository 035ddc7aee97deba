-- ===== src/Net/Connection/Order.antt =====
-- Messages leave a connection one at a time and in the order of the calls of send.
use mathlib.Core.List.{append_assoc, append-nil}
use rubyserver.Base.{
  ℕ, suc, ◌+◌, ◌/◌, ◌%◌, ◌^◌, ◌≡◌, refl, sym, subst, ap, ◌∙◌, ◌⊎◌, inl, inr, Bool, true, false, not,
  List, [], ◌∷◌, ◌++◌, Option, none, some, ltb, if◌then◌else◌, arith, Bool-cases, if_either,
  if_split,
}
use rubyserver.Net.Message.{NetworkMessage, skip_bytes, get_length_header}
use rubyserver.Net.Output.{OutputMessage}
use rubyserver.Net.Protocol.{Protocol, accept_size, start_body, check_checksum, on_recv_message}
use rubyserver.Net.Service.{Service, make_protocol}
use rubyserver.Net.Connection.{
  Connection, is_empty, is_none, close_socket, release, close, internal_send, send, tail,
  next_write, on_write_operation, time_passed, count_packet, read_body, parse_header, deliver,
  deliver_next, first_packet, packet, parse_packet, handle_timeout, Event, on_send, on_write,
  on_header, on_packet, on_timeout, on_close, handle, run,
}

-- The messages that send takes over: those of calls while the connection is open.
unfoldable pub taken : Event → Connection → List OutputMessage
taken (on_send fails m) c = if c.is_open then m ∷ [] else []
taken _ c = []

unfoldable pub all_taken : List Service → List Event → Connection → List OutputMessage
all_taken services [] c = []
all_taken services (e ∷ es) c = taken e c ++ all_taken services es (handle services e c)

-- Of the messages that were taken, the ones not written yet wait in the queue behind the one that is
-- under way; a connection on which a write failed writes no more.
abbrev IsBusy : List OutputMessage → Connection → Type 0
IsBusy ms c =
    (c.writing ≡ true)
    × ((m : OutputMessage) × (rest : List OutputMessage) × ((c.message_queue ≡ m ∷ rest)
          × (ms ≡ c.effects.written ++ rest)))

abbrev IsIdle : List OutputMessage → Connection → Type 0
IsIdle ms c = (c.writing ≡ false) × ((c.message_queue ≡ []) × (ms ≡ c.effects.written))

abbrev IsBroken : List OutputMessage → Connection → Type 0
IsBroken ms c =
    (c.writing ≡ false)
    × ((c.is_open ≡ false) × ((rest : List OutputMessage) × (ms ≡ c.effects.written ++ rest)))

abbrev InOrder : List OutputMessage → Connection → Type 0
InOrder ms c = IsBusy ms c ⊎ (IsIdle ms c ⊎ IsBroken ms c)

-- A handler that sends nothing: it keeps the queue and what was written, and opens nothing.
abbrev Keeps : Connection → Connection → Type 0
Keeps c c' =
    (c'.writing ≡ c.writing)
    × ((c'.message_queue ≡ c.message_queue)
        × ((c'.effects.written ≡ c.effects.written)
            × ((c'.is_open ≡ c.is_open) ⊎ (c'.is_open ≡ false))))

Keeps-refl : (c : Connection) → Keeps c c
Keeps-refl c = (refl, (refl, (refl, inl refl)))

Keeps-InOrder :
    (ms : List OutputMessage) (c c' : Connection) → Keeps c c' → InOrder ms c → InOrder ms c'
Keeps-InOrder ms c c' (w, (q, (e, o))) (inl (busy, (m, rest, (queue, all)))) =
    inl (w ∙ busy, (m, rest, (q ∙ queue, all ∙ ap (λ ws. ws ++ rest) (sym e))))
Keeps-InOrder ms c c' (w, (q, (e, o))) (inr (inl (idle, (queue, all)))) =
    inr (inl (w ∙ idle, (q ∙ queue, all ∙ sym e)))
Keeps-InOrder ms c c' (w, (q, (e, o))) (inr (inr (idle, (shut, (rest, all))))) =
    inr (inr (w ∙ idle, (ground (arith, o, shut), (rest, all ∙ ap (λ ws. ws ++ rest) (sym e)))))

-- Closing changes none of the lists, and ends in the closed state.
release-Keeps :
    (c : Connection)
    → Keeps c (release (record c { is_open = false }))
      × ((release (record c { is_open = false })).is_open ≡ false)
unfolding release
release-Keeps c =
    if_either (λ (c' : Connection). Keeps c c' × (c'.is_open ≡ false)) (is_none c.protocol)
      (record c { is_open = false })
      (record c {
        is_open = false;
        effects = record c.effects { releases = suc c.effects.releases };
      })
      ((refl, (refl, (refl, inr refl))), refl) ((refl, (refl, (refl, inr refl))), refl)

close_lem :
    (force : Bool) (c : Connection) → Keeps c (close force c) × ((close force c).is_open ≡ false)
unfolding close close_socket
close_lem force c = elim (Bool-cases (not c.is_open)) [
  | inl e ↦ rw (close, e) ((Keeps-refl c, ground (arith, e)))
  | inr e ↦
      rw (close, e)
        (if_either (λ (c' : Connection). Keeps c c' × (c'.is_open ≡ false)) _ _
          (release (record c { is_open = false })) (release-Keeps c) (release-Keeps c))
]

close-Keeps :
    (c₀ : Connection) (force : Bool) (c : Connection) → Keeps c₀ c → Keeps c₀ (close force c)
close-Keeps c₀ force c (w, (q, (e, o))) =
    let ((w', (q', (e', o'))), shut) = close_lem force c in (w' ∙ w, (q' ∙ q, (e' ∙ e, inr shut)))

-- A close of a connection whose write failed.
close-IsBroken :
    (ms rest : List OutputMessage) (c : Connection)
    → c.writing ≡ false
    → ms ≡ c.effects.written ++ rest
    → IsBroken ms (close true c)
close-IsBroken ms rest c w e =
    let ((w', (q', (e', o'))), shut) = close_lem true c in
    (w' ∙ w, (shut, (rest, e ∙ ap (λ ws. ws ++ rest) (sym e'))))

-- The handlers of reads and timers send nothing.
maybe_close-Keeps :
    (c₀ : Connection) (fails : Bool) (c : Connection)
    → Keeps c₀ c
    → Keeps c₀ (if fails then close true c else c)
maybe_close-Keeps c₀ fails c k =
    if_either (Keeps c₀) fails (close true c) c (close-Keeps c₀ true c k) k

read_body-Keeps :
    (c₀ : Connection) (fails : Bool) (c : Connection) → Keeps c₀ c → Keeps c₀ (read_body fails c)
unfolding read_body
read_body-Keeps c₀ fails c k =
    if_either (Keeps c₀) (accept_size (get_length_header c.msg)) _ (close true c)
      (maybe_close-Keeps c₀ fails (record c { msg = start_body (get_length_header c.msg) c.msg }) k)
      (close-Keeps c₀ true c k)

count_packet-Keeps :
    (c₀ : Connection) (now : ℕ) (c : Connection) → Keeps c₀ c → Keeps c₀ (count_packet now c)
unfolding count_packet
count_packet-Keeps c₀ now c k = if_either (Keeps c₀) (ltb 2 (time_passed now c)) _ _ k k

parse_header-Keeps :
    (error fails : Bool) (now max_packets : ℕ) (c : Connection)
    → Keeps c (parse_header error fails now max_packets c)
unfolding parse_header
parse_header-Keeps error fails now max_packets c =
    if_either (Keeps c) error (close true c) _ (close-Keeps c true c (Keeps-refl c)) (
      if_either (Keeps c) (not c.is_open) c _ (Keeps-refl c) (
        if_either (Keeps c) (ltb max_packets ((c.packets_sent + 1) % 2 ^ 32 / time_passed now c)) _
          _
          (close-Keeps c false (record c { packets_sent = (c.packets_sent + 1) % 2 ^ 32 })
            (Keeps-refl c))
          (read_body-Keeps c fails (count_packet now c)
            (count_packet-Keeps c now c (Keeps-refl c)))))

deliver-Keeps :
    (c₀ : Connection) (m : NetworkMessage) (c : Connection) → Keeps c₀ c → Keeps c₀ (deliver m c)
unfolding deliver
deliver-Keeps c₀ m c k = k

deliver_next-Keeps :
    (c₀ : Connection) (p : Option Protocol) (m : NetworkMessage) (c : Connection)
    → Keeps c₀ c
    → Keeps c₀ (deliver_next p m c)
unfolding deliver_next
deliver_next-Keeps c₀ none m c k = k
deliver_next-Keeps c₀ (some p) m c k =
    if_either (Keeps c₀) (on_recv_message p m).0 _ _ (deliver-Keeps c₀ (on_recv_message p m).1 c k)
      k

first_packet-Keeps :
    (c₀ : Connection) (checksummed : Bool) (services : List Service) (m : NetworkMessage)
    (c : Connection)
    → Keeps c₀ c
    → Keeps c₀ (first_packet checksummed services m c)
unfolding first_packet
first_packet-Keeps c₀ checksummed services m c k =
    if_either (Keeps c₀) (is_none c.protocol) _ _
      (if_either (Keeps c₀) (is_none (make_protocol checksummed services m).0) _ _
        (close-Keeps c₀ true c k)
        (deliver-Keeps c₀ (make_protocol checksummed services m).1
          (record c { protocol = (make_protocol checksummed services m).0 }) k))
      (deliver-Keeps c₀ (skip_bytes 1 m) c k)

packet-Keeps : (services : List Service) (c : Connection) → Keeps c (packet services c)
unfolding packet
packet-Keeps services c =
    if_either (Keeps c) (not c.received_first) _ _
      (first_packet-Keeps c (check_checksum c.msg).0 services (check_checksum c.msg).1
        (record c { received_first = true }) (Keeps-refl c))
      (deliver_next-Keeps c c.protocol (check_checksum c.msg).1 c (Keeps-refl c))

parse_packet-Keeps :
    (error fails : Bool) (services : List Service) (c : Connection)
    → Keeps c (parse_packet error fails services c)
unfolding parse_packet
parse_packet-Keeps error fails services c =
    if_either (Keeps c) error (close true c) _ (close-Keeps c true c (Keeps-refl c)) (
      if_either (Keeps c) (not c.is_open) c _ (Keeps-refl c)
        (maybe_close-Keeps c fails (packet services c) (packet-Keeps services c)))

handle_timeout-Keeps : (aborted : Bool) (c : Connection) → Keeps c (handle_timeout aborted c)
unfolding handle_timeout
handle_timeout-Keeps aborted c =
    if_either (Keeps c) aborted c _ (Keeps-refl c) (close-Keeps c true c (Keeps-refl c))

-- A write that is begun, or fails.
internal_send-InOrder :
    (ms rest : List OutputMessage) (fails : Bool) (m : OutputMessage) (c : Connection)
    → c.writing ≡ false
    → c.message_queue ≡ m ∷ rest
    → ms ≡ c.effects.written ++ (m ∷ rest)
    → InOrder ms (internal_send fails m c)
unfolding internal_send
internal_send-InOrder ms rest fails m c w q e =
    if_either (InOrder ms) fails (close true c) _ (inr (inr (close-IsBroken ms (m ∷ rest) c w e)))
      (inl (refl, (m, rest, (q, e ∙ sym (append_assoc c.effects.written (m ∷ []) rest)))))

-- A call of send takes the message exactly when the connection is open.
send_if :
    (ms : List OutputMessage) (m : OutputMessage) (b : Bool) (c c' : Connection)
    → ((b ≡ true) → InOrder (ms ++ (m ∷ [])) c')
    → InOrder ms c
    → InOrder (ms ++ (if b then m ∷ [] else [])) (if not b then c else c')
send_if ms m true c c' h k = h refl
send_if ms m false c c' h k = subst (λ l. InOrder l c) (sym (append-nil ms)) k

send_open-InOrder :
    (ms : List OutputMessage) (fails : Bool) (m : OutputMessage) (c : Connection)
    → c.is_open ≡ true
    → InOrder ms c
    → InOrder (ms ++ (m ∷ [])) (
        if is_empty c.message_queue
        then internal_send fails m (record c { message_queue = c.message_queue ++ (m ∷ []) })
        else record c { message_queue = c.message_queue ++ (m ∷ []) })
send_open-InOrder ms fails m c o (inl (busy, (m', rest, (queue, all)))) =
    if_split (InOrder (ms ++ (m ∷ []))) (is_empty c.message_queue) _ _
      (λ e. absurd (ground (arith, e, queue)))
      (λ e. inl (
        busy,
        (
          m',
          rest ++ (m ∷ []),
          (
            ap (λ q. q ++ (m ∷ [])) queue,
            ap (λ l. l ++ (m ∷ [])) all ∙ append_assoc c.effects.written rest (m ∷ []),
          ),
        ),
      ))
send_open-InOrder ms fails m c o (inr (inl (idle, (queue, all)))) =
    if_split (InOrder (ms ++ (m ∷ []))) (is_empty c.message_queue) _ _
      (λ e.
        internal_send-InOrder (ms ++ (m ∷ [])) [] fails m
          (record c { message_queue = c.message_queue ++ (m ∷ []) }) idle
          (ap (λ q. q ++ (m ∷ [])) queue) (ap (λ l. l ++ (m ∷ [])) all))
      (λ e. absurd (ground (arith, e, queue)))
send_open-InOrder ms fails m c o (inr (inr (idle, (shut, rest)))) = absurd (ground (arith, o, shut))

send-InOrder :
    (ms : List OutputMessage) (fails : Bool) (m : OutputMessage) (c : Connection)
    → InOrder ms c
    → InOrder (ms ++ taken (on_send fails m) c) (send fails m c)
unfolding send taken
send-InOrder ms fails m c h = send_if ms m c.is_open c _ (λ o. send_open-InOrder ms fails m c o h) h

next_write-InOrder :
    (ms rest : List OutputMessage) (fails : Bool) (c : Connection)
    → c.writing ≡ false
    → c.message_queue ≡ rest
    → ms ≡ c.effects.written ++ rest
    → InOrder ms (next_write fails rest c)
unfolding next_write close_socket
next_write-InOrder ms [] fails c w q e =
    let idle : IsIdle ms c = (w, (q, e ∙ append-nil c.effects.written)) in
    if_either (InOrder ms) (not c.is_open) _ c (inr (inl idle)) (inr (inl idle))
next_write-InOrder ms (m ∷ rest) fails c w q e = internal_send-InOrder ms rest fails m c w q e

on_write_operation-InOrder :
    (ms : List OutputMessage) (error fails : Bool) (c : Connection)
    → IsBusy ms c
    → InOrder ms (on_write_operation error fails c)
unfolding on_write_operation
on_write_operation-InOrder ms error fails c (busy, (m, rest, (queue, all))) =
    if_either (InOrder ms) error _ _
      (inr
        (inr (close-IsBroken ms rest (record c { writing = false; message_queue = [] }) refl all)))
      (next_write-InOrder ms (tail c.message_queue) fails
        (record c { writing = false; message_queue = tail c.message_queue }) refl refl
        (all ∙ ap (λ l. c.effects.written ++ tail l) (sym queue)))

write-InOrder :
    (ms : List OutputMessage) (error fails : Bool) (c : Connection)
    → InOrder ms c
    → InOrder ms (if c.writing then on_write_operation error fails c else c)
write-InOrder ms error fails c (inl busy) =
    if_either (InOrder ms) c.writing _ c (on_write_operation-InOrder ms error fails c busy)
      (inl busy)
write-InOrder ms error fails c (inr idle) =
    if_split (InOrder ms) c.writing _ c (λ e. absurd (ground (arith, e, idle))) (λ e. inr idle)

quiet-InOrder :
    (ms : List OutputMessage) (c c' : Connection)
    → Keeps c c'
    → InOrder ms c
    → InOrder (ms ++ []) c'
quiet-InOrder ms c c' k h =
    subst (λ l. InOrder l c') (sym (append-nil ms)) (Keeps-InOrder ms c c' k h)

handle-InOrder :
    (services : List Service) (ms : List OutputMessage) (e : Event) (c : Connection)
    → InOrder ms c
    → InOrder (ms ++ taken e c) (handle services e c)
unfolding handle taken
handle-InOrder services ms (on_send fails m) c h = send-InOrder ms fails m c h
handle-InOrder services ms (on_write error fails) c h =
    subst (λ l. InOrder l (if c.writing then on_write_operation error fails c else c))
      (sym (append-nil ms)) (write-InOrder ms error fails c h)
handle-InOrder services ms (on_header error fails now max_packets) c h =
    quiet-InOrder ms c (parse_header error fails now max_packets c)
      (parse_header-Keeps error fails now max_packets c) h
handle-InOrder services ms (on_packet error fails) c h =
    quiet-InOrder ms c (parse_packet error fails services c)
      (parse_packet-Keeps error fails services c) h
handle-InOrder services ms (on_timeout aborted) c h =
    quiet-InOrder ms c (handle_timeout aborted c) (handle_timeout-Keeps aborted c) h
handle-InOrder services ms (on_close force) c h =
    quiet-InOrder ms c (close force c) (close-Keeps c force c (Keeps-refl c)) h

run-InOrder :
    (services : List Service) (es : List Event) (ms : List OutputMessage) (c : Connection)
    → InOrder ms c
    → InOrder (ms ++ all_taken services es c) (run services es c)
unfolding run all_taken
run-InOrder services [] ms c h = subst (λ l. InOrder l c) (sym (append-nil ms)) h
run-InOrder services (e ∷ es) ms c h =
    subst (λ l. InOrder l (run services es (handle services e c)))
      (append_assoc ms (taken e c) (all_taken services es (handle services e c)))
      (run-InOrder services es (ms ++ taken e c) (handle services e c)
        (handle-InOrder services ms e c h))

-- What is written and what waits, in a connection that is in order.
abbrev pub IsStream : List OutputMessage → Connection → Type 0
IsStream ms c =
    (ms ≡ c.effects.written ++ tail c.message_queue)
    ⊎ ((c.is_open ≡ false) × ((lost : List OutputMessage) × (ms ≡ c.effects.written ++ lost)))

InOrder-IsStream : (ms : List OutputMessage) (c : Connection) → InOrder ms c → IsStream ms c
InOrder-IsStream ms c (inl (busy, (m, rest, (queue, all)))) =
    inl (all ∙ ap (λ l. c.effects.written ++ tail l) (sym queue))
InOrder-IsStream ms c (inr (inl (idle, (queue, all)))) =
    inl
      (all ∙ sym (append-nil c.effects.written) ∙ ap (λ l. c.effects.written ++ tail l) (sym queue))
InOrder-IsStream ms c (inr (inr (idle, (shut, rest)))) = inr (shut, rest)

-- A connection that starts with nothing to write writes the messages of the calls of send while it is
-- open, each once and in that order, whatever else happens to it: all of them are written or wait
-- behind the one under way, or the connection is closed and the last of them are lost.
pub run-IsStream :
    (services : List Service) (es : List Event) (c : Connection)
    → c.writing ≡ false
    → c.message_queue ≡ []
    → c.effects.written ≡ []
    → IsStream (all_taken services es c) (run services es c)
run-IsStream services es c w q e =
    InOrder-IsStream (all_taken services es c) (run services es c)
      (run-InOrder services es [] c (inr (inl (w, (q, sym e)))))
