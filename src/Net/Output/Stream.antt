-- ===== src/Net/Output/Stream.antt =====
-- The output buffer as a stream: what was appended is what is sent, in order, and every copy fits.
use mathlib.Core.List.{append-nil, append_assoc}
use rubyserver.Base.{
  ℕ, ◌+◌, ◌%◌, ◌<◌, ◌≡◌, refl, sym, ap, ◌∙◌, inl, inr, List, [], ◌∷◌, ◌++◌, Option, none, some,
  Bool, ltb, Bool-cases, arith, length,
}
use rubyserver.Base.Memory.{Bytes, store, load, load_add, length-load, load-store, load-store_apart}
use rubyserver.Net.Message.{NetworkMessage, max_body_length, max_protocol_body_length}
use rubyserver.Net.Output.{
  OutputMessage, get_output_message, append, Output, get_output_buffer, write_to_output_buffer,
  send_all,
}

abbrev pub body : NetworkMessage → List ℕ
body msg = load msg.buffer 8 msg.length

abbrev bodies : List OutputMessage → List ℕ
bodies [] = []
bodies (o ∷ os) = body o.message ++ bodies os

abbrev pending : Option OutputMessage → List ℕ
pending none = []
pending (some o) = body o.message

-- All bytes that went in and have not been lost: those sent, then those that wait.
pub stream : Output → List ℕ
stream out = bodies out.sent ++ pending out.current

-- A buffer that collects: its cursor stands behind its body, which fits a packet.
pub record IsCollecting (o : OutputMessage) : Type 0 where
  pub behind : o.position ≡ o.length + 8
  pub fits : o.length + 8 < max_body_length
  pub at_start : o.output_buffer_start ≡ 8

bodies-append : (os ps : List OutputMessage) → bodies (os ++ ps) ≡ bodies os ++ bodies ps
bodies-append [] ps = refl
bodies-append (o ∷ os) ps =
    rw (bodies-append os ps) (sym (append_assoc (body o.message) (bodies os) (bodies ps)))

append-body :
    (msg : NetworkMessage) (o : OutputMessage)
    → IsCollecting o
    → o.length + msg.length + 8 < max_body_length
    → (body (append msg o).message ≡ body o.message ++ body msg) × IsCollecting (append msg o)
unfolding append
append-body msg o v h = (
  rw (total, load_add (store o.buffer o.position bytes) 8 o.length msg.length, old, new),
  record {
    behind = omega (arith, len, v.behind);
    fits = omega (arith, len);
    at_start = v.at_start;
  },
)
  where
    bytes : List ℕ
    bytes = load msg.buffer 8 msg.length

    len : length bytes ≡ msg.length
    len = length-load msg.buffer 8 msg.length

    total : (o.length + length bytes) % 65536 ≡ o.length + msg.length
    total = omega (arith, len)

    old : load (store o.buffer o.position bytes) 8 o.length ≡ load o.buffer 8 o.length
    old = load-store_apart o.buffer o.position bytes 8 o.length (inl (omega (arith, v.behind)))

    new : load (store o.buffer o.position bytes) (8 + o.length) msg.length ≡ bytes
    new =
        let e : 8 + o.length ≡ o.position = omega (arith, v.behind) in
        rw e (rw len at (load-store o.buffer o.position bytes))

fresh-IsCollecting : (storage : Bytes) → IsCollecting (get_output_message storage)
unfolding get_output_message
fresh-IsCollecting storage = record { behind = refl; fits = omega arith; at_start = refl }

-- The first message into a buffer that is fresh.
append-fresh :
    (storage : Bytes) (msg : NetworkMessage)
    → msg.length + 8 < max_body_length
    → (body (append msg (get_output_message storage)).message ≡ body msg)
      × IsCollecting (append msg (get_output_message storage))
unfolding load get_output_message
append-fresh storage msg h =
    append-body msg (get_output_message storage) (fresh-IsCollecting storage) (omega arith)

-- The buffer, if there is one, collects.
abbrev pub IsCurrent : Option OutputMessage → Type 0
IsCurrent none = Unit
IsCurrent (some o) = IsCollecting o

-- What a call leaves: the stream grew by these bytes, and the buffer still collects.
pub record Extends (before : List ℕ) (new : List ℕ) (out : Output) : Type 0 where
  pub grown : stream out ≡ before ++ new
  pub current : IsCurrent out.current

write-none :
    (storage : Bytes) (msg : NetworkMessage) (sent : List OutputMessage)
    → msg.length + 8 < max_body_length
    → Extends
        (bodies sent ++ [])
        (body msg)
        (write_to_output_buffer storage msg (record { current = none; sent = sent }))
unfolding write_to_output_buffer get_output_buffer stream
write-none storage msg sent h =
    let first = append-fresh storage msg h in
    record { grown = rw (first.0, append-nil (bodies sent)); current = first.1 }

write-some :
    (storage : Bytes) (msg : NetworkMessage) (o : OutputMessage) (sent : List OutputMessage)
    → IsCollecting o
    → msg.length + 8 < max_body_length
    → Extends
        (bodies sent ++ body o.message)
        (body msg)
        (write_to_output_buffer storage msg (record { current = some o; sent = sent }))
unfolding write_to_output_buffer get_output_buffer stream
write-some storage msg o sent v h = elim (Bool-cases full) [
  | inl e ↦
      let first = append-fresh storage msg h in
      rw e (record {
        grown = rw (first.0, bodies-append sent (o ∷ []), append-nil (body o.message));
        current = first.1;
      })
  | inr e ↦
      let more = append-body msg o v (ground arith) in
      rw e (record {
        grown = rw more.0 (sym (append_assoc (bodies sent) (body o.message) (body msg)));
        current = more.1;
      })
]
  where
    full : Bool
    full = ltb max_protocol_body_length (o.length + msg.length)

write_to_output_buffer-Extends :
    (storage : Bytes) (msg : NetworkMessage) (out : Output)
    → IsCurrent out.current
    → msg.length + 8 < max_body_length
    → Extends (stream out) (body msg) (write_to_output_buffer storage msg out)
unfolding stream
write_to_output_buffer-Extends storage msg out v h = by_current out.current out.sent v
  where
    by_current :
        (current : Option OutputMessage) (sent : List OutputMessage)
        → IsCurrent current
        → Extends
            (bodies sent ++ pending current)
            (body msg)
            (write_to_output_buffer storage msg (record { current = current; sent = sent }))
    by_current none sent v = write-none storage msg sent h
    by_current (some o) sent v = write-some storage msg o sent v h

-- sendAll hands the buffer over and leaves the stream as it was.
stream-send_all : (out : Output) → stream (send_all out) ≡ stream out
unfolding send_all stream
stream-send_all out = by_current out.current out.sent
  where
    by_current :
        (current : Option OutputMessage) (sent : List OutputMessage)
        → stream (send_all (record { current = current; sent = sent }))
          ≡ bodies sent ++ pending current
    by_current none sent = refl
    by_current (some o) sent = rw (
      append-nil (bodies (sent ++ (o ∷ []))),
      bodies-append sent (o ∷ []),
      append-nil (body o.message),
    )

-- What the dispatcher does to a protocol's output: a message is written, or all is sent.
pub data Event : Type 0 where
  write : Bytes → NetworkMessage → Event
  flush : Event

unfoldable pub step : Event → Output → Output
step (write storage msg) out = write_to_output_buffer storage msg out
step flush out = send_all out

unfoldable pub run : List Event → Output → Output
run [] out = out
run (e ∷ es) out = run es (step e out)

-- The bodies written, in order.
pub written : List Event → List ℕ
written [] = []
written (write storage msg ∷ es) = body msg ++ written es
written (flush ∷ es) = written es

-- Each message written is one that canAdd can have let grow.
abbrev pub AreMessages : List Event → Type 0
AreMessages [] = Unit
AreMessages (write storage msg ∷ es) = (msg.length + 8 < max_body_length) × AreMessages es
AreMessages (flush ∷ es) = AreMessages es

send_all-IsCurrent : (out : Output) → IsCurrent out.current → IsCurrent (send_all out).current
unfolding send_all
send_all-IsCurrent out v = by_current out.current
  where
    by_current :
        (current : Option OutputMessage)
        → IsCurrent (send_all (record { current = current; sent = out.sent })).current
    by_current none = tt
    by_current (some o) = tt

-- Whatever messages are written and whenever the buffer is sent, the bytes sent followed by those
-- that wait are the bytes there were at first followed by the bodies written, in order: none is lost,
-- repeated or reordered when a full buffer is sent early, and none is copied past the buffer's end.
pub stream-run :
    (es : List Event) (out : Output)
    → IsCurrent out.current
    → AreMessages es
    → (stream (run es out) ≡ stream out ++ written es) × IsCurrent (run es out).current
unfolding run step written
stream-run [] out v h = (sym (append-nil (stream out)), v)
stream-run (write storage msg ∷ es) out v h =
    let one = write_to_output_buffer-Extends storage msg out v h.0 in
    let rest = stream-run es (write_to_output_buffer storage msg out) one.current h.1 in
    (
      rest.0
          ∙ ap (λ (l : List ℕ). l ++ written es) one.grown
          ∙ append_assoc (stream out) (body msg) (written es),
      rest.1,
    )
stream-run (flush ∷ es) out v h =
    let rest = stream-run es (send_all out) (send_all-IsCurrent out v) h in
    (rest.0 ∙ ap (λ (l : List ℕ). l ++ written es) (stream-send_all out), rest.1)
