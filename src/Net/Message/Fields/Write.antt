-- ===== src/Net/Message/Fields/Write.antt =====
-- What the writes of fields put into the buffer: their bytes on the wire, one run after the other.
use mathlib.Core.List.{append_assoc}
use rubyserver.Base.{◌+◌, ◌%◌, ◌<◌, ◌≡◌, List, [], ◌∷◌, ◌++◌, arith, length, length-append}
use rubyserver.Base.Memory.{store-nil, to_le, length-to_le}
use rubyserver.Net.Message.{NetworkMessage, max_body_length, put, add_position}
use rubyserver.Net.Message.Steps.{add_byte-fits, add-fits, add_string-fits, put-append}
use rubyserver.Net.Message.Fields.{
  Field, byte, u16, u32, u64, chars, place, IsField, wire, write_field, write_fields, wires,
  AreFields,
}

write_field-eq :
    (f : Field) (msg : NetworkMessage)
    → IsField f
    → msg.position + length (wire f) < max_body_length
    → write_field f msg ≡ put msg (wire f)
unfolding write_field wire add_position
write_field-eq (byte v) msg v' h = add_byte-fits v msg h
write_field-eq (u16 v) msg v' h = add-fits 2 v msg (omega (arith, length-to_le 2 v))
write_field-eq (u32 v) msg v' h = add-fits 4 v msg (omega (arith, length-to_le 4 v))
write_field-eq (u64 v) msg v' h = add-fits 8 v msg (omega (arith, length-to_le 8 v))
write_field-eq (chars s) msg v' h =
    add_string-fits s msg
      (omega (arith, length-append (to_le 2 (length s)) s, length-to_le 2 (length s))) v'
write_field-eq (place p) msg v' h = rw (
  add-fits 2 p.x msg (omega (arith, len)),
  add-fits 2 p.y (put msg (to_le 2 p.x)) (omega (arith, len, length-to_le 2 p.x)),
  put-append msg (to_le 2 p.x) (to_le 2 p.y) (omega (arith, len, length-to_le 2 p.x)),
  add_byte-fits p.z (put msg (to_le 2 p.x ++ to_le 2 p.y)) (omega (arith, len, len₂)),
  put-append msg (to_le 2 p.x ++ to_le 2 p.y) (p.z ∷ []) (omega (arith, len, len₂)),
  append_assoc (to_le 2 p.x) (to_le 2 p.y) (p.z ∷ []),
)
  where
    len₂ : length (to_le 2 p.x ++ to_le 2 p.y) ≡ 4
    len₂ =
        omega
          (arith, length-append (to_le 2 p.x) (to_le 2 p.y), length-to_le 2 p.x, length-to_le 2 p.y)

    len : length (to_le 2 p.x ++ (to_le 2 p.y ++ (p.z ∷ []))) ≡ 5
    len = omega (
      arith,
      length-append (to_le 2 p.x) (to_le 2 p.y ++ (p.z ∷ [])),
      length-append (to_le 2 p.y) (p.z ∷ []),
      length-to_le 2 p.x,
      length-to_le 2 p.y,
    )

pub write_fields-eq :
    (fs : List Field) (msg : NetworkMessage)
    → AreFields fs
    → msg.position + length (wires fs) < max_body_length
    → msg.length < 65536
    → write_fields fs msg ≡ put msg (wires fs)
unfolding write_fields wires
write_fields-eq [] msg k h l = rw (
  store-nil msg.buffer msg.position,
  p,
  let q : (msg.length + 0) % 65536 ≡ msg.length = omega arith in q,
)
  where
    p : (msg.position + 0) % 65536 ≡ msg.position
    p = omega arith
write_fields-eq (f ∷ fs) msg k h l =
    let len : length (wire f ++ wires fs) ≡ length (wire f) + length (wires fs) =
      length-append (wire f) (wires fs) in
    rw
      (
        write_field-eq f msg k.0 (omega (arith, len)),
        write_fields-eq fs (put msg (wire f)) k.1 (omega (arith, len)) (omega arith),
      )
      (put-append msg (wire f) (wires fs) (omega (arith, len)))
