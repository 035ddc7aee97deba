-- ===== src/Net/Message/Fields/Roundtrip.antt =====
-- A packet that is written and then read, and reads of any packet.
use rubyserver.Base.{
  ℕ, ◌+◌, ◌≤◌, ◌<◌, ◌≡◌, refl, ◌∙◌, ◌⊎◌, inl, inr, true, false, List, [], ◌∷◌, arith, map, length,
}
use rubyserver.Base.Memory.{load-store}
use rubyserver.Net.Message.{
  NetworkMessage, networkmessage_maxsize, max_body_length, advance, get_byte, get, get_chars,
  get_string, get_position, can_read,
}
use rubyserver.Net.Message.Fields.{
  Field, Shape, a_byte, a_u16, a_u32, a_u64, a_string, a_place, shape, read_field, write_fields,
  read_fields, wires, AreFields,
}
use rubyserver.Net.Message.Fields.Write.{write_fields-eq}
use rubyserver.Net.Message.Fields.Read.{read_fields-Holds}

-- The reader of a written packet: the same bytes and length, with the cursor where they began.
abbrev pub rewound : NetworkMessage → ℕ → NetworkMessage
rewound msg position = record msg { position = position }

-- Fields written to a message whose length agrees with its position, and that fit the body, are what
-- reads of the same shapes give back, from the position where the writing began.
pub read_fields-write_fields :
    (fs : List Field) (msg : NetworkMessage)
    → AreFields fs
    → msg.position ≡ msg.length + 8
    → msg.position + length (wires fs) < max_body_length
    → (read_fields (map shape fs) (rewound (write_fields fs msg) msg.position)).0 ≡ fs
read_fields-write_fields fs msg k e h = rw (write_fields-eq fs msg k h (omega arith)) (
    read_fields-Holds fs _ k (record {
      bytes = load-store msg.buffer msg.position (wires fs);
      in_length = omega arith;
      in_buffer = omega arith;
    }))

-- The cursor stands where canRead lets it: at most 8 past the length, and inside the buffer. Behind
-- XTEA_decrypt the length counts from 8 and these are the bytes received; the length that parseHeader
-- sets counts from 0, and then up to 8 bytes more than were received may be read.
pub record IsInside (msg : NetworkMessage) : Type 0 where
  pub in_length : msg.position ≤ msg.length + 8
  pub in_buffer : msg.position < networkmessage_maxsize

-- A read moves the cursor only past bytes that lie inside, and changes neither bytes nor length.
pub record Reads (msg msg' : NetworkMessage) : Type 0 where
  pub inside : IsInside msg'
  pub same_buffer : msg'.buffer ≡ msg.buffer
  pub same_length : msg'.length ≡ msg.length

Reads-trans : (a b c : NetworkMessage) → Reads a b → Reads b c → Reads a c
Reads-trans a b c r s = record {
  inside = s.inside;
  same_buffer = s.same_buffer ∙ r.same_buffer;
  same_length = s.same_length ∙ r.same_length;
}

-- The two answers of canRead.
can_read-cases :
    (msg : NetworkMessage) (n : ℕ)
    → ((can_read msg n ≡ (true, msg))
        × (msg.position + n ≤ msg.length + 8)
        × (msg.position + n < networkmessage_maxsize))
      ⊎ (can_read msg n ≡ (false, record msg { overrun = true }))
unfolding can_read
can_read-cases msg n = ground arith

module _ (msg : NetworkMessage) (v : IsInside msg) where
  advance-Reads :
      (n : ℕ)
      → msg.position + n ≤ msg.length + 8
      → msg.position + n < networkmessage_maxsize
      → Reads msg (advance msg n)
  advance-Reads n h k = record {
    inside = record { in_length = omega arith; in_buffer = omega arith };
    same_buffer = refl;
    same_length = refl;
  }

  overrun-Reads : Reads msg (record msg { overrun = true })
  overrun-Reads = record {
    inside = record { in_length = v.in_length; in_buffer = v.in_buffer };
    same_buffer = refl;
    same_length = refl;
  }

  get_byte-Reads : Reads msg (get_byte msg).1
  unfolding get_byte
  get_byte-Reads = elim (can_read-cases msg 1) [
    | inl (e, h, k) ↦ rw e (advance-Reads 1 h k)
    | inr e ↦ rw e overrun-Reads
  ]

  pub get-Reads : (n : ℕ) → Reads msg (get n msg).1
  unfolding get
  get-Reads n = elim (can_read-cases msg n) [
    | inl (e, h, k) ↦ rw e (advance-Reads n h k)
    | inr e ↦ rw e overrun-Reads
  ]

  get_chars-Reads : (n : ℕ) → Reads msg (get_chars n msg).1
  unfolding get_chars
  get_chars-Reads n = elim (can_read-cases msg n) [
    | inl (e, h, k) ↦ rw e (advance-Reads n h k)
    | inr e ↦ rw e overrun-Reads
  ]

module _ (msg : NetworkMessage) (v : IsInside msg) where
  get_string-Reads : Reads msg (get_string 0 msg).1
  unfolding get_string
  get_string-Reads =
      let first = get-Reads msg v 2 in
      Reads-trans msg _ _ first (get_chars-Reads (get 2 msg).1 first.inside (get 2 msg).0)

  get_position-Reads : Reads msg (get_position msg).1
  unfolding get_position
  get_position-Reads =
      let first = get-Reads msg v 2 in
      let second = get-Reads (get 2 msg).1 first.inside 2 in
      Reads-trans msg _ _ first
        (Reads-trans _ _ _ second (get_byte-Reads (get 2 (get 2 msg).1).1 second.inside))

  pub read_field-Reads : (s : Shape) → Reads msg (read_field s msg).1
  unfolding read_field
  read_field-Reads a_byte = get_byte-Reads msg v
  read_field-Reads a_u16 = get-Reads msg v 2
  read_field-Reads a_u32 = get-Reads msg v 4
  read_field-Reads a_u64 = get-Reads msg v 8
  read_field-Reads a_string = get_string-Reads
  read_field-Reads a_place = get_position-Reads

pub read_fields-Reads :
    (ss : List Shape) (msg : NetworkMessage) → IsInside msg → Reads msg (read_fields ss msg).1
unfolding read_fields
read_fields-Reads [] msg v = record { inside = v; same_buffer = refl; same_length = refl }
read_fields-Reads (s ∷ ss) msg v =
    let first = read_field-Reads msg v s in
    Reads-trans msg _ _ first (read_fields-Reads ss (read_field s msg).1 first.inside)
