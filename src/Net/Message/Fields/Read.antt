-- ===== src/Net/Message/Fields/Read.antt =====
-- What the reads of fields take from a buffer that holds their bytes.
use rubyserver.Base.{
  ℕ, ◌+◌, ◌%◌, ◌^◌, ◌≤◌, ◌<◌, ◌≡◌, refl, ap, ◌∙◌, sym, true, List, [], ◌∷◌, ◌++◌, arith, map,
  length, length-append,
}
use rubyserver.Base.Memory.{
  append-injective, load, load_head, load_add, length-load, to_le, from_le, length-to_le,
  from_le-to_le,
}
use rubyserver.World.Position.{Position, IsPosition}
use rubyserver.Net.Message.{
  NetworkMessage, networkmessage_maxsize, advance, get_byte, get, get_chars, get_string,
  get_position, can_read,
}
use rubyserver.Net.Message.Fields.{
  Field, byte, u16, u32, u64, chars, place, shape, IsField, wire, read_field, read_fields, wires,
  AreFields,
}

-- A reader at the bytes `bs`: they lie at its position, and both guards of canRead let them pass.
pub record Holds (msg : NetworkMessage) (bs : List ℕ) : Type 0 where
  pub bytes : load msg.buffer msg.position (length bs) ≡ bs
  pub in_length : msg.position + length bs ≤ msg.length + 8
  pub in_buffer : msg.position + length bs < networkmessage_maxsize

can_read_of_Holds :
    (msg : NetworkMessage) (bs : List ℕ) (n : ℕ)
    → Holds msg bs
    → n ≤ length bs
    → can_read msg n ≡ (true, msg)
unfolding can_read
can_read_of_Holds msg bs n h k = ground (arith, h.in_length, h.in_buffer)

-- A reader of a run reads its first part, and then stands at the second.
Holds-append :
    (msg : NetworkMessage) (xs ys : List ℕ)
    → Holds msg (xs ++ ys)
    → Holds msg xs × Holds (advance msg (length xs)) ys
Holds-append msg xs ys h = (
  record {
    bytes = parts.0;
    in_length = omega (arith, len, h.in_length);
    in_buffer = omega (arith, len, h.in_buffer);
  },
  record {
    bytes = rw at_second parts.1;
    in_length = omega (arith, len, h.in_length, at_second);
    in_buffer = omega (arith, len, h.in_buffer, at_second);
  },
)
  where
    len : length (xs ++ ys) ≡ length xs + length ys
    len = length-append xs ys

    at_second : (msg.position + length xs) % 65536 ≡ msg.position + length xs
    at_second = omega (arith, len, h.in_buffer)

    parts :
        (load msg.buffer msg.position (length xs) ≡ xs)
        × (load msg.buffer (msg.position + length xs) (length ys) ≡ ys)
    parts = append-injective _ _ xs ys (length-load msg.buffer msg.position (length xs)) (
        sym (load_add msg.buffer msg.position (length xs) (length ys))
        ∙ ap (load msg.buffer msg.position) (sym len)
        ∙ h.bytes)

get_byte-Holds :
    (msg : NetworkMessage) (v : ℕ) → Holds msg (v ∷ []) → get_byte msg ≡ (v, advance msg 1)
unfolding get_byte
get_byte-Holds msg v h =
    rw (can_read_of_Holds msg (v ∷ []) 1 h (omega arith)) (ap (λ b. (b, advance msg 1)) head)
  where
    head : msg.buffer msg.position ≡ v
    head = load_head msg.buffer msg.position 0 v [] h.bytes

pub get-Holds :
    (msg : NetworkMessage) (n v : ℕ)
    → v < 256 ^ n
    → Holds msg (to_le n v)
    → get n msg ≡ (v, advance msg n)
unfolding get
get-Holds msg n v k h =
    rw (can_read_of_Holds msg (to_le n v) n h (omega (arith, length-to_le n v)))
      (ap (λ b. (b, advance msg n)) (ap from_le bytes ∙ from_le-to_le n v k))
  where
    bytes : load msg.buffer msg.position n ≡ to_le n v
    bytes = rw (length-to_le n v) at h.bytes

get_chars-Holds :
    (msg : NetworkMessage) (bs : List ℕ)
    → Holds msg bs
    → get_chars (length bs) msg ≡ (bs, advance msg (length bs))
unfolding get_chars
get_chars-Holds msg bs h =
    rw (can_read_of_Holds msg bs (length bs) h (omega arith))
      (ap (λ b. (b, advance msg (length bs))) h.bytes)

advance-advance : (msg : NetworkMessage) (a b : ℕ) → advance (advance msg a) b ≡ advance msg (a + b)
advance-advance msg a b = ap (λ p. record msg { position = p }) (omega arith)

get_string-Holds :
    (msg : NetworkMessage) (s : List ℕ)
    → length s ≤ 8192
    → Holds msg (to_le 2 (length s) ++ s)
    → get_string 0 msg ≡ (s, advance msg (length (to_le 2 (length s) ++ s)))
unfolding get_string
get_string-Holds msg s k h = rw (
  get-Holds msg 2 (length s) (omega arith) parts.0,
  get_chars-Holds (advance msg 2) s rest,
  advance-advance msg 2 (length s),
  length-append (to_le 2 (length s)) s,
  length-to_le 2 (length s),
)
  where
    parts : Holds msg (to_le 2 (length s)) × Holds (advance msg (length (to_le 2 (length s)))) s
    parts = Holds-append msg (to_le 2 (length s)) s h

    rest : Holds (advance msg 2) s
    rest = rw (length-to_le 2 (length s)) at parts.1

get_position-Holds :
    (msg : NetworkMessage) (p : Position)
    → IsPosition p
    → Holds msg (wire (place p))
    → get_position msg ≡ (p, advance msg (length (wire (place p))))
unfolding get_position wire
get_position-Holds msg p k h =
    rw
      (
        get-Holds msg 2 p.x (omega (arith, k.x_fits)) (Holds-append msg _ _ h).0,
        get-Holds (advance msg 2) 2 p.y (omega (arith, k.y_fits)) parts.0,
        get_byte-Holds (advance (advance msg 2) 2) p.z last,
      )
      (ap (λ (q : ℕ). (p, record msg { position = q }))
        (omega (
          arith,
          length-append (to_le 2 p.x) (to_le 2 p.y ++ (p.z ∷ [])),
          length-append (to_le 2 p.y) (p.z ∷ []),
          length-to_le 2 p.x,
          length-to_le 2 p.y,
        )))
  where
    from_y : Holds (advance msg 2) (to_le 2 p.y ++ (p.z ∷ []))
    from_y = rw (length-to_le 2 p.x) at ((Holds-append msg (to_le 2 p.x) _ h).1)

    parts :
        Holds (advance msg 2) (to_le 2 p.y)
        × Holds (advance (advance msg 2) (length (to_le 2 p.y))) (p.z ∷ [])
    parts = Holds-append (advance msg 2) (to_le 2 p.y) (p.z ∷ []) from_y

    last : Holds (advance (advance msg 2) 2) (p.z ∷ [])
    last = rw (length-to_le 2 p.y) at parts.1

read_field-Holds :
    (f : Field) (msg : NetworkMessage)
    → IsField f
    → Holds msg (wire f)
    → read_field (shape f) msg ≡ (f, advance msg (length (wire f)))
unfolding read_field wire
read_field-Holds (byte v) msg k h = rw (get_byte-Holds msg v h)
read_field-Holds (u16 v) msg k h =
    rw (get-Holds msg 2 v (omega arith) h)
      (ap (λ n. (u16 v, advance msg n)) (sym (length-to_le 2 v)))
read_field-Holds (u32 v) msg k h =
    rw (get-Holds msg 4 v (omega arith) h)
      (ap (λ n. (u32 v, advance msg n)) (sym (length-to_le 4 v)))
read_field-Holds (u64 v) msg k h =
    rw (get-Holds msg 8 v (omega arith) h)
      (ap (λ n. (u64 v, advance msg n)) (sym (length-to_le 8 v)))
read_field-Holds (chars s) msg k h = rw (get_string-Holds msg s k h)
read_field-Holds (place p) msg k h = rw (get_position-Holds msg p k h)

pub read_fields-Holds :
    (fs : List Field) (msg : NetworkMessage)
    → AreFields fs
    → Holds msg (wires fs)
    → (read_fields (map shape fs) msg).0 ≡ fs
unfolding read_fields wires
read_fields-Holds [] msg k h = refl
read_fields-Holds (f ∷ fs) msg k h =
    rw (read_field-Holds f msg k.0 (Holds-append msg (wire f) (wires fs) h).0)
      (ap (λ l. f ∷ l) (read_fields-Holds fs _ k.1 (Holds-append msg (wire f) (wires fs) h).1))
