-- ===== src/Net/Message/Fields/Inside.antt =====
-- Reads use no byte from beyond the end that canRead allows, nor from beyond the buffer.
use rubyserver.Base.{
  ℕ, ◌+◌, ◌<◌, ◌≡◌, refl, sym, ap, ◌∙◌, subst, inl, inr, false, Bool, ltb, leb, ◌||◌, Bool-cases,
  List, [], ◌∷◌, arith,
}
use rubyserver.Base.Memory.{Bytes, load, load_cong, from_le}
use rubyserver.World.Position.{Position}
use rubyserver.Net.Message.{
  NetworkMessage, networkmessage_maxsize, advance, get_byte, get, get_chars, get_string,
  get_position, can_read,
}
use rubyserver.Net.Message.Fields.{
  Field, byte, u16, u32, u64, chars, place, Shape, a_byte, a_u16, a_u32, a_u64, a_string, a_place,
  read_field, read_fields,
}
use rubyserver.Net.Message.Fields.Roundtrip.{
  IsInside, Reads, get-Reads, read_field-Reads, read_fields-Reads,
}

-- The same message over other bytes, and what a read gave with such a message behind it.
abbrev pub over : Bytes → NetworkMessage → NetworkMessage
over other msg = record msg { buffer = other }

abbrev both {ℓ} : {A : Type ℓ} → Bytes → A × NetworkMessage → A × NetworkMessage
both other (a, m) = (a, over other m)

-- The bytes that may be read are the same.
abbrev pub Agree : Bytes → NetworkMessage → Type 0
Agree other msg = (a : ℕ) → a < msg.length + 8 → a < networkmessage_maxsize → msg.buffer a ≡ other a

-- The question of canRead.
abbrev is_refused : NetworkMessage → ℕ → Bool
is_refused msg size =
    ltb (msg.length + 8) (msg.position + size) || leb networkmessage_maxsize (msg.position + size)

abbrev place_at : ℕ → ℕ → ℕ → Position
place_at x y z = record { x = x; y = y; z = z }

module _ (other : Bytes) where
  Reads-Agree : (m m' : NetworkMessage) → Reads m m' → Agree other m → Agree other m'
  Reads-Agree m m' r h a small low =
      ap (λ (b : Bytes). b a) r.same_buffer
      ∙ h a (subst (λ (l : ℕ). a < l + 8) r.same_length small) low

  -- What was not refused lies where the bytes are the same.
  load-over :
      (n : ℕ) (msg : NetworkMessage)
      → Agree other msg
      → is_refused msg n ≡ false
      → load other msg.position n ≡ load msg.buffer msg.position n
  load-over n msg h e =
      load_cong other msg.buffer msg.position n
        (λ i low high. sym (h i (ground (arith, e, high)) (ground (arith, e, high))))

  get_byte-over :
      (msg : NetworkMessage)
      → Agree other msg
      → get_byte (over other msg) ≡ both other (get_byte msg)
  unfolding get_byte can_read
  get_byte-over msg h = elim (Bool-cases (is_refused msg 1)) [
    | inl e ↦ rw e refl
    | inr e ↦ rw e (
        ap (λ (b : ℕ). (b, over other (advance msg 1)))
          (sym (h msg.position (ground (arith, e)) (ground (arith, e)))))
  ]

  get-over :
      (n : ℕ) (msg : NetworkMessage)
      → Agree other msg
      → get n (over other msg) ≡ both other (get n msg)
  unfolding get can_read
  get-over n msg h = elim (Bool-cases (is_refused msg n)) [
    | inl e ↦ rw e refl
    | inr e ↦
        rw e (ap (λ (bs : List ℕ). (from_le bs, over other (advance msg n))) (load-over n msg h e))
  ]

  get_chars-over :
      (n : ℕ) (msg : NetworkMessage)
      → Agree other msg
      → get_chars n (over other msg) ≡ both other (get_chars n msg)
  unfolding get_chars can_read
  get_chars-over n msg h = elim (Bool-cases (is_refused msg n)) [
    | inl e ↦ rw e refl
    | inr e ↦ rw e (ap (λ (bs : List ℕ). (bs, over other (advance msg n))) (load-over n msg h e))
  ]

  get_string-over :
      (msg : NetworkMessage)
      → IsInside msg
      → Agree other msg
      → get_string 0 (over other msg) ≡ both other (get_string 0 msg)
  unfolding get_string
  get_string-over msg v h =
      let first = get 2 msg in
      ap (λ (r : ℕ × NetworkMessage). get_chars r.0 r.1) (get-over 2 msg h)
      ∙ get_chars-over first.0 first.1 (Reads-Agree msg first.1 (get-Reads msg v 2) h)

  get_position-over :
      (msg : NetworkMessage)
      → IsInside msg
      → Agree other msg
      → get_position (over other msg) ≡ both other (get_position msg)
  unfolding get_position
  get_position-over msg v h =
      let first = get 2 msg in
      let second = get 2 first.1 in
      let read = get-Reads msg v 2 in
      let h' = Reads-Agree msg first.1 read h in
      let h'' = Reads-Agree first.1 second.1 (get-Reads first.1 read.inside 2) h' in
      ap
        (λ (r : ℕ × NetworkMessage).
          let (y, m') = get 2 r.1 in let (z, m'') = get_byte m' in (place_at r.0 y z, m''))
        (get-over 2 msg h)
      ∙ ap
          (λ (r : ℕ × NetworkMessage). let (z, m'') = get_byte r.1 in (place_at first.0 r.0 z, m''))
          (get-over 2 first.1 h')
      ∙ ap (λ (r : ℕ × NetworkMessage). (place_at first.0 second.0 r.0, r.1))
          (get_byte-over second.1 h'')

  read_field-over :
      (s : Shape) (msg : NetworkMessage)
      → IsInside msg
      → Agree other msg
      → read_field s (over other msg) ≡ both other (read_field s msg)
  unfolding read_field
  read_field-over a_byte msg v h =
      ap (λ (r : ℕ × NetworkMessage). (byte r.0, r.1)) (get_byte-over msg h)
  read_field-over a_u16 msg v h = ap (λ (r : ℕ × NetworkMessage). (u16 r.0, r.1)) (get-over 2 msg h)
  read_field-over a_u32 msg v h = ap (λ (r : ℕ × NetworkMessage). (u32 r.0, r.1)) (get-over 4 msg h)
  read_field-over a_u64 msg v h = ap (λ (r : ℕ × NetworkMessage). (u64 r.0, r.1)) (get-over 8 msg h)
  read_field-over a_string msg v h =
      ap (λ (r : List ℕ × NetworkMessage). (chars r.0, r.1)) (get_string-over msg v h)
  read_field-over a_place msg v h =
      ap (λ (r : Position × NetworkMessage). (place r.0, r.1)) (get_position-over msg v h)

  read_fields-over :
      (ss : List Shape) (msg : NetworkMessage)
      → IsInside msg
      → Agree other msg
      → read_fields ss (over other msg) ≡ both other (read_fields ss msg)
  unfolding read_fields
  read_fields-over [] msg v h = refl
  read_fields-over (s ∷ ss) msg v h =
      let first = read_field s msg in
      let read = read_field-Reads msg v s in
      ap (λ (r : Field × NetworkMessage). let (fs, m') = read_fields ss r.1 in (r.0 ∷ fs, m'))
        (read_field-over s msg v h)
      ∙ ap (λ (r : List Field × NetworkMessage). (first.0 ∷ r.0, r.1))
          (read_fields-over ss first.1 read.inside (Reads-Agree msg first.1 read h))

-- Whatever fields the server reads from a message whose cursor is at most 8 past its length and inside
-- the buffer, they do not depend on the bytes from length + 8 on, nor on those from the buffer's end
-- on. The cursor stays within both bounds, and the reads change neither bytes nor length.
pub read_fields_in_bounds :
    (other : Bytes) (ss : List Shape) (msg : NetworkMessage)
    → IsInside msg
    → Agree other msg
    → ((read_fields ss (over other msg)).0 ≡ (read_fields ss msg).0)
      × (IsInside (read_fields ss msg).1
          × (((read_fields ss msg).1.buffer ≡ msg.buffer)
              × ((read_fields ss msg).1.length ≡ msg.length)))
read_fields_in_bounds other ss msg v h =
    let r = read_fields-Reads ss msg v in
    (ap (λ p. p.0) (read_fields-over other ss msg v h), (r.inside, (r.same_buffer, r.same_length)))
