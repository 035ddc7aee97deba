-- ===== src/World/Position.antt =====
-- src/position.h: map positions, their distances, and the order that maps keyed by a position use.
-- Coordinates are numbers; `+` and `-` wrap at the 16 bits of x and y and the 8 bits of z.
use rubyserver.Base.{
  ℕ, ◌+◌, ◌-◌, ◌%◌, ◌≤◌, ◌<◌, ◌≡◌, ◌↔◌, ◌⊎◌, Bool, true, false, not, ◌&&◌, ◌||◌, arith, ltb, leb,
  ◌==◌, if◌then◌else◌,
}
use rubyserver.Base.Int.{ℤ, sub_ℕ, pos_part, neg_part}

pub record Position : Type 0 where
  pub x : ℕ
  pub y : ℕ
  pub z : ℕ

-- The coordinates fit their types.
pub record IsPosition (p : Position) : Type 0 where
  pub x_fits : p.x < 65536
  pub y_fits : p.y < 65536
  pub z_fits : p.z < 256

abbrev pub get_offset_x : Position → Position → ℤ
get_offset_x p q = sub_ℕ p.x q.x

abbrev pub get_offset_y : Position → Position → ℤ
get_offset_y p q = sub_ℕ p.y q.y

abbrev pub get_offset_z : Position → Position → ℤ
get_offset_z p q = sub_ℕ p.z q.z

-- std::abs
abbrev pub abs : ℤ → ℕ
abs i = pos_part i + neg_part i

unfoldable pub get_distance_x : Position → Position → ℕ
get_distance_x p q = abs (get_offset_x p q)

unfoldable pub get_distance_y : Position → Position → ℕ
get_distance_y p q = abs (get_offset_y p q)

unfoldable pub get_distance_z : Position → Position → ℕ
get_distance_z p q = abs (get_offset_z p q)

-- areInRange<dx, dy> and areInRange<dx, dy, dz>
unfoldable pub are_in_range_2d : ℕ → ℕ → Position → Position → Bool
unfolding get_distance_x get_distance_y
are_in_range_2d dx dy p q = leb (get_distance_x p q) dx && leb (get_distance_y p q) dy

unfoldable pub are_in_range : ℕ → ℕ → ℕ → Position → Position → Bool
unfolding get_distance_x get_distance_y get_distance_z
are_in_range dx dy dz p q =
    leb (get_distance_x p q) dx && leb (get_distance_y p q) dy && leb (get_distance_z p q) dz

-- operator<: by z, then y, then x
unfoldable pub lt_position : Position → Position → Bool
lt_position a p =
    if ltb a.z p.z
    then true
    else (if ltb p.z a.z
        then false
        else (if ltb a.y p.y
            then true
            else (if ltb p.y a.y then false else (if ltb a.x p.x then true else false))))

-- operator>
unfoldable pub gt_position : Position → Position → Bool
unfolding lt_position
gt_position a p = not (lt_position a p)

-- operator== and operator!=
unfoldable pub eq_position : Position → Position → Bool
eq_position a p = p.x == a.x && (p.y == a.y && p.z == a.z)

unfoldable pub ne_position : Position → Position → Bool
ne_position a p = not (p.x == a.x) || (not (p.y == a.y) || not (p.z == a.z))

-- operator+ and operator-
unfoldable pub add_position : Position → Position → Position
add_position a p = record {
  x = (a.x + p.x) % 65536;
  y = (a.y + p.y) % 65536;
  z = (a.z + p.z) % 256;
}

unfoldable pub sub_position : Position → Position → Position
sub_position a p = record {
  x = (a.x + 65536 - p.x) % 65536;
  y = (a.y + 65536 - p.y) % 65536;
  z = (a.z + 256 - p.z) % 256;
}

abbrev pub IsBefore : Position → Position → Type 0
IsBefore a p = (a.z < p.z) ⊎ ((a.z ≡ p.z) × (a.y < p.y)) ⊎ ((a.z ≡ p.z) × (a.y ≡ p.y) × (a.x < p.x))

-- operator< holds exactly when the first position comes before the second by z, then y, then x.
pub lt_position_iff : (a p : Position) → (lt_position a p ≡ true) ↔ IsBefore a p
unfolding lt_position
lt_position_iff a p = (λ h. ground arith, λ h. ground arith)

-- operator> holds exactly when the second position is less than the first or the two are equal, so
-- it holds of every position and itself.
pub gt_position_iff :
    (a p : Position) → (gt_position a p ≡ true) ↔ ((lt_position p a ≡ true) ⊎ (a ≡ p))
unfolding gt_position
gt_position_iff a p = (λ h. ground arith, λ h. ground arith)

-- Subtracting what was added gives the position back, also where the sum wraps.
pub sub_position-add_position :
    (a p : Position) → IsPosition a → IsPosition p → sub_position (add_position a p) p ≡ a
unfolding sub_position add_position
sub_position-add_position a p va vp = ground arith

distance_le : (a b d : ℕ) → (leb (abs (sub_ℕ a b)) d ≡ true) ↔ ((a ≤ b + d) × (b ≤ a + d))
distance_le a b d = (λ h. ground arith, λ h. ground arith)

and₃_iff : (a b c : Bool) → (a && b && c ≡ true) ↔ ((a ≡ true) × (b ≡ true) × (c ≡ true))
and₃_iff a b c = (λ h. ground arith, λ h. ground arith)

-- Two positions are in range exactly when on each axis neither coordinate is past the other by more
-- than the bound of that axis.
pub are_in_range_iff :
    (dx dy dz : ℕ) (p q : Position)
    → (are_in_range dx dy dz p q ≡ true) ↔ (
        ((p.x ≤ q.x + dx) × (q.x ≤ p.x + dx))
        × ((p.y ≤ q.y + dy) × (q.y ≤ p.y + dy))
        × ((p.z ≤ q.z + dz) × (q.z ≤ p.z + dz)))
unfolding are_in_range
are_in_range_iff dx dy dz p q = (
  λ h.
      let k = (and₃_iff _ _ _).0 h in
      ((distance_le _ _ _).0 k.0, (distance_le _ _ _).0 k.1, (distance_le _ _ _).0 k.2),
  λ h.
      (and₃_iff _ _ _).1
        ((distance_le _ _ _).1 h.0, (distance_le _ _ _).1 h.1, (distance_le _ _ _).1 h.2),
)
