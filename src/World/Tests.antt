-- ===== src/World/Tests.antt =====
-- The theorems on positions at concrete places.
use rubyserver.Base.{◌+◌, ◌≤◌, ◌≡◌, ◌↔◌, ◌⊎◌, inr, refl, true, arith}
use rubyserver.World.Position.{
  Position, IsPosition, IsBefore, lt_position, gt_position, sub_position, add_position,
  are_in_range, lt_position_iff, gt_position_iff, sub_position-add_position, are_in_range_iff,
}

abbrev temple : Position
temple = record { x = 65530; y = 100; z = 7 }

abbrev depot : Position
depot = record { x = 20; y = 90; z = 7 }

temple-IsPosition : IsPosition temple
temple-IsPosition = record { x_fits = omega arith; y_fits = omega arith; z_fits = omega arith }

depot-IsPosition : IsPosition depot
depot-IsPosition = record { x_fits = omega arith; y_fits = omega arith; z_fits = omega arith }

lt_position_iff_example : (lt_position depot temple ≡ true) ↔ IsBefore depot temple
lt_position_iff_example = lt_position_iff depot temple

gt_position_iff_example :
    (gt_position depot depot ≡ true) ↔ ((lt_position depot depot ≡ true) ⊎ (depot ≡ depot))
gt_position_iff_example = gt_position_iff depot depot

-- `>` holds of a position and itself.
gt_position_self : gt_position depot depot ≡ true
gt_position_self = (gt_position_iff depot depot).1 (inr refl)

sub_position-add_position_example : sub_position (add_position temple depot) depot ≡ temple
sub_position-add_position_example =
    sub_position-add_position temple depot temple-IsPosition depot-IsPosition

are_in_range_iff_example : (are_in_range 30 30 1 temple depot ≡ true) ↔ (
    ((temple.x ≤ depot.x + 30) × (depot.x ≤ temple.x + 30))
    × ((temple.y ≤ depot.y + 30) × (depot.y ≤ temple.y + 30))
    × ((temple.z ≤ depot.z + 1) × (depot.z ≤ temple.z + 1)))
are_in_range_iff_example = are_in_range_iff 30 30 1 temple depot
