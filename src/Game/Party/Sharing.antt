-- ===== src/Game/Party/Sharing.antt =====
-- The sharing of experience of src/party.cpp. Messages and icons are left out; `min_level` is the
-- floating-point computation of the least level that may share with the highest one.
use rubyserver.Base.{
  ℕ, ◌+◌, ◌-◌, ◌%◌, ◌^◌, Bool, true, false, not, ◌&&◌, ◌||◌, List, [], ◌∷◌, Option, none, some, ltb,
  ◌==◌, if◌then◌else◌,
}
use rubyserver.World.Position.{Position, are_in_range}

-- What the source reads of a Player.
pub record Sharer : Type 0 where
  pub id : ℕ
  pub level : ℕ
  pub position : Position
  pub not_gain_in_fight : Bool

pub record Sharing : Type 0 where
  pub leader : Sharer
  pub member_list : List Sharer
  pub ticks_map : ℕ → Option ℕ
  pub shared_exp_active : Bool
  pub shared_exp_enabled : Bool

-- The clock and the configuration at a call.
pub record Now : Type 0 where
  pub time : ℕ
  pub pz_locked : ℕ
  pub min_level : ℕ → ℕ

abbrev pub is_empty : List Sharer → Bool
is_empty [] = true
is_empty (m ∷ ms) = false

-- The loop over the members in canUseSharedExperience.
unfoldable pub highest_level : ℕ → List Sharer → ℕ
highest_level highest [] = highest
highest_level highest (m ∷ ms) = highest_level (if ltb highest m.level then m.level else highest) ms

unfoldable pub was_active : Now → Sharer → Sharing → Bool
was_active now player s = elim (s.ticks_map player.id) [
  | none ↦ false
  | some tick ↦ not (ltb now.pz_locked ((now.time + 2 ^ 64 - tick) % 2 ^ 64))
]

unfoldable pub can_use_shared_experience : Now → Sharer → Sharing → Bool
can_use_shared_experience now player s =
    if is_empty s.member_list
    then false
    else (if ltb player.level (now.min_level (highest_level s.leader.level s.member_list))
        then false
        else (if not (are_in_range 30 30 1 s.leader.position player.position)
            then false
            else (if not player.not_gain_in_fight then was_active now player s else true)))

unfoldable pub can_all_use : Now → List Sharer → Sharing → Bool
can_all_use now [] s = true
can_all_use now (m ∷ ms) s =
    let rest = can_all_use now ms s in if can_use_shared_experience now m s then rest else false

unfoldable pub can_enable_shared_experience : Now → Sharing → Bool
can_enable_shared_experience now s =
    if not (can_use_shared_experience now s.leader s)
    then false
    else can_all_use now s.member_list s

unfoldable pub update_shared_experience : Now → Sharing → Sharing
update_shared_experience now s =
    if s.shared_exp_active
    then record s { shared_exp_enabled = can_enable_shared_experience now s }
    else s

-- setSharedExperience by the player with an id
unfoldable pub set_shared_experience : Now → ℕ → Bool → Sharing → Bool × Sharing
set_shared_experience now player value s =
    if not (s.leader.id == player)
    then (false, s)
    else (if (value && s.shared_exp_active) || (not value && not s.shared_exp_active)
        then (true, s)
        else (
          true,
          (if value
              then record s {
                shared_exp_active = true;
                shared_exp_enabled = can_enable_shared_experience now s;
              }
              else record s { shared_exp_active = false }),
        ))

unfoldable pub update_player_ticks : Now → Sharer → ℕ → Sharing → Sharing
update_player_ticks now player points s =
    if not (points == 0) && not player.not_gain_in_fight
    then update_shared_experience now
        (record s { ticks_map = λ id. if id == player.id then some now.time else s.ticks_map id })
    else s

unfoldable pub clear_player_points : Now → Sharer → Sharing → Sharing
clear_player_points now player s = elim (s.ticks_map player.id) [
  | none ↦ s
  | some tick ↦
      update_shared_experience now
        (record s { ticks_map = λ id. if id == player.id then none else s.ticks_map id })
]
