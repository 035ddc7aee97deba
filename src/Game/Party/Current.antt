-- ===== src/Game/Party/Current.antt =====
-- Whether the sharing of experience is up to date.
use rubyserver.Base.{
  ℕ, ◌≡◌, refl, sym, subst, ◌⊎◌, ◌↔◌, inl, inr, Bool, true, false, not, ◌&&◌, ◌||◌, ◌==◌, arith,
  none, if◌then◌else◌, Option-cases, if_either, if_split,
}
use rubyserver.Game.Party.Sharing.{
  Sharer, Sharing, Now, can_enable_shared_experience, update_shared_experience,
  set_shared_experience, update_player_ticks, clear_player_points,
}
use rubyserver.Game.Party.Everyone.{EveryoneMayShare, can_enable_shared_experience_iff}

-- The sharing is off, or is enabled exactly when everyone may share.
abbrev pub IsCurrent : Now → Sharing → Type 0
IsCurrent now s =
    (s.shared_exp_active ≡ false) ⊎ ((s.shared_exp_enabled ≡ true) ↔ EveryoneMayShare now s)

-- What can be shared does not depend on the two flags.
with_flags : Bool → Bool → Sharing → Sharing
with_flags active enabled s = record s { shared_exp_active = active; shared_exp_enabled = enabled }

enabled-IsCurrent :
    (now : Now) (active : Bool) (s : Sharing)
    → IsCurrent now (with_flags active (can_enable_shared_experience now s) s)
unfolding with_flags
enabled-IsCurrent now active s = inr (can_enable_shared_experience_iff now s)

update_shared_experience-IsCurrent :
    (now : Now) (s : Sharing) → IsCurrent now (update_shared_experience now s)
unfolding update_shared_experience with_flags
update_shared_experience-IsCurrent now s =
    if_split (IsCurrent now) s.shared_exp_active _ s
      (λ e. enabled-IsCurrent now s.shared_exp_active s) (λ e. inl e)

set_shared_experience-IsCurrent :
    (now : Now) (player : ℕ) (value : Bool) (s : Sharing)
    → IsCurrent now s
    → IsCurrent now (set_shared_experience now player value s).1
unfolding set_shared_experience with_flags
set_shared_experience-IsCurrent now player value s h =
    if_either P (not (s.leader.id == player)) (false, s) _ h
      (if_either P ((value && s.shared_exp_active) || (not value && not s.shared_exp_active))
        (true, s) _ h
        (if_either (IsCurrent now) value _ _ (enabled-IsCurrent now true s) (inl refl)))
  where
    P : Bool × Sharing → Type 0
    P r = IsCurrent now r.1

clear_player_points-IsCurrent :
    (now : Now) (player : Sharer) (s : Sharing)
    → IsCurrent now s
    → IsCurrent now (clear_player_points now player s)
unfolding clear_player_points
clear_player_points-IsCurrent now player s h = elim (Option-cases (s.ticks_map player.id)) [
  | inl e ↦
      let same : clear_player_points now player s ≡ s = ground (arith, e) in
      subst (IsCurrent now) (sym same) h
  | inr (tick, e) ↦
      let cleared = record s {
        ticks_map = λ id. if id == player.id then none else s.ticks_map id;
      } in
      let same : clear_player_points now player s ≡ update_shared_experience now cleared =
        ground (arith, e) in
      subst (IsCurrent now) (sym same) (update_shared_experience-IsCurrent now cleared)
]

-- What may happen to the sharing.
pub data Act : Type 0 where
  set : ℕ → Bool → Act
  ticks : Sharer → ℕ → Act
  clear : Sharer → Act

unfoldable pub act : Now → Act → Sharing → Sharing
act now (set player value) s = (set_shared_experience now player value s).1
act now (ticks player points) s = update_player_ticks now player points s
act now (clear player) s = clear_player_points now player s

-- If sharing is off, or enabled exactly when the party has a member and its leader and every member
-- have the level, are near the leader, and fought lately or need not, then at the same moment so it is
-- after a player sets it, a player's ticks are updated, or cleared.
pub act-IsCurrent :
    (now : Now) (a : Act) (s : Sharing) → IsCurrent now s → IsCurrent now (act now a s)
act-IsCurrent now (set player value) s h =
    unfold act in set_shared_experience-IsCurrent now player value s h
act-IsCurrent now (ticks player points) s h =
    unfold act update_player_ticks in
    if_either (IsCurrent now) (not (points == 0) && not player.not_gain_in_fight) _ s
      (update_shared_experience-IsCurrent now _) h
act-IsCurrent now (clear player) s h = unfold act in clear_player_points-IsCurrent now player s h
