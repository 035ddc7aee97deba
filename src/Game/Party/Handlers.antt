-- ===== src/Game/Party/Handlers.antt =====
-- What src/game.cpp does to the parties when players ask for it. A world is the list of its parties; a
-- party that was disbanded is deleted. The pointer of a player to a party is `mine` of that party.
pub mod Keeping
pub mod Worlds
use rubyserver.Base.{
  ℕ, Bool, true, false, not, ◌&&◌, ◌||◌, List, [], ◌∷◌, ◌++◌, ◌==◌, if◌then◌else◌,
}
use rubyserver.Game.Party.{
  Party, contains, new_party, pass_party_leadership, leave_party, join_party, remove_invite,
  invite_player,
}

abbrev pub World : Type 0
World = List Party

-- Whether a player has a party, and whether Player::isInviting holds for it.
unfoldable pub has_party : ℕ → World → Bool
has_party player [] = false
has_party player (s ∷ ps) = s.mine player || has_party player ps

unfoldable pub is_inviting : ℕ → ℕ → World → Bool
is_inviting player invited [] = false
is_inviting player invited (s ∷ ps) =
    if s.mine player
    then s.leader == player && contains invited s.invite_list
    else is_inviting player invited ps

abbrev pub keep : Party → World → World
keep s ps = if s.disbanded then ps else s ∷ ps

-- An operation of the party of a player.
unfoldable pub in_party : ℕ → (Party → Party) → World → World
in_party player f [] = []
in_party player f (s ∷ ps) =
    let rest = in_party player f ps in if s.mine player then keep (f s) ps else s ∷ rest

-- `online` is that getPlayerByID finds the player.
unfoldable pub invite_as_leader : ℕ → ℕ → Party → Party
invite_as_leader player invited s =
    if not (s.leader == player) then s else (invite_player invited s).1

unfoldable pub player_invite_to_party : (ℕ → Bool) → ℕ → ℕ → World → World
player_invite_to_party online player invited ps =
    if player == invited || (not (online player) || not (online invited))
    then ps
    else (if is_inviting invited player ps || has_party invited ps
        then ps
        else (if not (has_party player ps)
            then (invite_player invited (new_party player)).1 ∷ ps
            else in_party player (invite_as_leader player invited) ps))

-- `allowed` is what the hook of the party answers.
unfoldable pub join_of_leader : Bool → ℕ → ℕ → Party → Party
join_of_leader allowed player leader s =
    if not (s.leader == leader) then s else (join_party allowed player s).1

unfoldable pub player_join_party : (ℕ → Bool) → Bool → ℕ → ℕ → World → World
player_join_party online allowed player leader ps =
    if not (online player) || (not (online leader) || not (is_inviting leader player ps))
    then ps
    else (if has_party player ps
        then ps
        else in_party leader (join_of_leader allowed player leader) ps)

unfoldable pub revoke_as_leader : Bool → Bool → ℕ → ℕ → Party → Party
revoke_as_leader online allowed player invited s =
    if not (s.leader == player)
    then s
    else (if not online || not (contains invited s.invite_list)
        then s
        else (remove_invite allowed invited s).1)

unfoldable pub player_revoke_party_invitation : (ℕ → Bool) → Bool → ℕ → ℕ → World → World
player_revoke_party_invitation online allowed player invited ps =
    if not (online player)
    then ps
    else in_party player (revoke_as_leader (online invited) allowed player invited) ps

unfoldable pub pass_as_leader : Bool → ℕ → ℕ → Party → Party
pass_as_leader online player new_leader s =
    if not (s.leader == player)
    then s
    else (if not online || (new_leader == player || not (s.mine new_leader))
        then s
        else (pass_party_leadership new_leader s).1)

unfoldable pub player_pass_party_leadership : (ℕ → Bool) → ℕ → ℕ → World → World
player_pass_party_leadership online player new_leader ps =
    if not (online player)
    then ps
    else in_party player (pass_as_leader (online new_leader) player new_leader) ps

-- `in_fight` is the condition CONDITION_INFIGHT; `leaves` and `disbands` are the hooks' answers.
unfoldable pub leave_in_peace : Bool → Bool → Bool → ℕ → Party → Party
leave_in_peace in_fight leaves disbands player s =
    if in_fight then s else (leave_party leaves disbands player s).1

unfoldable pub player_leave_party : (ℕ → Bool) → Bool → Bool → Bool → ℕ → World → World
player_leave_party online in_fight leaves disbands player ps =
    if not (online player)
    then ps
    else in_party player (leave_in_peace in_fight leaves disbands player) ps
