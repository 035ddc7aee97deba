-- ===== src/Game/Party/Tests.antt =====
-- The players of a small server and their parties.
use rubyserver.Base.{ℕ, ◌≡◌, refl, Bool, true, false, List, [], ◌∷◌, arith, ltb}
use rubyserver.Game.Party.{
  new_party, erase, empty, disband, pass_party_leadership, choose_leader, replace_leader,
  drop_player, leave_party, join_party, invite_player,
}
use rubyserver.Game.Party.Handlers.{
  has_party, is_inviting, in_party, invite_as_leader, player_invite_to_party, join_of_leader,
  player_join_party, pass_as_leader, player_pass_party_leadership, leave_in_peace,
  player_leave_party,
}
use rubyserver.Game.Party.Handlers.Worlds.{
  Request, invite, join, pass, leave, request, run, run-IsWorld,
}
use rubyserver.Game.Party.Handlers.Keeping.{IsWorld, parties_of}

abbrev online : ℕ → Bool
online player = ltb player 10

no_parties-IsWorld : IsWorld []
no_parties-IsWorld = (tt, λ p. unfold parties_of in omega arith)

-- Red invites Leaf and Blue, who join; Red passes the lead to Leaf and leaves.
abbrev requests : List Request
requests =
    invite 1 2 ∷ invite 1 3 ∷ join true 2 1 ∷ join true 3 1 ∷ pass 1 2 ∷ leave false true 1 ∷ []

run-IsWorld_example : IsWorld (run online requests [])
run-IsWorld_example = run-IsWorld online requests [] no_parties-IsWorld

blue_remains : has_party 3 (run online requests []) ≡ true
unfolding has_party run request player_invite_to_party player_join_party
    player_pass_party_leadership player_leave_party in_party invite_as_leader join_of_leader
    pass_as_leader leave_in_peace is_inviting new_party invite_player join_party
    pass_party_leadership leave_party choose_leader replace_leader drop_player erase empty disband
blue_remains = refl

red_gone : has_party 1 (run online requests []) ≡ false
unfolding has_party run request player_invite_to_party player_join_party
    player_pass_party_leadership player_leave_party in_party invite_as_leader join_of_leader
    pass_as_leader leave_in_peace is_inviting new_party invite_player join_party
    pass_party_leadership leave_party choose_leader replace_leader drop_player erase empty disband
red_gone = refl
