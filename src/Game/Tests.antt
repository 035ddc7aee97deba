-- ===== src/Game/Tests.antt =====
-- The theorems on the game's data at concrete values.
use rubyserver.Base.{
  refl, true, false, ◌==◌, arith, ◌≡◌, ◌||◌, [], ◌∷◌, ◌+◌, ◌*◌, ◌/◌, some, none, inl, if◌then◌else◌,
}
use rubyserver.World.Position.{Position, are_in_range}
use rubyserver.Game.Party.Sharing.{
  Sharer, Sharing, Now, set_shared_experience, update_player_ticks, update_shared_experience,
  can_enable_shared_experience, can_use_shared_experience, can_all_use, highest_level, was_active,
}
use rubyserver.Game.Party.Current.{IsCurrent, set, ticks, act, act-IsCurrent}
use rubyserver.Game.Party.{
  Party, empty, erase, disband, pass_party_leadership, choose_leader, replace_leader, drop_player,
  leave_party, remove_invite, invite_player, new_party,
}
use rubyserver.Game.Party.Members.{times, IsParty}
use rubyserver.Game.Wildcard.{Node, node, nil, insert, find_one}
use rubyserver.Game.Wildcard.Names.{contains}
use rubyserver.Game.Wildcard.Trees.{IsTree, insert-IsTree}
use rubyserver.Game.Wildcard.Online.{comes, goes, run, there, run-there}
use rubyserver.Game.Wildcard.Search.{Answers, find_one-Answers}

abbrev nobody : Node
nobody = node false nil

nobody-IsTree : IsTree nobody
nobody-IsTree = unfold IsTree in tt

-- "ab" and "ac"
abbrev two : Node
two = insert 97 (99 ∷ []) (insert 97 (98 ∷ []) nobody)

two-IsTree : IsTree two
two-IsTree =
    insert-IsTree (99 ∷ []) 97 (insert 97 (98 ∷ []) nobody)
      (insert-IsTree (98 ∷ []) 97 nobody nobody-IsTree)

-- Someone called "ab" leaves and comes back.
run-there_example :
    IsTree (run (goes (97 ∷ 98 ∷ []) ∷ comes 97 (98 ∷ []) ∷ []) two)
    × (contains (97 ∷ 98 ∷ []) (run (goes (97 ∷ 98 ∷ []) ∷ comes 97 (98 ∷ []) ∷ []) two)
        ≡ there
            (97 ∷ 98 ∷ [])
            (goes (97 ∷ 98 ∷ []) ∷ comes 97 (98 ∷ []) ∷ [])
            (contains (97 ∷ 98 ∷ []) two))
run-there_example =
    run-there (goes (97 ∷ 98 ∷ []) ∷ comes 97 (98 ∷ []) ∷ []) (97 ∷ 98 ∷ []) two two-IsTree

find_one-Answers_example : Answers (97 ∷ []) two (find_one (97 ∷ []) two)
find_one-Answers_example = find_one-Answers 97 [] two two-IsTree

-- A party of the leader 1 with the members 2 and 3, and with 4 invited.
abbrev trio : Party
trio = record {
  leader = 1;
  member_list = 2 ∷ 3 ∷ [];
  invite_list = 4 ∷ [];
  mine = λ p. p == 1 || (p == 2 || p == 3);
  disbanded = false;
}

trio-IsParty : IsParty trio
trio-IsParty p = unfold times in ground arith

-- The member in front leads when the leader leaves.
leave_party-leader : (leave_party true true 1 trio).1.leader ≡ 2
unfolding leave_party replace_leader choose_leader pass_party_leadership drop_player empty erase
leave_party-leader = refl

-- An invitation of a new party is its only content, and removing it disbands the party.
invite_then_remove : (remove_invite true 5 (invite_player 5 (new_party 9)).1).1.disbanded ≡ true
unfolding remove_invite invite_player new_party empty disband erase
invite_then_remove = refl

abbrev here : Position
here = record { x = 1000; y = 1000; z = 7 }

abbrev brock : Sharer
brock = record { id = 1; level = 30; position = here; not_gain_in_fight = false }

abbrev gary : Sharer
gary = record { id = 2; level = 25; position = here; not_gain_in_fight = false }

abbrev now : Now
now = record { time = 70000; pz_locked = 60000; min_level = λ level. (level * 2 + 2) / 3 }

-- Brock leads and fought at 20000; Gary did not fight.
abbrev duo : Sharing
duo = record {
  leader = brock;
  member_list = gary ∷ [];
  ticks_map = λ id. if id == 1 then some 20000 else none;
  shared_exp_active = false;
  shared_exp_enabled = false;
}

act-IsCurrent_example : IsCurrent now (act now (set 1 true) duo)
act-IsCurrent_example = act-IsCurrent now (set 1 true) duo (inl refl)

-- Sharing is not enabled before Gary fights too.
duo_waits : (act now (set 1 true) duo).shared_exp_enabled ≡ false
unfolding act set_shared_experience can_enable_shared_experience can_use_shared_experience
    can_all_use highest_level was_active are_in_range
duo_waits = refl

duo_shares : (act now (ticks gary 5) (act now (set 1 true) duo)).shared_exp_enabled ≡ true
unfolding act set_shared_experience update_player_ticks update_shared_experience
    can_enable_shared_experience can_use_shared_experience can_all_use highest_level was_active
    are_in_range
duo_shares = refl
