-- ===== src/Game/Chat/Channels.antt =====
-- Who is in a channel after leaving all of them.
use rubyserver.Base.{ℕ, ◌≡◌, refl, false, List, [], ◌∷◌, ◌==◌, arith, Bool-cases, inl, inr}
use rubyserver.Game.Chat.{
  Channel, Player, Chat, mem, erase, remove_invite, remove_user, remove_user_of_all, leave_private,
  remove_user_from_all_channels,
}

mem-erase : (x : ℕ) (xs : List ℕ) → mem x (erase x xs) ≡ false
unfolding erase
mem-erase x [] = refl
mem-erase x (y ∷ ys) = ground (arith, mem-erase x ys)

mem-remove_user :
    (player : Player) (c : Channel) → mem player.id (remove_user player c).1.users ≡ false
unfolding remove_user
mem-remove_user player c = ground (arith, mem-erase player.id c.users)

-- None of the channels has the player as a user.
abbrev pub AreLeft : ℕ → List Channel → Type 0
AreLeft id [] = Unit
AreLeft id (c ∷ cs) = (mem id c.users ≡ false) × AreLeft id cs

-- Nor is the player invited to one, or its owner.
abbrev pub AreForgotten : Player → List Channel → Type 0
AreForgotten player [] = Unit
AreForgotten player (c ∷ cs) =
    ((mem player.id c.users ≡ false)
      × ((mem player.guid c.invites ≡ false) × ((c.owner == player.guid) ≡ false)))
    × AreForgotten player cs

remove_user_of_all-AreLeft :
    (player : Player) (cs : List Channel) → AreLeft player.id (remove_user_of_all player cs)
unfolding remove_user_of_all
remove_user_of_all-AreLeft player [] = tt
remove_user_of_all-AreLeft player (c ∷ cs) =
    (mem-remove_user player c, remove_user_of_all-AreLeft player cs)

remove_user-invites :
    (player : Player) (c : Channel)
    → (mem player.guid (remove_user player (remove_invite player.guid c).1).1.invites ≡ false)
      × ((remove_user player (remove_invite player.guid c).1).1.owner ≡ c.owner)
unfolding remove_user remove_invite
remove_user-invites player c = ground (arith, mem-erase player.guid c.invites)

leave_private-AreForgotten :
    (player : Player) (cs : List Channel) → AreForgotten player (leave_private player cs)
unfolding leave_private
leave_private-AreForgotten player [] = tt
leave_private-AreForgotten player (c ∷ cs) = elim (Bool-cases (c.owner == player.guid)) [
  | inl e ↦ rw (e, leave_private) (leave_private-AreForgotten player cs)
  | inr e ↦
      let kept = remove_user-invites player c in
      rw (e, leave_private)
        ((
          (
            mem-remove_user player (remove_invite player.guid c).1,
            (kept.0, ground (arith, kept, e)),
          ),
          leave_private-AreForgotten player cs,
        ))
]

-- After removeUserFromAllChannels no channel of the chat has the player as a user, and of the private
-- channels that remain none has the player invited or for its owner.
pub remove_user_from_all_channels-AreLeft :
    (player : Player) (chat : Chat)
    → AreLeft player.id (remove_user_from_all_channels player chat).normal_channels
      × (AreLeft player.id (remove_user_from_all_channels player chat).party_channels
          × (AreLeft player.id (remove_user_from_all_channels player chat).guild_channels
              × AreForgotten player (remove_user_from_all_channels player chat).private_channels))
unfolding remove_user_from_all_channels
remove_user_from_all_channels-AreLeft player chat = (
  remove_user_of_all-AreLeft player chat.normal_channels,
  (
    remove_user_of_all-AreLeft player chat.party_channels,
    (
      remove_user_of_all-AreLeft player chat.guild_channels,
      leave_private-AreForgotten player chat.private_channels,
    ),
  ),
)
