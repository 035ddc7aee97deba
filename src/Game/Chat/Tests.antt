-- ===== src/Game/Chat/Tests.antt =====
-- The theorems on the chat at a concrete chat, and runs of the code.
use rubyserver.Base.{◌≡◌, refl, true, false, [], ◌∷◌, some, none, arith}
use rubyserver.Game.Chat.{
  Channel, Player, Chat, channel_private, create_channel, create_kind, create_private, with_private,
  free_slot, has_key, get_channel, remove_user_from_all_channels, get_other, find,
  get_private_channel, new_channel,
}
use rubyserver.Game.Chat.Channels.{AreLeft, AreForgotten, remove_user_from_all_channels-AreLeft}
use rubyserver.Game.Chat.Private.{ArePrivate, times_key, times_owner, create_channel-ArePrivate}

abbrev player : Player
player = record { id = 1; guid = 7; guild = none; rank_level = none; party = none; premium = true }

abbrev empty_chat : Chat
empty_chat = record {
  normal_channels = [];
  private_channels = [];
  party_channels = [];
  guild_channels = [];
}

empty_chat-ArePrivate : ArePrivate empty_chat.private_channels
empty_chat-ArePrivate key guid = unfold times_key times_owner in (omega arith, omega arith)

abbrev own_channel : Channel
own_channel = record {
  key = 100;
  id = 100;
  users = [];
  public_channel = false;
  invites = [];
  owner = 7;
}

create_own :
    create_channel false player channel_private empty_chat
    ≡ some (100, record empty_chat { private_channels = own_channel ∷ [] })
unfolding create_channel create_kind create_private with_private free_slot has_key get_channel
    get_other find get_private_channel new_channel
create_own = refl

create_channel-ArePrivate_example : ArePrivate (own_channel ∷ [])
create_channel-ArePrivate_example =
    create_channel-ArePrivate {key = 100}
      {chat' = record empty_chat { private_channels = own_channel ∷ [] }} false player
      channel_private empty_chat empty_chat-ArePrivate create_own

abbrev busy_chat : Chat
busy_chat = record empty_chat {
  normal_channels = record own_channel { owner = 0; users = 2 ∷ 1 ∷ [] } ∷ [];
  private_channels = own_channel ∷ record own_channel { owner = 8; invites = 7 ∷ 9 ∷ [] } ∷ [];
}

remove_user_from_all_channels-AreLeft_example :
    let left = remove_user_from_all_channels player busy_chat in
    AreLeft 1 left.normal_channels
    × (AreLeft 1 left.party_channels
        × (AreLeft 1 left.guild_channels × AreForgotten player left.private_channels))
remove_user_from_all_channels-AreLeft_example =
    remove_user_from_all_channels-AreLeft player busy_chat
