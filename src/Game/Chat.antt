-- ===== src/Game/Chat.antt =====
-- Chat and its channels of src/chat.h and src/chat.cpp. A std::map of channels is a list with one entry
-- for each key; the maps of users and invited players are lists of ids. What the Lua scripts of a
-- channel answer is an argument, and so are the messages that clients get left out.
pub mod Channels
pub mod Private
mod Tests
use rubyserver.Base.{
  ℕ, zero, suc, ◌+◌, Bool, true, false, not, ◌&&◌, ◌||◌, List, [], ◌∷◌, ◌++◌, Option, none, some,
  ltb, ◌==◌, if◌then◌else◌,
}

-- ChatChannel, and what PrivateChatChannel adds: the owner is 0 for other channels.
pub record Channel : Type 0 where
  pub key : ℕ
  pub id : ℕ
  pub users : List ℕ
  pub public_channel : Bool
  pub invites : List ℕ
  pub owner : ℕ

pub record Player : Type 0 where
  pub id : ℕ
  pub guid : ℕ
  pub guild : Option ℕ
  pub rank_level : Option ℕ
  pub party : Option ℕ
  pub premium : Bool

pub record Chat : Type 0 where
  pub normal_channels : List Channel
  pub private_channels : List Channel
  pub party_channels : List Channel
  pub guild_channels : List Channel

abbrev pub channel_guild : ℕ
channel_guild = 0

abbrev pub channel_party : ℕ
channel_party = 1

abbrev pub channel_private : ℕ
channel_private = 0xFFFF

abbrev pub mem : ℕ → List ℕ → Bool
mem x [] = false
mem x (y ∷ ys) = y == x || mem x ys

unfoldable pub erase : ℕ → List ℕ → List ℕ
erase x [] = []
erase x (y ∷ ys) = let rest = erase x ys in if y == x then rest else y ∷ rest

-- Maps of channels: find, emplace, erase, and writing through a pointer that was found.
unfoldable pub find : ℕ → List Channel → Option Channel
find key [] = none
find key (c ∷ cs) = let rest = find key cs in if c.key == key then some c else rest

unfoldable pub has_key : ℕ → List Channel → Bool
has_key key [] = false
has_key key (c ∷ cs) = c.key == key || has_key key cs

unfoldable pub put : Channel → List Channel → List Channel
put new [] = []
put new (c ∷ cs) = let rest = put new cs in if c.key == new.key then new ∷ cs else c ∷ rest

unfoldable pub erase_key : ℕ → List Channel → List Channel
erase_key key [] = []
erase_key key (c ∷ cs) = let rest = erase_key key cs in if c.key == key then rest else c ∷ rest

unfoldable pub is_invited : ℕ → Channel → Bool
is_invited guid c = guid == c.owner || mem guid c.invites

unfoldable pub remove_invite : ℕ → Channel → Bool × Channel
remove_invite guid c = (mem guid c.invites, record c { invites = erase guid c.invites })

unfoldable pub invite_player : ℕ → Channel → Channel
invite_player guid c = if mem guid c.invites then c else record c { invites = guid ∷ c.invites }

-- addUser: `joins` is the answer of executeOnJoinEvent.
unfoldable pub add_user : Bool → Player → Channel → Bool × Channel
add_user joins player c =
    if mem player.id c.users
    then (false, c)
    else (if not joins then (false, c) else (true, record c { users = player.id ∷ c.users }))

unfoldable pub remove_user : Player → Channel → Bool × Channel
remove_user player c =
    if mem player.id c.users
    then (true, record c { users = erase player.id c.users })
    else (false, c)

unfoldable pub exclude_player : Player → Channel → Channel
exclude_player player c =
    let (removed, c') = remove_invite player.guid c in
    if removed then (remove_user player c').1 else c

-- talk: whom the text is sent to.
unfoldable pub talk : Player → Channel → Option (List ℕ)
talk player c = if mem player.id c.users then some c.users else none

-- getChannel finds a channel in one of the maps.
pub data Which : Type 0 where
  normal private_channel party_channel guild_channel : Which

abbrev pub found : Which → Option Channel → Option (Which × Channel)
found which none = none
found which (some c) = some (which, c)

unfoldable pub find_of : Which → Option ℕ → List Channel → Option (Which × Channel)
find_of which none cs = none
find_of which (some key) cs = found which (find key cs)

abbrev pub invited_only : Player → Option Channel → Option (Which × Channel)
invited_only player none = none
invited_only player (some c) = if is_invited player.guid c then some (private_channel, c) else none

-- `can_join` is the answer of executeCanJoinEvent.
unfoldable pub get_other : Bool → Player → Option Channel → ℕ → Chat → Option (Which × Channel)
get_other can_join player none channel_id chat =
    invited_only player (find channel_id chat.private_channels)
get_other can_join player (some c) channel_id chat = if not can_join then none else some (normal, c)

unfoldable pub get_channel : Bool → Player → ℕ → Chat → Option (Which × Channel)
get_channel can_join player channel_id chat =
    if channel_id == channel_guild
    then find_of guild_channel player.guild chat.guild_channels
    else (if channel_id == channel_party
        then find_of party_channel player.party chat.party_channels
        else get_other can_join player (find channel_id chat.normal_channels) channel_id chat)

unfoldable pub get_private_channel : ℕ → List Channel → Option Channel
get_private_channel guid [] = none
get_private_channel guid (c ∷ cs) =
    let rest = get_private_channel guid cs in if c.owner == guid then some c else rest

abbrev pub is_some {ℓ} : {A : Type ℓ} → Option A → Bool
is_some none = false
is_some (some a) = true

unfoldable pub new_channel : ℕ → ℕ → Channel
new_channel key id = record {
  key = key;
  id = id;
  users = [];
  public_channel = false;
  invites = [];
  owner = 0;
}

-- The loop for a free private channel: i and the numbers that are left up to 9999.
unfoldable pub free_slot : ℕ → ℕ → List Channel → Option ℕ
free_slot i zero cs = none
free_slot i (suc left) cs =
    let later = free_slot (suc i) left cs in if has_key i cs then later else some i

-- emplace keeps a channel that is there.
unfoldable pub emplace : ℕ → ℕ → List Channel → List Channel
emplace key id cs = if has_key key cs then cs else cs ++ (new_channel key id ∷ [])

unfoldable pub create_private : Player → Option ℕ → List Channel → Option (ℕ × List Channel)
create_private player none cs = none
create_private player (some i) cs =
    some (i, cs ++ (record (new_channel i i) { owner = player.guid } ∷ []))

unfoldable pub with_private : Chat → Option (ℕ × List Channel) → Option (ℕ × Chat)
with_private chat none = none
with_private chat (some (key, cs)) = some (key, record chat { private_channels = cs })

-- The switch of createChannel: the key of the new channel, and the chat.
unfoldable pub create_kind : Player → ℕ → Chat → Option (ℕ × Chat)
create_kind player channel_id chat =
    if channel_id == channel_guild
    then elim player.guild [
      | none ↦ none
      | some g ↦ some (g, record chat { guild_channels = emplace g channel_id chat.guild_channels })
    ]
    else (if channel_id == channel_party
        then elim player.party [
          | none ↦ none
          | some p ↦
              some (p, record chat { party_channels = emplace p channel_id chat.party_channels })
        ]
        else (if channel_id == channel_private
            then (if not player.premium
                  || is_some (get_private_channel player.guid chat.private_channels)
                then none
                else with_private chat (
                    create_private player (free_slot 100 9900 chat.private_channels)
                      chat.private_channels))
            else none))

unfoldable pub create_channel : Bool → Player → ℕ → Chat → Option (ℕ × Chat)
create_channel can_join player channel_id chat =
    if is_some (get_channel can_join player channel_id chat)
    then none
    else create_kind player channel_id chat

-- deleteChannel
unfoldable pub delete_of : Option ℕ → List Channel → Option (List Channel)
delete_of none cs = none
delete_of (some key) cs = if has_key key cs then some (erase_key key cs) else none

abbrev pub done : Chat → (List Channel → Chat) → Option (List Channel) → Bool × Chat
done chat write none = (false, chat)
done chat write (some cs) = (true, write cs)

unfoldable pub delete_channel : Player → ℕ → Chat → Bool × Chat
delete_channel player channel_id chat =
    if channel_id == channel_guild
    then done chat (λ cs. record chat { guild_channels = cs })
        (delete_of player.guild chat.guild_channels)
    else (if channel_id == channel_party
        then done chat (λ cs. record chat { party_channels = cs })
            (delete_of player.party chat.party_channels)
        else done chat (λ cs. record chat { private_channels = cs })
            (delete_of (some channel_id) chat.private_channels))

unfoldable pub put_channel : Which → Channel → Chat → Chat
put_channel normal c chat = record chat { normal_channels = put c chat.normal_channels }
put_channel private_channel c chat = record chat { private_channels = put c chat.private_channels }
put_channel party_channel c chat = record chat { party_channels = put c chat.party_channels }
put_channel guild_channel c chat = record chat { guild_channels = put c chat.guild_channels }

-- addUserToChannel
unfoldable pub add_user_to : Bool → Player → Option (Which × Channel) → Chat → Bool × Chat
add_user_to joins player none chat = (false, chat)
add_user_to joins player (some (which, c)) chat =
    let (added, c') = add_user joins player c in
    if added then (true, put_channel which c' chat) else (false, chat)

unfoldable pub add_user_to_channel : Bool → Bool → Player → ℕ → Chat → Bool × Chat
add_user_to_channel can_join joins player channel_id chat =
    add_user_to joins player (get_channel can_join player channel_id chat) chat

-- removeUserFromChannel: the owner who leaves deletes the channel.
unfoldable pub remove_user_from : Player → ℕ → Option (Which × Channel) → Chat → Bool × Chat
remove_user_from player channel_id none chat = (false, chat)
remove_user_from player channel_id (some (which, c)) chat =
    let (removed, c') = remove_user player c in
    if not removed then (false, chat) else (
      true,
      (if c.owner == player.guid
          then (delete_channel player channel_id (put_channel which c' chat)).1
          else put_channel which c' chat),
    )

unfoldable pub remove_user_from_channel : Bool → Player → ℕ → Chat → Bool × Chat
remove_user_from_channel can_join player channel_id chat =
    remove_user_from player channel_id (get_channel can_join player channel_id chat) chat

-- removeUserFromAllChannels
unfoldable pub remove_user_of_all : Player → List Channel → List Channel
remove_user_of_all player [] = []
remove_user_of_all player (c ∷ cs) = (remove_user player c).1 ∷ remove_user_of_all player cs

unfoldable pub leave_private : Player → List Channel → List Channel
leave_private player [] = []
leave_private player (c ∷ cs) =
    let rest = leave_private player cs in
    if c.owner == player.guid
    then rest
    else (remove_user player (remove_invite player.guid c).1).1 ∷ rest

unfoldable pub remove_user_from_all_channels : Player → Chat → Chat
remove_user_from_all_channels player chat = record {
  normal_channels = remove_user_of_all player chat.normal_channels;
  party_channels = remove_user_of_all player chat.party_channels;
  guild_channels = remove_user_of_all player chat.guild_channels;
  private_channels = leave_private player chat.private_channels;
}

-- talkToChannel: the type of the text, and whom it goes to. `speak` is executeOnSpeakEvent, which may
-- change the type.
pub data SpeakClass : Type 0 where
  channel_y channel_o : SpeakClass
  other_class : ℕ → SpeakClass

abbrev pub is_officer : Option ℕ → Bool
is_officer none = false
is_officer (some level) = ltb 1 level

unfoldable pub speak_class : Player → ℕ → SpeakClass → SpeakClass
speak_class player channel_id class =
    if channel_id == channel_guild
    then (if is_officer player.rank_level then channel_o else channel_y)
    else (if channel_id == channel_private || channel_id == channel_party then channel_y else class)

unfoldable pub talk_in :
    (SpeakClass → Option SpeakClass)
    → Player
    → ℕ
    → SpeakClass
    → Option (Which × Channel)
    → Option (SpeakClass × List ℕ)
talk_in speak player channel_id class none = none
talk_in speak player channel_id class (some (which, c)) =
    elim (speak (speak_class player channel_id class)) [
      | none ↦ none
      | some class' ↦ elim (talk player c) [ none ↦ none | some users ↦ some (class', users) ]
    ]

unfoldable pub talk_to_channel :
    (SpeakClass → Option SpeakClass)
    → Bool
    → Player
    → SpeakClass
    → ℕ
    → Chat
    → Option (SpeakClass × List ℕ)
talk_to_channel speak can_join player class channel_id chat =
    talk_in speak player channel_id class (get_channel can_join player channel_id chat)
