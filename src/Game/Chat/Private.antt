-- ===== src/Game/Chat/Private.antt =====
-- The private channels: their numbers, and one for each owner.
use rubyserver.Base.{
  ℕ, zero, suc, ◌+◌, ◌≤◌, ◌<◌, ◌≡◌, refl, subst, Bool, false, not, ◌&&◌, ◌||◌, List, [], ◌∷◌, ◌++◌,
  Option, none, some, ◌==◌, ltb, leb, if◌then◌else◌, arith, Bool-cases, Option-cases, inl, inr,
}
use rubyserver.Game.Chat.{
  Channel, Player, Chat, has_key, new_channel, free_slot, create_private, get_private_channel,
  is_some, create_kind, create_channel, with_private, get_channel, channel_guild, channel_party,
  channel_private,
}

unfoldable pub times_key : ℕ → List Channel → ℕ
times_key key [] = 0
times_key key (c ∷ cs) = (if c.key == key then 1 else 0) + times_key key cs

unfoldable pub times_owner : ℕ → List Channel → ℕ
times_owner guid [] = 0
times_owner guid (c ∷ cs) = (if c.owner == guid then 1 else 0) + times_owner guid cs

-- A number outside of 100 to 9999 is used by no channel, another one by one at most; and a player
-- owns one at most.
abbrev pub IsPrivate : ℕ → ℕ → List Channel → Type 0
IsPrivate key guid cs =
    (times_key key cs ≤ (if leb 100 key && ltb key 10000 then 1 else 0)) × (times_owner guid cs ≤ 1)

abbrev pub ArePrivate : List Channel → Type 0
ArePrivate cs = (key guid : ℕ) → IsPrivate key guid cs

times_key-append :
    (key : ℕ) (cs : List Channel) (c : Channel)
    → times_key key (cs ++ (c ∷ [])) ≡ times_key key cs + (if c.key == key then 1 else 0)
unfolding times_key
times_key-append key [] c = omega arith
times_key-append key (d ∷ cs) c = omega (arith, times_key-append key cs c)

times_owner-append :
    (guid : ℕ) (cs : List Channel) (c : Channel)
    → times_owner guid (cs ++ (c ∷ [])) ≡ times_owner guid cs + (if c.owner == guid then 1 else 0)
unfolding times_owner
times_owner-append guid [] c = omega arith
times_owner-append guid (d ∷ cs) c = omega (arith, times_owner-append guid cs c)

has_key-times_key : (key : ℕ) (cs : List Channel) → has_key key cs ≡ false → times_key key cs ≡ 0
unfolding has_key times_key
has_key-times_key key [] h = refl
has_key-times_key key (c ∷ cs) h = ground (arith, h, has_key-times_key key cs)

get_private_channel-none :
    (guid : ℕ) (cs : List Channel) → get_private_channel guid cs ≡ none → times_owner guid cs ≡ 0
unfolding get_private_channel times_owner
get_private_channel-none guid [] h = refl
get_private_channel-none guid (c ∷ cs) h = ground (arith, h, get_private_channel-none guid cs)

-- The number that is found is free, and below the end.
free_slot-some :
    (i left key : ℕ) (cs : List Channel)
    → free_slot i left cs ≡ some key
    → (has_key key cs ≡ false) × ((i ≤ key) × (key < i + left))
unfolding free_slot
free_slot-some i zero key cs e = absurd (ground (arith, e))
free_slot-some i (suc left) key cs e = elim (Bool-cases (has_key i cs)) [
  | inl h ↦
      let later = free_slot-some (suc i) left key cs (ground (arith, e, h)) in
      (later.0, (omega (arith, later.1.0), omega (arith, later.1.1)))
  | inr h ↦
      let same : i ≡ key = ground (arith, e, h) in
      (subst (λ (k : ℕ). has_key k cs ≡ false) same h, (omega (arith, same), omega (arith, same)))
]

-- A channel that is created.
append-IsPrivate :
    (i key guid : ℕ) (player : Player) (cs : List Channel)
    → ArePrivate cs
    → has_key i cs ≡ false
    → 100 ≤ i
    → i < 10000
    → get_private_channel player.guid cs ≡ none
    → IsPrivate key guid (cs ++ (record (new_channel i i) { owner = player.guid } ∷ []))
unfolding new_channel
append-IsPrivate i key guid player cs h free low high none_owned = ground (
  arith,
  h key guid,
  low,
  high,
  has_key-times_key i cs free,
  get_private_channel-none player.guid cs none_owned,
  times_key-append key cs (record (new_channel i i) { owner = player.guid }),
  times_owner-append guid cs (record (new_channel i i) { owner = player.guid }),
)

create_private-ArePrivate :
    {key : ℕ} {cs' : List Channel} (player : Player) (slot : Option ℕ) (cs : List Channel)
    → ArePrivate cs
    → free_slot 100 9900 cs ≡ slot
    → get_private_channel player.guid cs ≡ none
    → create_private player slot cs ≡ some (key, cs')
    → ArePrivate cs'
unfolding create_private
create_private-ArePrivate player none cs h free none_owned e = absurd (ground (arith, e))
create_private-ArePrivate {cs' = cs'} player (some i) cs h free none_owned e =
    let slot = free_slot-some 100 9900 i cs free in
    let same : cs ++ (record (new_channel i i) { owner = player.guid } ∷ []) ≡ cs' =
      ground (arith, e) in
    subst ArePrivate same (λ key guid.
      append-IsPrivate i key guid player cs h slot.0 slot.1.0 (omega (arith, slot.1.1)) none_owned)

with_private-ArePrivate :
    {key : ℕ} {chat' : Chat} (chat : Chat) (made : Option (ℕ × List Channel))
    → ((key : ℕ) (cs : List Channel) → made ≡ some (key, cs) → ArePrivate cs)
    → with_private chat made ≡ some (key, chat')
    → ArePrivate chat'.private_channels
unfolding with_private
with_private-ArePrivate chat none h e = absurd (ground (arith, e))
with_private-ArePrivate {chat' = chat'} chat (some (k, cs)) h e =
    let same : cs ≡ chat'.private_channels = ground (arith, e) in
    subst ArePrivate same (h k cs refl)

is_some-none : {A : Type 0} (o : Option A) → is_some o ≡ false → o ≡ none
is_some-none none h = refl
is_some-none (some a) h = absurd (ground (arith, h))

create_kind-ArePrivate :
    {key : ℕ} {chat' : Chat} (player : Player) (channel_id : ℕ) (chat : Chat)
    → ArePrivate chat.private_channels
    → create_kind player channel_id chat ≡ some (key, chat')
    → ArePrivate chat'.private_channels
unfolding create_kind
create_kind-ArePrivate {key = key} {chat' = chat'} player channel_id chat h e =
    elim (Bool-cases (channel_id == channel_guild)) [
      | inl g ↦ elim (Option-cases player.guild) [
        | inl n ↦ absurd (ground (arith, e, g, n))
        | inr (o, n) ↦
            let same : chat.private_channels ≡ chat'.private_channels = ground (arith, e, g, n) in
            subst ArePrivate same h
      ]
      | inr g ↦ elim (Bool-cases (channel_id == channel_party)) [
        | inl p ↦ elim (Option-cases player.party) [
          | inl n ↦ absurd (ground (arith, e, g, p, n))
          | inr (o, n) ↦
              let same : chat.private_channels ≡ chat'.private_channels =
                ground (arith, e, g, p, n) in
              subst ArePrivate same h
        ]
        | inr p ↦ elim (Bool-cases (channel_id == channel_private)) [
          | inl c ↦
              let cs = chat.private_channels in
              elim (Bool-cases
                (not player.premium || is_some (get_private_channel player.guid cs))) [
                  | inl refused ↦ absurd (ground (arith, e, g, p, c, refused))
                  | inr allowed ↦
                      let none_owned =
                        is_some-none (get_private_channel player.guid cs)
                          (ground (arith, allowed)) in
                      with_private-ArePrivate {key = key} {chat' = chat'} chat
                        (create_private player (free_slot 100 9900 cs) cs)
                        (λ k new made.
                          create_private-ArePrivate player (free_slot 100 9900 cs) cs h refl
                            none_owned made)
                        (ground (arith, e, g, p, c, allowed))
                ]
          | inr c ↦ absurd (ground (arith, e, g, p, c))
        ]
      ]
    ]

-- When createChannel of a chat gives a channel, the private channels of the new chat still have distinct
-- numbers from 100 to 9999 and no two of one owner, if those of the old chat did.
pub create_channel-ArePrivate :
    {key : ℕ} {chat' : Chat} (can_join : Bool) (player : Player) (channel_id : ℕ) (chat : Chat)
    → ArePrivate chat.private_channels
    → create_channel can_join player channel_id chat ≡ some (key, chat')
    → ArePrivate chat'.private_channels
unfolding create_channel
create_channel-ArePrivate {key = key} {chat' = chat'} can_join player channel_id chat h e =
    elim (Bool-cases (is_some (get_channel can_join player channel_id chat))) [
      | inl there ↦ absurd (ground (arith, e, there))
      | inr there ↦
          create_kind-ArePrivate {key = key} {chat' = chat'} player channel_id chat h
            (ground (arith, e, there))
    ]
