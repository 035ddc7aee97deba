-- ===== src/World/ItemType.antt =====
-- src/items.h and src/items.cpp: what the server knows of a kind of item, and the table of kinds.
use rubyserver.Base.{ℕ, Bool, true, false, List, ◌∷◌, get_or}

-- itemgroup_t
pub data ItemGroup : Type 0 where
  none ground container weapon ammunition armor charges teleport magicfield writeable key splash
        fluid door deprecated :
      ItemGroup

-- The fields of ItemType that the modelled code reads.
pub record ItemType : Type 0 where
  pub group : ItemGroup
  pub client_id : ℕ
  pub stackable : Bool
  pub is_animation : Bool

unfoldable pub is_splash : ItemType → Bool
is_splash it = elim it.group [ splash ↦ true | _ ↦ false ]

unfoldable pub is_fluid_container : ItemType → Bool
is_fluid_container it = elim it.group [ fluid ↦ true | _ ↦ false ]

-- Items.items: the vector is not empty, since the loader makes the entry 0 first.
pub record Items : Type 0 where
  pub front : ItemType
  pub rest : List ItemType

-- getItemType: an id past the end is the entry at the front.
unfoldable pub get_item_type : Items → ℕ → ItemType
get_item_type items id = get_or (items.front ∷ items.rest) id items.front
