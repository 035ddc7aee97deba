-- ===== src/Thing/Tile/Stack.antt =====
-- The position that a client is told of an item, against its index on the tile.
use rubyserver.Base.{
  ℕ, zero, suc, ◌+◌, ◌≤◌, ◌<◌, ◌≡◌, refl, sym, Bool, true, List, [], ◌∷◌, Option, none, some, ltb,
  leb, ◌==◌, if◌then◌else◌, length, arith, Bool-cases, inl, inr, if_split,
}
use rubyserver.Thing.Tile.{
  TileItem, item, Tile, ground_count, top_item_count, find_top, find_down, is_at, get_thing_index,
  Search, out_of_sight, past, search_top, count_seen, search_down, after_top, after_creatures,
  get_stackpos_of_item,
}

-- The tenth thing and those after it are out of sight.
abbrev pub in_sight : Option ℕ → Option ℕ
in_sight none = none
in_sight (some n) = if ltb n 10 then some n else none

abbrev pub everyone : ℕ → Bool
everyone _ = true

-- An index that is found is not before the one counted from.
abbrev From : ℕ → Option ℕ → Type 0
From n none = Unit
From n (some m) = n ≤ m

From-suc : (n : ℕ) (o : Option ℕ) → From (suc n) o → From n o
From-suc n none h = tt
From-suc n (some m) h = omega (arith, h)

find_top-From : (skip uid : ℕ) (xs : List TileItem) (n : ℕ) → From n (find_top skip uid xs n)
unfolding find_top
find_top-From skip uid [] n = tt
find_top-From (suc skip) uid (x ∷ xs) n = find_top-From skip uid xs n
find_top-From zero uid (x ∷ xs) n =
    if_split (From n) (x.uid == uid) (some n) _ (λ e. omega arith)
      (λ e. From-suc n (find_top zero uid xs (suc n)) (find_top-From zero uid xs (suc n)))

find_down-From : (down uid : ℕ) (xs : List TileItem) (n : ℕ) → From n (find_down down uid xs n)
unfolding find_down
find_down-From zero uid xs n = tt
find_down-From (suc down) uid [] n = tt
find_down-From (suc down) uid (x ∷ xs) n =
    if_split (From n) (x.uid == uid) (some n) _ (λ e. omega arith)
      (λ e. From-suc n (find_down down uid xs (suc n)) (find_down-From down uid xs (suc n)))

From-in_sight : (n : ℕ) (o : Option ℕ) → 10 ≤ n → From n o → in_sight o ≡ none
From-in_sight n none h k = refl
From-in_sight n (some m) h k = ground (arith, h, k)

search_top-eq :
    (skip uid : ℕ) (xs : List TileItem) (n : ℕ)
    → n < 10
    → after_top (search_top skip uid xs n) ≡ in_sight (find_top skip uid xs n)
unfolding search_top find_top after_top
search_top-eq skip uid [] n h = refl
search_top-eq (suc skip) uid (x ∷ xs) n h = search_top-eq skip uid xs n h
search_top-eq zero uid (x ∷ xs) n h = elim (Bool-cases (x.uid == uid)) [
  | inl e ↦ ground (arith, e, h)
  | inr e ↦ elim (Bool-cases (suc n == 10)) [
    | inl k ↦ ground (
      arith,
      e,
      k,
      From-in_sight (suc n) (find_top zero uid xs (suc n)) (ground (arith, k))
          (find_top-From zero uid xs (suc n)),
    )
    | inr k ↦ ground (arith, e, k, search_top-eq zero uid xs (suc n) (ground (arith, h, k)))
  ]
]

search_down-eq :
    (down uid : ℕ) (xs : List TileItem) (n : ℕ)
    → n < 10
    → search_down down uid xs n ≡ in_sight (find_down down uid xs n)
unfolding search_down find_down
search_down-eq zero uid xs n h = refl
search_down-eq (suc down) uid [] n h = refl
search_down-eq (suc down) uid (x ∷ xs) n h = elim (Bool-cases (x.uid == uid)) [
  | inl e ↦ ground (arith, e, h)
  | inr e ↦ elim (Bool-cases (leb 10 (suc n))) [
    | inl k ↦ ground (
      arith,
      e,
      k,
      From-in_sight (suc n) (find_down down uid xs (suc n)) (ground (arith, k))
          (find_down-From down uid xs (suc n)),
    )
    | inr k ↦ ground (arith, e, k, search_down-eq down uid xs (suc n) (ground (arith, k)))
  ]
]

count_seen-everyone :
    (cs : List ℕ) (n : ℕ)
    → n < 10
    → count_seen everyone cs n
      ≡ (if ltb (n + length cs) 10 then past (n + length cs) else out_of_sight)
unfolding count_seen
count_seen-everyone [] n h = ground (arith, h)
count_seen-everyone (c ∷ cs) n h = elim (Bool-cases (leb 10 (suc n))) [
  | inl k ↦ ground (arith, h, k)
  | inr k ↦ ground (arith, h, k, count_seen-everyone cs (suc n) (ground (arith, k)))
]

after_creatures-eq :
    (it : TileItem) (t : Tile) (n : ℕ)
    → n < 10
    → after_creatures (count_seen everyone t.creatures n) it t
      ≡ in_sight (find_down t.down_item_count it.uid t.items (n + length t.creatures))
unfolding after_creatures
after_creatures-eq it t n h =
    let m = n + length t.creatures in
    let found = find_down t.down_item_count it.uid t.items m in
    rw (count_seen-everyone t.creatures n h) (
      if_split (λ (s : Search). after_creatures s it t ≡ in_sight found) (ltb m 10) (past m)
        out_of_sight (λ e. search_down-eq t.down_item_count it.uid t.items m (ground (arith, e)))
        (λ e. sym (
          From-in_sight m found (ground (arith, e))
            (find_down-From t.down_item_count it.uid t.items m))))

ground_count-lt : (g : Option TileItem) → ground_count g < 10
unfolding ground_count
ground_count-lt none = omega arith
ground_count-lt (some g) = omega arith

From-weaker : (n m : ℕ) (o : Option ℕ) → n ≤ m → From m o → From n o
From-weaker n m none h k = tt
From-weaker n m (some i) h k = omega (arith, h, k)

-- A player who sees all creatures of a tile is told of an item the index that it has there, of the
-- first ten things, and none for an item behind them or on another tile.
pub get_stackpos_of_item-get_thing_index :
    (it : TileItem) (t : Tile)
    → get_stackpos_of_item everyone it t ≡ in_sight (get_thing_index (item it) t)
unfolding get_stackpos_of_item get_thing_index
get_stackpos_of_item-get_thing_index it t = elim (Bool-cases (is_at t.ground it)) [
  | inl e ↦ ground (arith, e)
  | inr e ↦ elim (Bool-cases it.always_on_top) [
    | inl k ↦ ground (
      arith,
      e,
      k,
      search_top-eq t.down_item_count it.uid t.items (ground_count t.ground)
          (ground_count-lt t.ground),
    )
    | inr k ↦ elim (Bool-cases (leb 10 (ground_count t.ground + top_item_count t))) [
      | inl far ↦
          let n = ground_count t.ground + top_item_count t in
          let m = n + length t.creatures in
          ground (
            arith,
            e,
            k,
            far,
            From-in_sight n (find_down t.down_item_count it.uid t.items m) (ground (arith, far)) (
                From-weaker n m (find_down t.down_item_count it.uid t.items m) (omega arith)
                  (find_down-From t.down_item_count it.uid t.items m)),
          )
      | inr near ↦ ground (
        arith,
        e,
        k,
        near,
        after_creatures-eq it t (ground_count t.ground + top_item_count t) (ground (arith, near)),
      )
    ]
  ]
]
