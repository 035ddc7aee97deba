-- ===== src/Game/Party/Everyone.antt =====
-- Who may share experience, said without the loops of the code.
use rubyserver.Base.{
  ℕ, ◌+◌, ◌-◌, ◌%◌, ◌^◌, ◌≤◌, ◌≡◌, refl, ◌∙◌, ◌⊎◌, inl, inr, ◌↔◌, true, false, List, [], ◌∷◌, some,
  ltb, if◌then◌else◌, arith, Bool-cases, Option-cases,
}
use rubyserver.World.Position.{are_in_range}
use rubyserver.Game.Party.Sharing.{
  Sharer, Sharing, Now, is_empty, highest_level, was_active, can_use_shared_experience, can_all_use,
  can_enable_shared_experience,
}

-- The highest of a level and those of some players.
abbrev pub top_level : ℕ → List Sharer → ℕ
top_level level [] = level
top_level level (m ∷ ms) = if ltb (top_level level ms) m.level then m.level else top_level level ms

-- The player took part in a fight not longer ago than the lock lasts; the difference is that of 64
-- bits.
abbrev pub IsActive : Now → Sharer → Sharing → Type 0
IsActive now p s =
    (tick : ℕ) × ((s.ticks_map p.id ≡ some tick)
      × ((now.time + 2 ^ 64 - tick) % 2 ^ 64 ≤ now.pz_locked))

-- A player has the level, is near the leader, and is active or need not be.
abbrev pub MayShare : Now → Sharing → Sharer → Type 0
MayShare now s p =
    (now.min_level (top_level s.leader.level s.member_list) ≤ p.level)
    × ((are_in_range 30 30 1 s.leader.position p.position ≡ true)
        × ((p.not_gain_in_fight ≡ true) ⊎ IsActive now p s))

abbrev pub AllMayShare : Now → Sharing → List Sharer → Type 0
AllMayShare now s [] = Unit
AllMayShare now s (p ∷ ps) = MayShare now s p × AllMayShare now s ps

-- The leader and every member may share, and there is a member.
abbrev pub EveryoneMayShare : Now → Sharing → Type 0
EveryoneMayShare now s =
    (is_empty s.member_list ≡ false) × AllMayShare now s (s.leader ∷ s.member_list)

top_level-higher :
    (a b : ℕ) (ms : List Sharer)
    → top_level (if ltb a b then b else a) ms
      ≡ (if ltb (top_level a ms) b then b else top_level a ms)
top_level-higher a b [] = refl
top_level-higher a b (m ∷ ms) = ground (arith, top_level-higher a b ms)

highest_level-top_level :
    (level : ℕ) (ms : List Sharer) → highest_level level ms ≡ top_level level ms
unfolding highest_level
highest_level-top_level level [] = refl
highest_level-top_level level (m ∷ ms) =
    highest_level-top_level (if ltb level m.level then m.level else level) ms
    ∙ top_level-higher level m.level ms

was_active_iff :
    (now : Now) (p : Sharer) (s : Sharing) → (was_active now p s ≡ true) ↔ IsActive now p s
unfolding was_active
was_active_iff now p s = elim (Option-cases (s.ticks_map p.id)) [
  | inl e ↦ (λ h. absurd (ground (arith, h, e)), λ (tick, (k, l)). absurd (ground (arith, k, e)))
  | inr (tick, e) ↦
      (λ h. (tick, (e, ground (arith, h, e))), λ (tick', (k, l)). ground (arith, k, l, e))
]

can_use_shared_experience_iff :
    (now : Now) (p : Sharer) (s : Sharing)
    → (can_use_shared_experience now p s ≡ true)
      ↔ ((is_empty s.member_list ≡ false) × MayShare now s p)
unfolding can_use_shared_experience
can_use_shared_experience_iff now p s =
    let top = highest_level-top_level s.leader.level s.member_list in
    let active = was_active_iff now p s in
    (
      λ h. (
        ground (arith, h),
        (
          ground (arith, h, top),
          (
            ground (arith, h),
            elim (Bool-cases p.not_gain_in_fight) [
              | inl e ↦ inl e
              | inr e ↦ inr (active.0 (ground (arith, h, e)))
            ],
          ),
        ),
      ),
      λ (some_member, (level, (near, fought))). elim fought [
        | inl e ↦ ground (arith, some_member, level, near, e, top)
        | inr e ↦ ground (arith, some_member, level, near, active.1 e, top)
      ],
    )

can_all_use_iff :
    (now : Now) (ps : List Sharer) (s : Sharing)
    → is_empty s.member_list ≡ false
    → (can_all_use now ps s ≡ true) ↔ AllMayShare now s ps
unfolding can_all_use
can_all_use_iff now [] s e = (λ h. tt, λ h. refl)
can_all_use_iff now (p ∷ ps) s e =
    let front = can_use_shared_experience_iff now p s in
    let rest = can_all_use_iff now ps s e in
    (
      λ h. ((front.0 (ground (arith, h))).1, rest.0 (ground (arith, h))),
      λ h. ground (arith, front.1 (e, h.0), rest.1 h.1),
    )

-- The code's answer is this account.
pub can_enable_shared_experience_iff :
    (now : Now) (s : Sharing) → (can_enable_shared_experience now s ≡ true) ↔ EveryoneMayShare now s
unfolding can_enable_shared_experience
can_enable_shared_experience_iff now s =
    let leads = can_use_shared_experience_iff now s.leader s in
    (
      λ h.
          let led = leads.0 (ground (arith, h)) in
          (led.0, (led.1, (can_all_use_iff now s.member_list s led.0).0 (ground (arith, h)))),
      λ h. ground (arith, leads.1 (h.0, h.1.0), (can_all_use_iff now s.member_list s h.0).1 h.1.1),
    )
