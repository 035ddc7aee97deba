-- ===== src/Game/Party/Handlers/Keeping.antt =====
-- What an operation on one party keeps of a world of parties.
use rubyserver.Base.{
  ℕ, ◌+◌, ◌≤◌, ◌≡◌, refl, Bool, true, false, not, ◌||◌, List, [], ◌∷◌, ◌==◌, if◌then◌else◌, arith,
  if_either,
}
use rubyserver.Game.Party.{
  Party, contains, empty, disband, pass_party_leadership, choose_leader, replace_leader,
  drop_player, leave_party, remove_invite, invite_player,
}
use rubyserver.Game.Party.Members.{
  IsParty, Agrees, leave_party-IsParty, pass_party_leadership-IsParty, remove_invite-IsParty,
}
use rubyserver.Game.Party.Handlers.{
  World, keep, in_party, invite_as_leader, revoke_as_leader, pass_as_leader, leave_in_peace,
}

abbrev pub AreParties : World → Type 0
AreParties [] = Unit
AreParties (s ∷ ps) = (IsParty s × (s.disbanded ≡ false)) × AreParties ps

unfoldable pub parties_of : ℕ → World → ℕ
parties_of p [] = 0
parties_of p (s ∷ ps) = (if s.mine p then 1 else 0) + parties_of p ps

-- Each party agrees with its players, and no player has two.
abbrev pub IsWorld : World → Type 0
IsWorld ps = AreParties ps × ((p : ℕ) → parties_of p ps ≤ 1)

-- What an operation on a party has to keep: the party is in order, and no one has it who did not,
-- apart from the players of `extra`.
abbrev pub IsKeeping : (ℕ → ℕ) → (Party → Party) → Type 0
IsKeeping extra f =
    (s : Party)
    → IsParty s
    → s.disbanded ≡ false
    → IsParty (f s)
      × ((p : ℕ) → (if (f s).mine p then 1 else 0) ≤ (if s.mine p then 1 else 0) + extra p)

abbrev nobody : ℕ → ℕ
nobody _ = 0

keep_if-AreParties :
    (b : Bool) (s : Party) (ps : World)
    → s.disbanded ≡ b
    → IsParty s
    → AreParties ps
    → AreParties (if b then ps else s ∷ ps)
keep_if-AreParties true s ps e h k = k
keep_if-AreParties false s ps e h k = ((h, e), k)

keep-parties_of :
    (p : ℕ) (s : Party) (ps : World)
    → parties_of p (keep s ps) ≤ (if s.mine p then 1 else 0) + parties_of p ps
keep-parties_of p s ps =
    if_either (λ (l : World). parties_of p l ≤ (if s.mine p then 1 else 0) + parties_of p ps)
      s.disbanded ps (s ∷ ps) (omega arith) (unfold parties_of in omega arith)

pub in_party-AreParties :
    (player : ℕ) (extra : ℕ → ℕ) (f : Party → Party) (ps : World)
    → IsKeeping extra f
    → AreParties ps
    → AreParties (in_party player f ps)
unfolding in_party
in_party-AreParties player extra f [] k h = tt
in_party-AreParties player extra f (s ∷ ps) k h =
    if_either AreParties (s.mine player) (keep (f s) ps) (s ∷ in_party player f ps)
      (keep_if-AreParties (f s).disbanded (f s) ps refl (k s h.0.0 h.0.1).0 h.1)
      ((h.0, in_party-AreParties player extra f ps k h.1))

pub in_party-parties_of :
    (p player : ℕ) (extra : ℕ → ℕ) (f : Party → Party) (ps : World)
    → IsKeeping extra f
    → AreParties ps
    → parties_of p (in_party player f ps) ≤ parties_of p ps + extra p
unfolding in_party parties_of
in_party-parties_of p player extra f [] k h = omega arith
in_party-parties_of p player extra f (s ∷ ps) k h =
    if_either (λ (l : World). parties_of p l ≤ parties_of p (s ∷ ps) + extra p) (s.mine player)
      (keep (f s) ps) (s ∷ in_party player f ps)
      (omega (arith, keep-parties_of p (f s) ps, (k s h.0.0 h.0.1).1 p))
      (omega (arith, in_party-parties_of p player extra f ps k h.1))

pub in_party-IsWorld :
    (player : ℕ) (f : Party → Party) (ps : World)
    → IsKeeping nobody f
    → IsWorld ps
    → IsWorld (in_party player f ps)
in_party-IsWorld player f ps k h = (
  in_party-AreParties player nobody f ps k h.0,
  λ p. omega (arith, in_party-parties_of p player nobody f ps k h.0, h.1 p),
)

-- Each operation on a party keeps it in order.
pub if_keeps :
    (extra : ℕ → ℕ) (b : Bool) (s s' : Party)
    → IsParty s
    → IsParty s' × ((p : ℕ) → (if s'.mine p then 1 else 0) ≤ (if s.mine p then 1 else 0) + extra p)
    → IsParty (if b then s else s')
      × ((p : ℕ)
          → (if (if b then s else s').mine p then 1 else 0) ≤ (if s.mine p then 1 else 0) + extra p)
if_keeps extra true s s' h k = (h, λ p. omega arith)
if_keeps extra false s s' h k = k

remove_invite-mine :
    (allowed : Bool) (p invited : ℕ) (s : Party)
    → (if (remove_invite allowed invited s).1.mine p then 1 else 0) ≤ (if s.mine p then 1 else 0)
unfolding remove_invite disband
remove_invite-mine allowed p invited s = ground arith

pass_party_leadership-mine :
    (p player : ℕ) (s : Party) → (pass_party_leadership player s).1.mine p ≡ s.mine p
unfolding pass_party_leadership
pass_party_leadership-mine p player s = ground arith

choose_leader-mine :
    (p : ℕ) (members : List ℕ) (s : Party) → (choose_leader members s).1.mine p ≡ s.mine p
unfolding choose_leader
choose_leader-mine p [] s = refl
choose_leader-mine p (front ∷ members) s = ground (arith, pass_party_leadership-mine p front s)

drop_player-mine :
    (b allowed : Bool) (p player : ℕ) (s : Party)
    → (if (if b then disband allowed (drop_player player s) else drop_player player s).mine p
        then 1
        else 0)
      ≤ (if s.mine p then 1 else 0)
unfolding drop_player disband
drop_player-mine b allowed p player s = ground arith

leave_party-mine :
    (leaves disbands : Bool) (p player : ℕ) (s : Party)
    → (if (leave_party leaves disbands player s).1.mine p then 1 else 0)
      ≤ (if s.mine p then 1 else 0)
unfolding leave_party replace_leader
leave_party-mine leaves disbands p player s =
    let led = if s.leader == player then replace_leader s else (false, s) in
    ground (
      arith,
      choose_leader-mine p s.member_list s,
      drop_player-mine (led.0 || empty (drop_player player led.1)) disbands p player led.1,
    )

pub invite_player-Agrees :
    (p invited : ℕ) (s : Party) → Agrees p s → Agrees p (invite_player invited s).1
unfolding invite_player
invite_player-Agrees p invited s h = ground (arith, h)

invite_player-mine : (p invited : ℕ) (s : Party) → (invite_player invited s).1.mine p ≡ s.mine p
unfolding invite_player
invite_player-mine p invited s = ground arith

pub invite_as_leader-IsKeeping :
    (player invited : ℕ) → IsKeeping nobody (invite_as_leader player invited)
unfolding invite_as_leader
invite_as_leader-IsKeeping player invited s h alive =
    if_keeps nobody (not (s.leader == player)) s (invite_player invited s).1 h (
      (
        λ p. invite_player-Agrees p invited s (h p),
        λ p. ground (arith, invite_player-mine p invited s),
      ))

pub revoke_as_leader-IsKeeping :
    (online : Bool) (player invited : ℕ)
    → IsKeeping nobody (revoke_as_leader online true player invited)
unfolding revoke_as_leader
revoke_as_leader-IsKeeping online player invited s h alive =
    let after = (remove_invite true invited s).1 in
    let absent = not online || not (contains invited s.invite_list) in
    if_keeps nobody (not (s.leader == player)) s (if absent then s else after) h (
      if_keeps nobody absent s after h (
        (
          remove_invite-IsParty invited s h alive,
          λ p. omega (arith, remove_invite-mine true p invited s),
        )))

pub pass_as_leader-IsKeeping :
    (online : Bool) (player new_leader : ℕ)
    → IsKeeping nobody (pass_as_leader online player new_leader)
unfolding pass_as_leader
pass_as_leader-IsKeeping online player new_leader s h alive =
    let after = (pass_party_leadership new_leader s).1 in
    let refused = not online || (new_leader == player || not (s.mine new_leader)) in
    if_keeps nobody (not (s.leader == player)) s (if refused then s else after) h (
      if_keeps nobody refused s after h (
        (
          pass_party_leadership-IsParty new_leader s h alive,
          λ p. ground (arith, pass_party_leadership-mine p new_leader s),
        )))

pub leave_in_peace-IsKeeping :
    (in_fight leaves : Bool) (player : ℕ)
    → IsKeeping nobody (leave_in_peace in_fight leaves true player)
unfolding leave_in_peace
leave_in_peace-IsKeeping in_fight leaves player s h alive =
    if_keeps nobody in_fight s (leave_party leaves true player s).1 h (
      (
        leave_party-IsParty leaves player s h alive,
        λ p. omega (arith, leave_party-mine leaves true p player s),
      ))
