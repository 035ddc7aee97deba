-- ===== src/Game/Party/Handlers/Worlds.antt =====
-- A player belongs to one party at most, and each party agrees with its players.
use rubyserver.Base.{
  ℕ, ◌+◌, ◌≤◌, ◌≡◌, refl, sym, subst, ◌∙◌, Bool, true, false, not, ◌||◌, List, [], ◌∷◌, ◌==◌,
  if◌then◌else◌, arith, if_either, if_split,
}
use rubyserver.Game.Party.{Party, new_party, join_party, invite_player}
use rubyserver.Game.Party.Members.{times, IsParty, Agrees, join_party-IsParty}
use rubyserver.Game.Party.Handlers.{
  World, has_party, is_inviting, in_party, invite_as_leader, player_invite_to_party, join_of_leader,
  player_join_party, revoke_as_leader, player_revoke_party_invitation, pass_as_leader,
  player_pass_party_leadership, leave_in_peace, player_leave_party,
}
use rubyserver.Game.Party.Handlers.Keeping.{
  parties_of, IsWorld, IsKeeping, in_party-AreParties, in_party-parties_of, in_party-IsWorld,
  if_keeps, invite_player-Agrees, invite_as_leader-IsKeeping, revoke_as_leader-IsKeeping,
  pass_as_leader-IsKeeping, leave_in_peace-IsKeeping,
}

-- Joining, for a player who has no party.
join_outsider : Bool → ℕ → ℕ → Party → Party
join_outsider allowed player leader s =
    if s.mine player then s else join_of_leader allowed player leader s

otherwise : (b : Bool) (s s' : Party) → b ≡ false → (if b then s else s') ≡ s'
otherwise true s s' e = absurd (ground (arith, e))
otherwise false s s' e = refl

in_party-join_outsider :
    (allowed : Bool) (player leader : ℕ) (ps : World)
    → has_party player ps ≡ false
    → in_party leader (join_of_leader allowed player leader) ps
      ≡ in_party leader (join_outsider allowed player leader) ps
unfolding in_party has_party join_outsider
in_party-join_outsider allowed player leader [] h = refl
in_party-join_outsider allowed player leader (s ∷ ps) h =
    let later = in_party-join_outsider allowed player leader ps (ground (arith, h)) in
    let same =
      otherwise (s.mine player) s (join_of_leader allowed player leader s) (ground (arith, h)) in
    cc (later, same)

join_party-mine :
    (allowed : Bool) (p player : ℕ) (s : Party)
    → (if (join_party allowed player s).1.mine p then 1 else 0)
      ≤ (if s.mine p then 1 else 0) + (if player == p then 1 else 0)
unfolding join_party
join_party-mine allowed p player s = ground arith

abbrev only : ℕ → ℕ → ℕ
only player p = if player == p then 1 else 0

join_if_outside :
    (b allowed : Bool) (player leader : ℕ) (s : Party)
    → s.mine player ≡ b
    → IsParty s
    → s.disbanded ≡ false
    → IsParty (if b then s else join_of_leader allowed player leader s)
      × ((p : ℕ)
          → (if (if b then s else join_of_leader allowed player leader s).mine p then 1 else 0)
            ≤ (if s.mine p then 1 else 0) + only player p)
unfolding join_of_leader
join_if_outside true allowed player leader s e h alive = (h, λ p. omega arith)
join_if_outside false allowed player leader s e h alive =
    if_keeps (only player) (not (s.leader == leader)) s (join_party allowed player s).1 h
      ((join_party-IsParty allowed player s h alive e, λ p. join_party-mine allowed p player s))

join_outsider-IsKeeping :
    (allowed : Bool) (player leader : ℕ)
    → IsKeeping (only player) (join_outsider allowed player leader)
unfolding join_outsider
join_outsider-IsKeeping allowed player leader s h alive =
    join_if_outside (s.mine player) allowed player leader s refl h alive

-- A player without a party is in none of them.
has_party-none : (player : ℕ) (ps : World) → has_party player ps ≡ false → parties_of player ps ≡ 0
unfolding has_party parties_of
has_party-none player [] h = refl
has_party-none player (s ∷ ps) h = ground (arith, h, has_party-none player ps)

has_party-only :
    (p player : ℕ) (ps : World)
    → has_party player ps ≡ false
    → parties_of p ps ≤ 1
    → parties_of p ps + only player p ≤ 1
has_party-only p player ps h k = ground (arith, h, k, has_party-none player ps h)

new_party-Agrees : (p player : ℕ) → Agrees p (new_party player)
unfolding new_party times
new_party-Agrees p player = ground arith

new_party-mine :
    (p player invited : ℕ) → (invite_player invited (new_party player)).1.mine p ≡ (player == p)
unfolding new_party invite_player
new_party-mine p player invited = ground arith

invite_player-disbanded :
    (invited : ℕ) (s : Party) → (invite_player invited s).1.disbanded ≡ s.disbanded
unfolding invite_player
invite_player-disbanded invited s = ground arith

new_party-IsWorld :
    (player invited : ℕ) (ps : World)
    → IsWorld ps
    → has_party player ps ≡ false
    → IsWorld ((invite_player invited (new_party player)).1 ∷ ps)
unfolding parties_of
new_party-IsWorld player invited ps h alone = (
  (
    (
      λ p. invite_player-Agrees p invited (new_party player) (new_party-Agrees p player),
      invite_player-disbanded invited (new_party player) ∙ (unfold new_party in refl),
    ),
    h.0,
  ),
  λ p. ground (arith, new_party-mine p player invited, has_party-only p player ps alone (h.1 p)),
)

player_join_party-IsWorld :
    (online : ℕ → Bool) (allowed : Bool) (player leader : ℕ) (ps : World)
    → IsWorld ps
    → IsWorld (player_join_party online allowed player leader ps)
unfolding player_join_party
player_join_party-IsWorld online allowed player leader ps h =
    if_either IsWorld
      (not (online player) || (not (online leader) || not (is_inviting leader player ps))) ps _ h
      (if_split IsWorld (has_party player ps) ps _ (λ e. h)
        (λ e. subst IsWorld (sym (in_party-join_outsider allowed player leader ps e)) (
          (
            in_party-AreParties leader (only player) (join_outsider allowed player leader) ps
                (join_outsider-IsKeeping allowed player leader) h.0,
            λ p. omega (
              arith,
              in_party-parties_of p leader (only player) (join_outsider allowed player leader) ps
                  (join_outsider-IsKeeping allowed player leader) h.0,
              has_party-only p player ps e (h.1 p),
            ),
          ))))

player_invite_to_party-IsWorld :
    (online : ℕ → Bool) (player invited : ℕ) (ps : World)
    → IsWorld ps
    → IsWorld (player_invite_to_party online player invited ps)
unfolding player_invite_to_party
player_invite_to_party-IsWorld online player invited ps h =
    if_either IsWorld (player == invited || (not (online player) || not (online invited))) ps _ h (
      if_either IsWorld (is_inviting invited player ps || has_party invited ps) ps _ h (
        if_split IsWorld (not (has_party player ps)) _ _
          (λ e. new_party-IsWorld player invited ps h (ground (arith, e)))
          (λ e.
            in_party-IsWorld player (invite_as_leader player invited) ps
              (invite_as_leader-IsKeeping player invited) h)))

-- The requests of players, with the answers of the hooks that are asked.
pub data Request : Type 0 where
  invite : ℕ → ℕ → Request
  join : Bool → ℕ → ℕ → Request
  revoke : ℕ → ℕ → Request
  pass : ℕ → ℕ → Request
  leave : Bool → Bool → ℕ → Request

unfoldable pub request : (ℕ → Bool) → Request → World → World
request online (invite player invited) ps = player_invite_to_party online player invited ps
request online (join allowed player leader) ps = player_join_party online allowed player leader ps
request online (revoke player invited) ps =
    player_revoke_party_invitation online true player invited ps
request online (pass player new_leader) ps =
    player_pass_party_leadership online player new_leader ps
request online (leave in_fight leaves player) ps =
    player_leave_party online in_fight leaves true player ps

request-IsWorld :
    (online : ℕ → Bool) (r : Request) (ps : World) → IsWorld ps → IsWorld (request online r ps)
unfolding request player_revoke_party_invitation player_pass_party_leadership player_leave_party
request-IsWorld online (invite player invited) ps h =
    player_invite_to_party-IsWorld online player invited ps h
request-IsWorld online (join allowed player leader) ps h =
    player_join_party-IsWorld online allowed player leader ps h
request-IsWorld online (revoke player invited) ps h =
    if_either IsWorld (not (online player)) ps _ h (
      in_party-IsWorld player (revoke_as_leader (online invited) true player invited) ps
        (revoke_as_leader-IsKeeping (online invited) player invited) h)
request-IsWorld online (pass player new_leader) ps h =
    if_either IsWorld (not (online player)) ps _ h (
      in_party-IsWorld player (pass_as_leader (online new_leader) player new_leader) ps
        (pass_as_leader-IsKeeping (online new_leader) player new_leader) h)
request-IsWorld online (leave in_fight leaves player) ps h =
    if_either IsWorld (not (online player)) ps _ h (
      in_party-IsWorld player (leave_in_peace in_fight leaves true player) ps
        (leave_in_peace-IsKeeping in_fight leaves player) h)

unfoldable pub run : (ℕ → Bool) → List Request → World → World
run online [] ps = ps
run online (r ∷ rs) ps = run online rs (request online r ps)

-- Whatever the players of a server ask of their parties, from a world in order or from one without
-- parties: a player is the leader or once a member of the party that its pointer names, and of no other;
-- parties that were disbanded are gone. The hook that can keep a party from being disbanded does not.
pub run-IsWorld :
    (online : ℕ → Bool) (rs : List Request) (ps : World) → IsWorld ps → IsWorld (run online rs ps)
unfolding run
run-IsWorld online [] ps h = h
run-IsWorld online (r ∷ rs) ps h =
    run-IsWorld online rs (request online r ps) (request-IsWorld online r ps h)
