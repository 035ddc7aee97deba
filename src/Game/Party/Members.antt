-- ===== src/Game/Party/Members.antt =====
-- The players' own view of the party agrees with its lists.
use rubyserver.Base.{
  ℕ, ◌+◌, ◌-◌, ◌≤◌, ◌≡◌, refl, subst, sym, ◌⊎◌, inl, inr, Bool, true, false, not, ◌&&◌, ◌||◌, List,
  [], ◌∷◌, ◌++◌, ◌==◌, if◌then◌else◌, arith, Bool-cases, if_either,
}
use rubyserver.Game.Party.{
  Party, contains, erase, is_empty, empty, disband, pass_party_leadership, choose_leader,
  replace_leader, drop_player, leave_party, join_party, remove_invite,
}

unfoldable pub times : ℕ → List ℕ → ℕ
times player [] = 0
times player (p ∷ ps) = (if p == player then 1 else 0) + times player ps

times-append : (p : ℕ) (xs ys : List ℕ) → times p (xs ++ ys) ≡ times p xs + times p ys
unfolding times
times-append p [] ys = omega arith
times-append p (x ∷ xs) ys = omega (arith, times-append p xs ys)

times-erase :
    (p q : ℕ) (xs : List ℕ) → times p (erase q xs) ≡ times p xs - (if q == p then 1 else 0)
unfolding times erase
times-erase p q [] = ground arith
times-erase p q (x ∷ xs) = ground (arith, times-erase p q xs)

contains-times : (p : ℕ) (xs : List ℕ) → contains p xs ≡ false → times p xs ≡ 0
unfolding times
contains-times p [] h = refl
contains-times p (x ∷ xs) h = ground (arith, h, contains-times p xs)

-- A player's party is this one exactly when the player is its leader or stands once among its members,
-- never both; of a party that was disbanded there is none.
abbrev pub Agrees : ℕ → Party → Type 0
Agrees p s =
    (if s.mine p then 1 else 0)
    ≡ (if s.disbanded then 0 else (if s.leader == p then 1 else 0) + times p s.member_list)

abbrev pub IsParty : Party → Type 0
IsParty s = (p : ℕ) → Agrees p s

disband-Agrees : (p : ℕ) (s : Party) → Agrees p s → s.disbanded ≡ false → Agrees p (disband true s)
unfolding disband
disband-Agrees p s h alive = ground (arith, h, alive, contains-times p s.member_list)

pass_party_leadership-Agrees :
    (p player : ℕ) (s : Party)
    → IsParty s
    → s.disbanded ≡ false
    → Agrees p (pass_party_leadership player s).1
unfolding pass_party_leadership times
pass_party_leadership-Agrees p player s h alive =
    ground (arith, h p, h player, alive, times-erase p player s.member_list)

drop_player-Agrees :
    (p player : ℕ) (s : Party)
    → IsParty s
    → s.disbanded ≡ false
    → (s.leader == player) ≡ false
    → Agrees p (drop_player player s)
unfolding drop_player
drop_player-Agrees p player s h alive other =
    ground (arith, h p, h player, alive, other, times-erase p player s.member_list)

-- A party that is left by its leader with no one to lead it.
disband-drop_player-Agrees :
    (p player : ℕ) (s : Party)
    → IsParty s
    → s.disbanded ≡ false
    → Agrees p (disband true (drop_player player s))
unfolding disband drop_player
disband-drop_player-Agrees p player s h alive = ground (
  arith,
  h p,
  alive,
  contains-times p (erase player s.member_list),
  times-erase p player s.member_list,
)

-- The party that the rest of leaveParty works on.
abbrev IsLed : ℕ → Bool × Party → Type 0
IsLed player (missing, s) =
    (IsParty s × (s.disbanded ≡ false)) × ((missing ≡ true) ⊎ ((s.leader == player) ≡ false))

-- A member takes the lead, and the old leader is another one.
pass_party_leadership-leader :
    (player front : ℕ) (s : Party)
    → IsParty s
    → s.disbanded ≡ false
    → (s.leader == player) ≡ true
    → 1 ≤ times front s.member_list
    → ((pass_party_leadership front s).1.disbanded ≡ false)
      × (((pass_party_leadership front s).1.leader == player) ≡ false)
unfolding pass_party_leadership
pass_party_leadership-leader player front s h alive led member =
    ground (arith, h front, alive, led, member)

times_head : (front : ℕ) (members ms : List ℕ) → ms ≡ front ∷ members → 1 ≤ times front ms
unfolding times
times_head front members ms e =
    subst (λ (l : List ℕ). 1 ≤ times front l) (sym e) (unfold times in ground arith)

choose_leader-IsLed :
    (player : ℕ) (s : Party) (ms : List ℕ)
    → s.member_list ≡ ms
    → IsParty s
    → s.disbanded ≡ false
    → (s.leader == player) ≡ true
    → IsLed player (choose_leader ms s)
unfolding choose_leader
choose_leader-IsLed player s [] e h alive led = ((h, alive), inl refl)
choose_leader-IsLed player s (front ∷ members) e h alive led =
    let passed =
      pass_party_leadership-leader player front s h alive led
        (times_head front members s.member_list e) in
    if_either (IsLed player) (is_empty members && is_empty s.invite_list) (true, s)
      (false, (pass_party_leadership front s).1) ((h, alive), inl refl)
      ((λ p. pass_party_leadership-Agrees p front s h alive, passed.0), inr passed.1)

replace_leader-IsLed :
    (player : ℕ) (s : Party)
    → IsParty s
    → s.disbanded ≡ false
    → (s.leader == player) ≡ true
    → IsLed player (replace_leader s)
unfolding replace_leader
replace_leader-IsLed player s h alive led =
    choose_leader-IsLed player s s.member_list refl h alive led

finish_leave-Agrees :
    (p player : ℕ) (missing : Bool) (s : Party)
    → IsLed player (missing, s)
    → Agrees p (
        if missing || empty (drop_player player s)
        then disband true (drop_player player s)
        else drop_player player s)
finish_leave-Agrees p player true s led = disband-drop_player-Agrees p player s led.0.0 led.0.1
finish_leave-Agrees p player false s led =
    if_either (Agrees p) (empty (drop_player player s)) (disband true (drop_player player s))
      (drop_player player s) (disband-drop_player-Agrees p player s led.0.0 led.0.1)
      (drop_player-Agrees p player s led.0.0 led.0.1 (ground (arith, led.1)))

leave-Agrees :
    (p player : ℕ) (led : Bool × Party)
    → IsLed player led
    → Agrees p (
        if led.0 || empty (drop_player player led.1)
        then disband true (drop_player player led.1)
        else drop_player player led.1)
leave-Agrees p player (missing, s) h = finish_leave-Agrees p player missing s h

-- The party that the leader's part of leaveParty gives.
start_leave-IsLed :
    (player : ℕ) (s : Party)
    → IsParty s
    → s.disbanded ≡ false
    → IsLed player (if s.leader == player then replace_leader s else (false, s))
start_leave-IsLed player s h alive = elim (Bool-cases (s.leader == player)) [
  | inl e ↦ rw e (replace_leader-IsLed player s h alive e)
  | inr e ↦ rw e (((h, alive), inr e))
]

-- After leaveParty a party that was not disbanded agrees with its players, whoever leaves and whether
-- the hook lets the player leave or not, where the hook that can keep a party from being disbanded
-- does not.
pub leave_party-IsParty :
    (allowed : Bool) (player : ℕ) (s : Party)
    → IsParty s
    → s.disbanded ≡ false
    → IsParty (leave_party allowed true player s).1
unfolding leave_party
leave_party-IsParty allowed player s h alive p =
    let led = start_leave-IsLed player s h alive in
    if_either (λ (r : Bool × Party). Agrees p r.1) (not (s.mine player) && not (s.leader == player))
      (false, s) _ (h p)
      (if_either (λ (r : Bool × Party). Agrees p r.1) (not allowed) (false, s) _ (h p)
        (leave-Agrees p player (if s.leader == player then replace_leader s else (false, s)) led))

-- After passPartyLeadership a party that was not disbanded agrees with its players, whether the player
-- may take the lead or not.
pub pass_party_leadership-IsParty :
    (player : ℕ) (s : Party)
    → IsParty s
    → s.disbanded ≡ false
    → IsParty (pass_party_leadership player s).1
pass_party_leadership-IsParty player s h alive p = pass_party_leadership-Agrees p player s h alive

-- After joinParty a party that was not disbanded agrees with its players, where the player who joins
-- belonged to no party.
pub join_party-IsParty :
    (allowed : Bool) (player : ℕ) (s : Party)
    → IsParty s
    → s.disbanded ≡ false
    → s.mine player ≡ false
    → IsParty (join_party allowed player s).1
unfolding join_party times
join_party-IsParty allowed player s h alive outside p =
    ground (arith, h p, h player, alive, outside, times-append p s.member_list (player ∷ []))

-- After removeInvite a party that was not disbanded agrees with its players, also where the last
-- invitation of a leader without members is removed, and the hook lets the party be disbanded.
pub remove_invite-IsParty :
    (player : ℕ) (s : Party)
    → IsParty s
    → s.disbanded ≡ false
    → IsParty (remove_invite true player s).1
unfolding remove_invite disband
remove_invite-IsParty player s h alive p =
    ground (arith, h p, alive, contains-times p s.member_list)
