-- ===== src/Game/Party.antt =====
-- Party of src/party.cpp: who belongs to one party, and who is invited. Players are numbers; `mine` is
-- the test player->getParty() == this. A hook of g_events is the answer that it gives. Messages,
-- icons, shields and the sharing of experience are left out.
pub mod Members
pub mod Sharing
pub mod Everyone
pub mod Current
pub mod Handlers
mod Tests
use rubyserver.Base.{
  ℕ, Bool, true, false, not, ◌&&◌, ◌||◌, List, [], ◌∷◌, ◌++◌, ◌==◌, if◌then◌else◌,
}

pub record Party : Type 0 where
  pub leader : ℕ
  pub member_list : List ℕ
  pub invite_list : List ℕ
  pub mine : ℕ → Bool
  pub disbanded : Bool

abbrev pub contains : ℕ → List ℕ → Bool
contains player [] = false
contains player (p ∷ ps) = p == player || contains player ps

-- erase(std::find(...)): the first one, if there is one.
unfoldable pub erase : ℕ → List ℕ → List ℕ
erase player [] = []
erase player (p ∷ ps) = let rest = erase player ps in if p == player then ps else p ∷ rest

abbrev pub is_empty : List ℕ → Bool
is_empty [] = true
is_empty (p ∷ ps) = false

-- setParty(this) and setParty(nullptr)
abbrev pub set_party : ℕ → Bool → Party → Party
set_party player value s = record s { mine = λ p. if p == player then value else s.mine p }

-- The constructor, of a leader alone in the party.
unfoldable pub new_party : ℕ → Party
new_party leader = record {
  leader = leader;
  member_list = [];
  invite_list = [];
  mine = λ p. p == leader;
  disbanded = false;
}

unfoldable pub empty : Party → Bool
empty s = is_empty s.member_list && is_empty s.invite_list

unfoldable pub disband : Bool → Party → Party
disband allowed s =
    if allowed
    then record s {
      mine = λ p. if s.leader == p || contains p s.member_list then false else s.mine p;
      member_list = [];
      invite_list = [];
      disbanded = true;
    }
    else s

unfoldable pub pass_party_leadership : ℕ → Party → Bool × Party
pass_party_leadership player s =
    if s.leader == player || not (s.mine player)
    then (false, s)
    else (true, record s { leader = player; member_list = s.leader ∷ erase player s.member_list })

-- leaveParty where the leader leaves: whether the leader is missing, and the party. The list is the
-- party's members.
unfoldable pub choose_leader : List ℕ → Party → Bool × Party
choose_leader [] s = (true, s)
choose_leader (front ∷ members) s =
    if is_empty members && is_empty s.invite_list
    then (true, s)
    else (false, (pass_party_leadership front s).1)

unfoldable pub replace_leader : Party → Bool × Party
replace_leader s = choose_leader s.member_list s

unfoldable pub drop_player : ℕ → Party → Party
drop_player player s =
    set_party player false (record s { member_list = erase player s.member_list })

unfoldable pub leave_party : Bool → Bool → ℕ → Party → Bool × Party
leave_party leave_allowed disband_allowed player s =
    if not (s.mine player) && not (s.leader == player)
    then (false, s)
    else (if not leave_allowed
        then (false, s)
        else (let (missing_leader, s') =
              if s.leader == player then replace_leader s else (false, s) in
            let left = drop_player player s' in
            (true, if missing_leader || empty left then disband disband_allowed left else left)))

unfoldable pub join_party : Bool → ℕ → Party → Bool × Party
join_party allowed player s =
    if not allowed || not (contains player s.invite_list) then (false, s) else (
      true,
      set_party player true (record s {
        invite_list = erase player s.invite_list;
        member_list = s.member_list ++ (player ∷ []);
      }),
    )

unfoldable pub remove_invite : Bool → ℕ → Party → Bool × Party
remove_invite disband_allowed player s =
    if not (contains player s.invite_list)
    then (false, s)
    else (let after = record s { invite_list = erase player s.invite_list } in
        (true, if empty after then disband disband_allowed after else after))

unfoldable pub invite_player : ℕ → Party → Bool × Party
invite_player player s =
    if contains player s.invite_list
    then (false, s)
    else (true, record s { invite_list = s.invite_list ++ (player ∷ []) })
