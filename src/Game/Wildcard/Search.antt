-- ===== src/Game/Wildcard/Search.antt =====
-- The search by the start of a name.
use mathlib.Core.List.{append_assoc, append-nil}
use rubyserver.Base.{
  ℕ, ◌≡◌, ◌≢◌, refl, subst, sym, ap, ◌∙◌, Bool, true, false, List, [], ◌∷◌, ◌++◌, none, some, arith,
  Option-cases, inl, inr, ◌↔◌,
}
use rubyserver.Game.Wildcard.{
  Node, node, Children, nil, cons, get_child, is_dead, Found, found, not_online, too_ambiguous,
  find_end, walk, find_one,
}
use rubyserver.Game.Wildcard.Names.{contains, contains_in-get_child, contains_in-missing}
use rubyserver.Game.Wildcard.Trees.{IsTree, AreTrees, get_child-IsTree}

-- A node that leads to some name.
abbrev Named : Node → Type 0
Named n = (name : List ℕ) × (contains name n ≡ true)

live-Named : (n : Node) → IsTree n → is_dead n ≡ false → Named n
unfolding IsTree contains
live-Named (node true cs) h live = ([], refl)
live-Named (node false nil) h live = absurd (ground (arith, live))
live-Named (node false (cons c n cs)) (fresh, (alive, (tree, rest))) live =
    let (name, e) = live-Named n tree alive in (c ∷ name, ground (arith, e))

-- What an answer says of the names of a tree that start with a query: the name found is the only one,
-- there is none, or there are two.
abbrev pub Answers : List ℕ → Node → Found → Type 0
Answers query n (found result) =
    ((rest : List ℕ) × (result ≡ query ++ rest))
    × ((rest : List ℕ) → (contains (query ++ rest) n ≡ true) ↔ (query ++ rest ≡ result))
Answers query n not_online = (rest : List ℕ) → contains (query ++ rest) n ≡ false
Answers query n too_ambiguous =
    (a : List ℕ) × (b : List ℕ) × ((contains (query ++ a) n ≡ true)
      × ((contains (query ++ b) n ≡ true) × (a ≢ b)))

-- The same below the node that the query leads to.
Below : List ℕ → Node → Found → Type 0
Below start n (found result) =
    (end : List ℕ) × ((result ≡ start ++ end)
      × ((rest : List ℕ) → (contains rest n ≡ true) ↔ (rest ≡ end)))
Below start n not_online = ⊥
Below start n too_ambiguous =
    (a : List ℕ) × (b : List ℕ) × ((contains a n ≡ true) × ((contains b n ≡ true) × (a ≢ b)))

contains-only_child :
    (rest end : List ℕ) (c : ℕ) (n : Node)
    → ((other : List ℕ) → (contains other n ≡ true) ↔ (other ≡ end))
    → (contains rest (node false (cons c n nil)) ≡ true) ↔ (rest ≡ c ∷ end)
unfolding contains
contains-only_child [] end c n only =
    (λ h. absurd (ground (arith, h)), λ e. absurd (ground (arith, e)))
contains-only_child (d ∷ rest) end c n only =
    (λ h. ground (arith, h, (only rest).0), λ e. ground (arith, e, (only rest).1))

Below-child :
    (start : List ℕ) (c : ℕ) (n : Node) (answer : Found)
    → Below (start ++ (c ∷ [])) n answer
    → Below start (node false (cons c n nil)) answer
unfolding Below
Below-child start c n (found result) (end, (e, only)) =
    (c ∷ end, (e ∙ append_assoc start (c ∷ []) end, λ rest. contains-only_child rest end c n only))
Below-child start c n not_online h = absurd h
Below-child start c n too_ambiguous (a, b, (h, (k, ne))) = (
  c ∷ a,
  c ∷ b,
  unfold contains in (ground (arith, h), (ground (arith, k), λ e. ne (ground (arith, e)))),
)

contains-leaf : (rest : List ℕ) → (contains rest (node true nil) ≡ true) ↔ (rest ≡ [])
unfolding contains
contains-leaf [] = (λ h. refl, λ h. refl)
contains-leaf (d ∷ rest) = (λ h. absurd (ground (arith, h)), λ h. absurd (ground (arith, h)))

-- Two children lead to two names, and so does a breakpoint with a child.
Below-two :
    (start : List ℕ) (b : Bool) (c d : ℕ) (n m : Node) (cs : Children)
    → IsTree (node b (cons c n (cons d m cs)))
    → Below start (node b (cons c n (cons d m cs))) too_ambiguous
unfolding Below IsTree contains get_child
Below-two start b c d n m cs (fresh, (alive, (tree, (_, (alive', (tree', _)))))) =
    let (name, e) = live-Named n tree alive in
    let (name', e') = live-Named m tree' alive' in
    (
      c ∷ name,
      d ∷ name',
      (ground (arith, e), (ground (arith, e', fresh), λ q. ground (arith, q, fresh))),
    )

Below-marked :
    (start : List ℕ) (c : ℕ) (n : Node)
    → IsTree (node true (cons c n nil))
    → Below start (node true (cons c n nil)) too_ambiguous
unfolding Below IsTree contains
Below-marked start c n (fresh, (alive, (tree, _))) =
    let (name, e) = live-Named n tree alive in
    ([], c ∷ name, (refl, (ground (arith, e), λ q. ground (arith, q))))

child-IsTree :
    (b : Bool) (c : ℕ) (n : Node) (cs : Children)
    → IsTree (node b (cons c n cs))
    → IsTree n × (is_dead n ≡ false)
unfolding IsTree
child-IsTree b c n cs (fresh, (alive, (tree, rest))) = (tree, alive)

find_end-Below :
    (start : List ℕ) (n : Node) → IsTree n → is_dead n ≡ false → Below start n (find_end start n)
unfolding find_end
find_end-Below start (node true nil) h live =
    unfold Below in ([], (sym (append-nil start), contains-leaf))
find_end-Below start (node false nil) h live = absurd (ground (arith, live))
find_end-Below start (node true (cons c n nil)) h live = Below-marked start c n h
find_end-Below start (node false (cons c n nil)) h live =
    let (tree, alive) = child-IsTree false c n nil h in
    Below-child start c n (find_end (start ++ (c ∷ [])) n)
      (find_end-Below (start ++ (c ∷ [])) n tree alive)
find_end-Below start (node b (cons c n (cons d m cs))) h live = Below-two start b c d n m cs h

-- The walk to the node of a query.
walk-missing :
    (ch : ℕ) (query : List ℕ) (b : Bool) (cs : Children)
    → get_child ch cs ≡ none
    → walk (ch ∷ query) (node b cs) ≡ none
unfolding walk
walk-missing ch query b cs e = rw (e, walk)

walk-child :
    (ch : ℕ) (query : List ℕ) (b : Bool) (cs : Children) (child : Node)
    → get_child ch cs ≡ some child
    → walk (ch ∷ query) (node b cs) ≡ walk query child
unfolding walk
walk-child ch query b cs child e = rw (e, walk)

walk-nil : (n : Node) → walk [] n ≡ some n
unfolding walk
walk-nil n = refl

contains-child :
    (ch : ℕ) (name : List ℕ) (b : Bool) (cs : Children) (child : Node)
    → get_child ch cs ≡ some child
    → contains (ch ∷ name) (node b cs) ≡ contains name child
unfolding contains
contains-child ch name b cs child e = contains_in-get_child ch name cs child e

contains-missing :
    (ch : ℕ) (name : List ℕ) (b : Bool) (cs : Children)
    → get_child ch cs ≡ none
    → contains (ch ∷ name) (node b cs) ≡ false
unfolding contains
contains-missing ch name b cs e = contains_in-missing ch name cs e

contains-walk :
    (query rest : List ℕ) (n end : Node)
    → walk query n ≡ some end
    → contains (query ++ rest) n ≡ contains rest end
contains-walk [] rest n end e = ground (arith, e, walk-nil n)
contains-walk (ch ∷ query) rest (node b cs) end e = elim (Option-cases (get_child ch cs)) [
  | inl f ↦ absurd (ground (arith, e, walk-missing ch query b cs f))
  | inr (child, f) ↦
      contains-child ch (query ++ rest) b cs child f
      ∙ contains-walk query rest child end (sym (walk-child ch query b cs child f) ∙ e)
]

contains-walk_none :
    (query rest : List ℕ) (n : Node) → walk query n ≡ none → contains (query ++ rest) n ≡ false
contains-walk_none [] rest n e = absurd (ground (arith, e, walk-nil n))
contains-walk_none (ch ∷ query) rest (node b cs) e = elim (Option-cases (get_child ch cs)) [
  | inl f ↦ contains-missing ch (query ++ rest) b cs f
  | inr (child, f) ↦
      contains-child ch (query ++ rest) b cs child f
      ∙ contains-walk_none query rest child (sym (walk-child ch query b cs child f) ∙ e)
]

root-AreTrees : (b : Bool) (cs : Children) → IsTree (node b cs) → AreTrees cs
unfolding IsTree
root-AreTrees b cs h = h

walk-IsTree :
    (query : List ℕ) (n end : Node)
    → IsTree n
    → is_dead n ≡ false
    → walk query n ≡ some end
    → IsTree end × (is_dead end ≡ false)
walk-IsTree [] n end h live e =
    let same : n ≡ end = ground (arith, e, walk-nil n) in
    subst (λ (m : Node). IsTree m × (is_dead m ≡ false)) same ((h, live))
walk-IsTree (ch ∷ query) (node b cs) end h live e = elim (Option-cases (get_child ch cs)) [
  | inl f ↦ absurd (ground (arith, e, walk-missing ch query b cs f))
  | inr (child, f) ↦
      let (tree, alive) = get_child-IsTree ch cs child (root-AreTrees b cs h) f in
      walk-IsTree query child end tree alive (sym (walk-child ch query b cs child f) ∙ e)
]

-- Below the root no node is dead.
end-IsTree :
    (ch : ℕ) (query : List ℕ) (n end : Node)
    → IsTree n
    → walk (ch ∷ query) n ≡ some end
    → IsTree end × (is_dead end ≡ false)
end-IsTree ch query (node b cs) end h e = elim (Option-cases (get_child ch cs)) [
  | inl f ↦ absurd (ground (arith, e, walk-missing ch query b cs f))
  | inr (child, f) ↦
      let (tree, alive) = get_child-IsTree ch cs child (root-AreTrees b cs h) f in
      walk-IsTree query child end tree alive (sym (walk-child ch query b cs child f) ∙ e)
]

append_cancel : (xs ys zs : List ℕ) → xs ++ ys ≡ xs ++ zs → ys ≡ zs
append_cancel [] ys zs e = e
append_cancel (x ∷ xs) ys zs e = append_cancel xs ys zs (ground (arith, e))

-- From the node of the query to the whole tree.
Below→Answers :
    (query : List ℕ) (n end : Node) (answer : Found)
    → walk query n ≡ some end
    → Below query end answer
    → Answers query n answer
unfolding Below
Below→Answers query n end (found result) w (rest, (e, only)) = (
  (rest, e),
  λ other. (
    λ h.
        ap (λ l. query ++ l) ((only other).0 (sym (contains-walk query other n end w) ∙ h)) ∙ sym e,
    λ h.
        contains-walk query other n end w ∙ (only other).1 (append_cancel query other rest (h ∙ e)),
  ),
)
Below→Answers query n end not_online w h = absurd h
Below→Answers query n end too_ambiguous w (a, b, (h, (k, ne))) =
    (a, b, (contains-walk query a n end w ∙ h, (contains-walk query b n end w ∙ k, ne)))

find_one-missing : (query : List ℕ) (n : Node) → walk query n ≡ none → find_one query n ≡ not_online
unfolding find_one
find_one-missing query n e = rw (e, find_one)

find_one-end :
    (query : List ℕ) (n end : Node)
    → walk query n ≡ some end
    → find_one query n ≡ find_end query end
unfolding find_one
find_one-end query n end e = rw (e, find_one)

-- The answer to a query that is not empty: the name found is the only one in the tree that starts
-- with the query, no name in the tree does, or two names do.
pub find_one-Answers :
    (ch : ℕ) (query : List ℕ) (n : Node)
    → IsTree n
    → Answers (ch ∷ query) n (find_one (ch ∷ query) n)
find_one-Answers ch query n h = elim (Option-cases (walk (ch ∷ query) n)) [
  | inl e ↦
      rw (find_one-missing (ch ∷ query) n e) (λ rest. contains-walk_none (ch ∷ query) rest n e)
  | inr (end, e) ↦
      let (tree, alive) = end-IsTree ch query n end h e in
      rw (find_one-end (ch ∷ query) n end e) (
        Below→Answers (ch ∷ query) n end (find_end (ch ∷ query) end) e
          (find_end-Below (ch ∷ query) end tree alive))
]
