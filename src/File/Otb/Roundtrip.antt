-- ===== src/File/Otb/Roundtrip.antt =====
-- The file format by an independent description, its encoder, and what the loader makes of a file that
-- is encoded.
use mathlib.Core.List.{append_assoc, append-nil}
use rubyserver.Base.{
  ℕ, ◌≡◌, refl, sym, ap, ◌∙◌, ◌+◌, ◌≤◌, Bool, true, false, not, ◌&&◌, ◌||◌, length, length-append,
  ltb, if_either, List, [], ◌∷◌, ◌++◌, Option, none, some, ◌==◌, if◌then◌else◌, arith, Bool-cases,
  inl, inr,
}
use rubyserver.File.Otb.{
  escape_byte, start_byte, end_byte, Node, node, Nodes, nil, cons, snoc, is_nil, Open, plain, close,
  add_byte, add_to_top, start_node, push_node, pop_node, step, finish, parse_loop, parse_root,
  parse_tree, unescape, get_props, same_bytes, accept_file, open_file,
}

pub is_special : ℕ → Bool
is_special b = b == escape_byte || (b == start_byte || b == end_byte)

-- The three bytes with a meaning are written behind an ESCAPE.
pub escape : List ℕ → List ℕ
escape [] = []
escape (b ∷ bs) = let rest = escape bs in if is_special b then escape_byte ∷ b ∷ rest else b ∷ rest

-- The tree as the loader holds it, its properties still escaped.
mutual
  pub raw : Node → Node
  raw (node t ps cs) = node t (escape ps) (raws cs)

  raws : Nodes → Nodes
  raws nil = nil
  raws (cons c cs) = cons (raw c) (raws cs)

mutual
  pub encode : Node → List ℕ
  encode (node t ps cs) = start_byte ∷ t ∷ (escape ps ++ (encodes cs ++ (end_byte ∷ [])))

  encodes : Nodes → List ℕ
  encodes nil = []
  encodes (cons c cs) = encode c ++ encodes cs

append_nodes : Nodes → Nodes → Nodes
append_nodes nil ds = ds
append_nodes (cons c cs) ds = cons c (append_nodes cs ds)

append_nodes-snoc :
    (cs : Nodes) (c : Node) (ds : Nodes) → append_nodes (snoc cs c) ds ≡ append_nodes cs (cons c ds)
unfolding append_nodes snoc
append_nodes-snoc nil c ds = refl
append_nodes-snoc (cons d cs) c ds = ap (cons d) (append_nodes-snoc cs c ds)

append_nodes-nil : (cs : Nodes) → append_nodes cs nil ≡ cs
unfolding append_nodes
append_nodes-nil nil = refl
append_nodes-nil (cons c cs) = ap (cons c) (append_nodes-nil cs)

-- A loop that stands at the top of a stack of open nodes.
abbrev at : List ℕ → Open → List Open → Option Node → Option Node
at bs o os r = parse_loop bs (record { mode = plain; stack = o ∷ os; root = r })

-- What the loop does at each kind of byte.
step-plain :
    (b : ℕ) (o : Open) (os : List Open) (r : Option Node)
    → is_special b ≡ false
    → step b (record { mode = plain; stack = o ∷ os; root = r })
      ≡ some (record { mode = plain; stack = add_byte b o ∷ os; root = r })
unfolding step add_to_top is_special
step-plain b o os r h =
    let not_start : (b == start_byte) ≡ false = ground arith in
    let not_end : (b == end_byte) ≡ false = ground arith in
    let not_escape : (b == escape_byte) ≡ false = ground arith in
    rw (not_start, not_end, not_escape)

parse_loop-plain :
    (b : ℕ) (bs : List ℕ) (o : Open) (os : List Open) (r : Option Node)
    → is_special b ≡ false
    → at (b ∷ bs) o os r ≡ at bs (add_byte b o) os r
unfolding parse_loop
parse_loop-plain b bs o os r h = rw (step-plain b o os r h, parse_loop)

parse_loop-escaped :
    (b : ℕ) (bs : List ℕ) (o : Open) (os : List Open) (r : Option Node)
    → at (escape_byte ∷ b ∷ bs) o os r ≡ at bs (add_byte b (add_byte escape_byte o)) os r
unfolding parse_loop step add_to_top
parse_loop-escaped b bs o os r = refl

abbrev fresh : ℕ → Open
fresh t = record { type = t; props = []; children = nil }

parse_loop-start :
    (t : ℕ) (bs : List ℕ) (o : Open) (os : List Open) (r : Option Node)
    → at (start_byte ∷ t ∷ bs) o os r ≡ at bs (fresh t) (o ∷ os) r
unfolding parse_loop step start_node push_node
parse_loop-start t bs o os r = refl

parse_loop-end :
    (bs : List ℕ) (o parent : Open) (os : List Open) (r : Option Node)
    → at (end_byte ∷ bs) o (parent ∷ os) r
      ≡ at bs (record parent { children = snoc parent.children (close o) }) os r
unfolding parse_loop step pop_node
parse_loop-end bs o parent os r = refl

-- Escaped properties are taken over as they are.
parse_loop-escape :
    (ps bs qs : List ℕ) (t : ℕ) (os : List Open) (r : Option Node)
    → at (escape ps ++ bs) (record { type = t; props = qs; children = nil }) os r
      ≡ at bs (record { type = t; props = qs ++ escape ps; children = nil }) os r
unfolding escape add_byte is_nil
parse_loop-escape [] bs qs t os r =
    ap (λ (l : List ℕ). at bs (record { type = t; props = l; children = nil }) os r)
      (sym (append-nil qs))
parse_loop-escape (p ∷ ps) bs qs t os r = elim (Bool-cases (is_special p)) [
  | inl e ↦
      rw (e, parse_loop-escaped p (escape ps ++ bs) (open_with qs) os r)
        (parse_loop-escape ps bs ((qs ++ (escape_byte ∷ [])) ++ (p ∷ [])) t os r
          ∙ ap (λ (l : List ℕ). at bs (open_with l) os r) (two qs p (escape ps)))
  | inr e ↦
      rw (e, parse_loop-plain p (escape ps ++ bs) (open_with qs) os r e)
        (parse_loop-escape ps bs (qs ++ (p ∷ [])) t os r
          ∙ ap (λ (l : List ℕ). at bs (open_with l) os r) (append_assoc qs (p ∷ []) (escape ps)))
]
  where
    open_with : List ℕ → Open
    open_with l = record { type = t; props = l; children = nil }

    two :
        (xs : List ℕ) (x : ℕ) (ys : List ℕ)
        → ((xs ++ (escape_byte ∷ [])) ++ (x ∷ [])) ++ ys ≡ xs ++ (escape_byte ∷ x ∷ ys)
    two xs x ys = simp append_assoc

-- The children of an open node, and the whole of one of them.
mutual
  unfolding encode encodes raw raws append_nodes close

  parse_loop-encode :
      (c : Node) (bs : List ℕ) (t : ℕ) (qs : List ℕ) (ds : Nodes) (os : List Open) (r : Option Node)
      → at (encode c ++ bs) (record { type = t; props = qs; children = ds }) os r
        ≡ at bs (record { type = t; props = qs; children = snoc ds (raw c) }) os r
  parse_loop-encode (node u ps cs) bs t qs ds os r =
      ap (λ (l : List ℕ). at (start_byte ∷ u ∷ l) o os r)
        (append_assoc (escape ps) (encodes cs ++ (end_byte ∷ [])) bs
          ∙ ap (λ (l : List ℕ). escape ps ++ l) (append_assoc (encodes cs) (end_byte ∷ []) bs))
      ∙ parse_loop-start u (escape ps ++ (encodes cs ++ (end_byte ∷ bs))) o os r
      ∙ parse_loop-escape ps (encodes cs ++ (end_byte ∷ bs)) [] u (o ∷ os) r
      ∙ parse_loop-encodes cs (end_byte ∷ bs) u (escape ps) nil (o ∷ os) r
      ∙ parse_loop-end bs (record { type = u; props = escape ps; children = raws cs }) o os r
    where
      o : Open
      o = record { type = t; props = qs; children = ds }

  parse_loop-encodes :
      (cs : Nodes) (bs : List ℕ) (t : ℕ) (qs : List ℕ) (ds : Nodes) (os : List Open)
      (r : Option Node)
      → at (encodes cs ++ bs) (record { type = t; props = qs; children = ds }) os r
        ≡ at bs (record { type = t; props = qs; children = append_nodes ds (raws cs) }) os r
  parse_loop-encodes nil bs t qs ds os r =
      ap (λ (es : Nodes). at bs (record { type = t; props = qs; children = es }) os r)
        (sym (append_nodes-nil ds))
  parse_loop-encodes (cons c cs) bs t qs ds os r =
      ap (λ (l : List ℕ). at l (record { type = t; props = qs; children = ds }) os r)
        (append_assoc (encode c) (encodes cs) bs)
      ∙ parse_loop-encode c (encodes cs ++ bs) t qs ds os r
      ∙ parse_loop-encodes cs bs t qs (snoc ds (raw c)) os r
      ∙ ap (λ (es : Nodes). at bs (record { type = t; props = qs; children = es }) os r)
          (append_nodes-snoc ds (raw c) (raws cs))

-- Unescaping what was escaped.
unescape-escape : (ps : List ℕ) → unescape false (escape ps) ≡ ps
unfolding unescape escape is_special
unescape-escape [] = refl
unescape-escape (p ∷ ps) = elim (Bool-cases (is_special p)) [
  | inl e ↦ rw e (ground (arith, unescape-escape ps))
  | inr e ↦ rw e (ground (arith, unescape-escape ps))
]

-- parseTree reads back every tree that is encoded behind four bytes, whatever bytes its types and
-- properties hold; the properties are held escaped.
parse_tree-encode : (a b c d : ℕ) (n : Node) → parse_tree (a ∷ b ∷ c ∷ d ∷ encode n) ≡ some (raw n)
unfolding parse_tree parse_root encode raw
parse_tree-encode a b c d (node t ps cs) =
    parse_loop-escape ps (encodes cs ++ (end_byte ∷ [])) [] t [] none
    ∙ parse_loop-encodes cs (end_byte ∷ []) t (escape ps) nil [] none
    ∙ unfold parse_loop step pop_node finish close append_nodes in refl

-- A root with no property and no child.
unfoldable pub is_bare : Node → Bool
is_bare (node t [] nil) = true
is_bare (node t [] (cons c cs)) = false
is_bare (node t (p ∷ ps) cs) = false

escape-length : (p : ℕ) (ps : List ℕ) → 1 ≤ length (escape (p ∷ ps))
unfolding escape
escape-length p ps =
    if_either (λ (bs : List ℕ). 1 ≤ length bs) (is_special p) (escape_byte ∷ p ∷ escape ps) _
      (omega arith) (omega arith)

end_long : (bs : List ℕ) → 1 ≤ length (bs ++ (end_byte ∷ []))
end_long bs = omega (arith, length-append bs (end_byte ∷ []))

length-encode : (n : Node) → ltb 7 (4 + length (encode n)) ≡ not (is_bare n)
unfolding encode is_bare escape
length-encode (node t [] nil) = refl
length-encode (node t [] (cons (node u qs ds) cs)) =
    ground (arith, end_long (escape qs ++ (encodes ds ++ (end_byte ∷ [])) ++ encodes cs))
length-encode (node t (p ∷ ps) cs) = ground (
  arith,
  escape-length p ps,
  length-append (escape (p ∷ ps)) (encodes cs ++ (end_byte ∷ [])),
  end_long (encodes cs),
)

-- A file of four bytes and the encoding of a tree gives the tree, its properties held escaped, where
-- the four bytes are the accepted identifier or zeros, and the root has a property or a child; any
-- other such file is refused.
pub open_file-encode :
    (accepted : List ℕ) (a b c d : ℕ) (n : Node)
    → let identifier = a ∷ b ∷ c ∷ d ∷ [] in
      open_file accepted (identifier ++ encode n) ≡ (
        if (same_bytes identifier accepted || same_bytes identifier (0 ∷ 0 ∷ 0 ∷ 0 ∷ []))
          && not (is_bare n)
        then some (raw n)
        else none)
unfolding open_file accept_file
open_file-encode accepted a b c d n = ground (arith, length-encode n, parse_tree-encode a b c d n)

get_props-cons :
    (t x : ℕ) (xs : List ℕ) (cs : Nodes)
    → get_props (node t (x ∷ xs) cs) ≡ some (unescape false (x ∷ xs))
unfolding get_props
get_props-cons t x xs cs = refl

-- getProps of a node that is read gives the properties that were encoded, where there are any.
pub get_props-raw :
    (t p : ℕ) (ps : List ℕ) (cs : Nodes) → get_props (raw (node t (p ∷ ps) cs)) ≡ some (p ∷ ps)
unfolding raw
get_props-raw t p ps cs = elim (Bool-cases (is_special p)) [
  | inl e ↦ nonempty escape_byte (p ∷ escape ps) (unfold escape in rw e)
  | inr e ↦ nonempty p (escape ps) (unfold escape in rw e)
]
  where
    nonempty :
        (x : ℕ) (xs : List ℕ)
        → escape (p ∷ ps) ≡ x ∷ xs
        → get_props (node t (escape (p ∷ ps)) (raws cs)) ≡ some (p ∷ ps)
    nonempty x xs k =
        ap (λ (l : List ℕ). get_props (node t l (raws cs))) k
        ∙ get_props-cons t x xs (raws cs)
        ∙ ap (λ (l : List ℕ). some (unescape false l)) (sym k)
        ∙ ap some (unescape-escape (p ∷ ps))
