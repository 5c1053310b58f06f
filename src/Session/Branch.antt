-- ===== src/Session/Branch.antt =====
-- session/tree.go: `branchPath` ends, and it and `buildBranch` are recursions on the history.
use piglet.Prelude.{
  ℕ, zero, suc, ◌<◌, String, Bool-cases, inl, inr, ◌≡◌, refl, ap, subst, append-nil, ◌∙◌, sym, true,
  false, none, some, List, [], ◌∷◌, ◌++◌, map, str_eq, eq_iff, eq_refl, lookup, length, All,
  All-append, arith, if◌then◌else◌, str_eq→eq,
}
use piglet.Core.Types.{Message}
use piglet.Session.Types.{Node, Nodes, Session}
use piglet.Session.Tree.{branch_loop, branch_path, add_node, build_loop, messages}
use piglet.Session.Invariant.{is_known, IsTree, IsValid}

-- The entries from the root to the leaf, by recursion on the history.
abbrev pub ancestors : Nodes → String → List (String × Node)
ancestors [] leaf = []
ancestors ((id, n) ∷ older) leaf =
    let up = ancestors older n.parent_id in
    let skip = ancestors older leaf in if str_eq id leaf then up ++ (id, n) ∷ [] else skip

abbrev pub ids : List (String × Node) → List String
ids = map (λ (p : String × Node). p.0)

-- The messages on the branch of a leaf, by the same recursion.
abbrev pub transcript : Nodes → String → List Message
transcript [] leaf = []
transcript ((id, n) ∷ older) leaf =
    let up = transcript older n.parent_id in
    let skip = transcript older leaf in if str_eq id leaf then add_node n up else skip

-- What a part of the history holds, the whole holds too.
abbrev Agrees : Nodes → Nodes → Type 0
Agrees m nodes = (k : String) (n : Node) → lookup k m ≡ some n → lookup k nodes ≡ some n

Agrees-older :
    (id : String) (n : Node) (older nodes : Nodes)
    → lookup id older ≡ none
    → Agrees ((id, n) ∷ older) nodes
    → Agrees older nodes
unfolding lookup
Agrees-older id n older nodes new h k m e = h k m (ground (arith, eq_iff id k))

Agrees-head :
    (id : String) (n : Node) (older nodes : Nodes)
    → Agrees ((id, n) ∷ older) nodes
    → lookup id nodes ≡ some n
unfolding lookup
Agrees-head id n older nodes h = h id n (rw eq_refl refl)

known_older :
    (id leaf : String) (n : Node) (older : Nodes)
    → str_eq id leaf ≡ false
    → is_known leaf ((id, n) ∷ older) ≡ true
    → is_known leaf older ≡ true
unfolding lookup
known_older id leaf n older e h = ground arith

branch_loop_step :
    (fuel : ℕ) (nodes : Nodes) (id : String) (n : Node) (path : List String)
    → str_eq id "" ≡ false
    → lookup id nodes ≡ some n
    → branch_loop (suc fuel) nodes id path ≡ branch_loop fuel nodes n.parent_id (id ∷ path)
unfolding branch_loop
branch_loop_step fuel nodes id n path e l = ground arith

ids-snoc :
    (up : List (String × Node)) (id : String) (n : Node) (path : List String)
    → ids (up ++ (id, n) ∷ []) ++ path ≡ ids up ++ id ∷ path
ids-snoc [] id n path = refl
ids-snoc ((i, x) ∷ up) id n path = ap (λ t. i ∷ t) (ids-snoc up id n path)

branch_loop_end :
    (fuel : ℕ) (nodes : Nodes) (leaf : String) (path : List String)
    → is_known leaf [] ≡ true
    → branch_loop (suc fuel) nodes leaf path ≡ some path
unfolding branch_loop lookup
branch_loop_end fuel nodes leaf path k = ground arith

branch_loop-ancestors :
    (m nodes : Nodes) (leaf : String) (fuel : ℕ) (path : List String)
    → IsTree m
    → is_known leaf m ≡ true
    → Agrees m nodes
    → length m < fuel
    → branch_loop fuel nodes leaf path ≡ some (ids (ancestors m leaf) ++ path)
branch_loop-ancestors m nodes leaf zero path t k a lt = absurd (omega arith)
branch_loop-ancestors [] nodes leaf (suc fuel) path t k a lt =
    branch_loop_end fuel nodes leaf path k
branch_loop-ancestors ((id, n) ∷ older) nodes leaf (suc fuel) path t k a lt =
    elim (Bool-cases (str_eq id leaf)) [
      | inl e ↦ rw e (
          subst
            (λ l.
              branch_loop (suc fuel) nodes l path
              ≡ some (ids (ancestors older n.parent_id ++ (id, n) ∷ []) ++ path))
            (str_eq→eq id leaf e)
            (branch_loop_step fuel nodes id n path t.0 (Agrees-head id n older nodes a)
              ∙ branch_loop-ancestors older nodes n.parent_id fuel (id ∷ path) t.3 t.2
                  (Agrees-older id n older nodes t.1 a) (omega arith)
              ∙ ap some (sym (ids-snoc (ancestors older n.parent_id) id n path))))
      | inr e ↦ rw e (
          branch_loop-ancestors older nodes leaf (suc fuel) path t.3
            (known_older id leaf n older e k) (Agrees-older id n older nodes t.1 a) (omega arith))
    ]

-- On a valid session the walk ends, at the root, and visits the ancestors of the leaf.
pub branch_path-ancestors :
    (s : Session) → IsValid s → branch_path s ≡ some (ids (ancestors s.nodes s.leaf_id))
unfolding branch_path
branch_path-ancestors s v =
    branch_loop-ancestors s.nodes s.nodes s.leaf_id (suc (length s.nodes)) [] v.tree v.leaf
      (λ k n e. e) (omega arith)
    ∙ ap some (append-nil _)

abbrev build : List (String × Node) → List Message → List Message
build [] msgs = msgs
build ((id, n) ∷ path) msgs = build path (add_node n msgs)

build-append :
    (xs ys : List (String × Node)) (msgs : List Message)
    → build (xs ++ ys) msgs ≡ build ys (build xs msgs)
build-append [] ys msgs = refl
build-append ((id, n) ∷ xs) ys msgs = build-append xs ys (add_node n msgs)

build-ancestors : (m : Nodes) (leaf : String) → build (ancestors m leaf) [] ≡ transcript m leaf
build-ancestors [] leaf = refl
build-ancestors ((id, n) ∷ older) leaf = elim (Bool-cases (str_eq id leaf)) [
  | inl e ↦ rw e (
      build-append (ancestors older n.parent_id) ((id, n) ∷ []) []
      ∙ ap (add_node n) (build-ancestors older n.parent_id))
  | inr e ↦ rw e (build-ancestors older leaf)
]

abbrev Listed : Nodes → List (String × Node) → Type 0
Listed nodes = All (λ (p : String × Node). lookup p.0 nodes ≡ some p.1)

Listed-ancestors :
    (m nodes : Nodes) (leaf : String) → IsTree m → Agrees m nodes → Listed nodes (ancestors m leaf)
Listed-ancestors [] nodes leaf t a = tt
Listed-ancestors ((id, n) ∷ older) nodes leaf t a =
    let a' = Agrees-older id n older nodes t.1 a in
    elim (Bool-cases (str_eq id leaf)) [
      | inl e ↦ rw e (
          All-append _ (ancestors older n.parent_id) ((id, n) ∷ [])
            (Listed-ancestors older nodes n.parent_id t.3 a') (Agrees-head id n older nodes a, tt))
      | inr e ↦ rw e (Listed-ancestors older nodes leaf t.3 a')
    ]

build_loop-ids :
    (nodes : Nodes) (path : List (String × Node)) (msgs : List Message)
    → Listed nodes path
    → build_loop nodes (ids path) msgs ≡ build path msgs
unfolding build_loop
build_loop-ids nodes [] msgs l = refl
build_loop-ids nodes ((id, n) ∷ path) msgs l =
    rw (l.0, build_loop) (build_loop-ids nodes path (add_node n msgs) l.1)

-- `Messages` is the transcript of the leaf.
pub messages-transcript :
    (s : Session) → IsValid s → messages s ≡ some (transcript s.nodes s.leaf_id)
unfolding messages
messages-transcript s v = rw (branch_path-ancestors s v) (
    ap some (
      build_loop-ids s.nodes (ancestors s.nodes s.leaf_id) []
        (Listed-ancestors s.nodes s.nodes s.leaf_id v.tree (λ k n e. e))
      ∙ build-ancestors s.nodes s.leaf_id))
