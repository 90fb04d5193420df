-- ===== src/Merkle.antt =====
-- The Merkle trees of tools/merkletree.go. The hash strategy and the content's two methods are
-- arguments; a byte string is a list of numbers. A node's `Parent` is kept as the levels above the
-- leaves: the parent of the i-th node of a level is the (i / 2)-th node of the next one.
use tradeverse_api.Prelude.{
  ℕ, zero, suc, ◌/◌, Bool, true, false, not, ◌&&◌, List, [], ◌∷◌, ◌++◌, ltb, ◌==◌, if◌then◌else◌,
  Option, none, some, length, bytes_equal,
}
use tradeverse_api.Wallet.Nonce.{set_bytes}
pub mod Links
pub mod Laws
pub mod Checks
pub mod Tests
pub mod Rebuild

abbrev pub Bytes : Type 0
Bytes = List ℕ

-- `TreeContent`; `none` is an error.
pub record TreeContent (C : Type 0) : Type 0 where
  pub calculate_hash : C → Option Bytes
  pub equals : C → C → Option Bool

pub record Leaf (C : Type 0) : Type 0 where
  pub digest : Bytes
  pub content : C

pub data Node (C : Type 0) : Type 0 where
  leaf : Leaf C → Node C
  -- the hash, the left and the right child
  branch : Bytes → Node C → Node C → Node C

pub record MerkleTree (C : Type 0) : Type 0 where
  pub root : Node C
  pub merkle_root : Bytes
  pub leafs : List (Leaf C)
  pub parents : List (List (Node C))
  pub sort : Bool

-- `sortAppend`
pub sort_append : Bool → Bytes → Bytes → Bytes
sort_append sort a b =
    if not sort then a ++ b else if ltb (set_bytes a) (set_bytes b) then a ++ b else b ++ a

abbrev pub get_elem? {ℓ} : {A : Type ℓ} → List A → ℕ → Option A
get_elem? [] i = none
get_elem? (x ∷ xs) zero = some x
get_elem? (x ∷ xs) (suc i) = get_elem? xs i

abbrev pub hash_of : {C : Type 0} → Node C → Bytes
hash_of (leaf l) = l.digest
hash_of (branch h l r) = h

module _ {C : Type 0} (content : TreeContent C) (hash : Bytes → Bytes) where
  pub pair : Bool → Node C → Node C → Node C
  pair sort l r = branch (hash (sort_append sort (hash_of l) (hash_of r))) l r

  -- One round of `buildIntermediate`: an odd node is paired with itself.
  pub next_level : Bool → List (Node C) → List (Node C)
  next_level sort [] = []
  next_level sort (x ∷ []) = pair sort x x ∷ []
  next_level sort (x ∷ y ∷ rest) = pair sort x y ∷ next_level sort rest

  -- A level of one node is the root; above any other stand the levels of the next round.
  stack :
      List (Node C)
      → Option (Node C × List (List (Node C)))
      → Option (Node C × List (List (Node C)))
  stack (n ∷ []) above = some (n, (n ∷ []) ∷ [])
  stack nodes none = none
  stack nodes (some (root, levels)) = some (root, nodes ∷ levels)

  -- `buildIntermediate`. The fuel bounds the rounds.
  pub build_intermediate : ℕ → Bool → List (Node C) → Option (Node C × List (List (Node C)))
  unfolding stack
  build_intermediate zero sort nl = none
  build_intermediate (suc fuel) sort nl =
      let nodes = next_level sort nl in stack nodes (build_intermediate fuel sort nodes)

  new_leaf : C → Option Bytes → Option (Leaf C)
  new_leaf c none = none
  new_leaf c (some h) = some (record { digest = h; content = c })

  add_leaf : Option (Leaf C) → Option (List (Leaf C)) → Option (List (Leaf C))
  add_leaf none ls = none
  add_leaf (some l) none = none
  add_leaf (some l) (some ls) = some (l ∷ ls)

  pub new_leafs : List C → Option (List (Leaf C))
  unfolding new_leaf add_leaf
  new_leafs [] = some []
  new_leafs (c ∷ cs) = add_leaf (new_leaf c (content.calculate_hash c)) (new_leafs cs)

  abbrev pub nodes_of : List (Leaf C) → List (Node C)
  nodes_of [] = []
  nodes_of (l ∷ ls) = leaf l ∷ nodes_of ls

  planted : Bool → List (Leaf C) → Option (Node C × List (List (Node C))) → Option (MerkleTree C)
  planted sort ls none = none
  planted sort ls (some (root, levels)) = some (record {
    root = root;
    merkle_root = hash_of root;
    leafs = ls;
    parents = levels;
    sort = sort;
  })

  grown : Bool → Option (List (Leaf C)) → Option (MerkleTree C)
  unfolding planted
  grown sort none = none
  grown sort (some ls) = planted sort ls (build_intermediate (suc (length ls)) sort (nodes_of ls))

  -- `NewTreeWithHashStrategySorted`, `buildWithContent`; the other two constructors and the two
  -- `Rebuild` methods differ from it in where the parts come from.
  pub new_tree : Bool → List C → Option (MerkleTree C)
  unfolding grown
  new_tree sort [] = none
  new_tree sort (c ∷ cs) = grown sort (new_leafs (c ∷ cs))

  -- `RebuildTreeWith`
  pub rebuild_with : MerkleTree C → List C → Option (MerkleTree C)
  unfolding new_tree
  rebuild_with t cs = new_tree t.sort cs

  abbrev pub contents : List (Leaf C) → List C
  contents [] = []
  contents (l ∷ ls) = l.content ∷ contents ls

  -- `RebuildTree`
  pub rebuild : MerkleTree C → Option (MerkleTree C)
  unfolding rebuild_with
  rebuild t = rebuild_with t (contents t.leafs)

  pub chain_from : Option (Node C) → List (Node C) → List (Node C)
  chain_from none above = []
  chain_from (some p) above = p ∷ above

  -- The chain of `Parent` pointers above the i-th node of a level.
  pub ancestors : ℕ → List (List (Node C)) → List (Node C)
  unfolding chain_from
  ancestors i [] = []
  ancestors i (level ∷ levels) = chain_from (get_elem? level (i / 2)) (ancestors (i / 2) levels)

  -- The first leaf that equals the content, with its place. The outer `none` is an error.
  pub find_leaf : ℕ → List (Leaf C) → C → Option (Option (ℕ × Leaf C))
  find_leaf i [] c = some none
  find_leaf i (l ∷ ls) c =
      let rest = find_leaf (suc i) ls c in
      elim (content.equals l.content c) [
        | none ↦ none
        | some b ↦ if b then some (some (i, l)) else rest
      ]

  -- The sibling of a node below a parent, with 1 for a right one. `none` is the nil pointer of a leaf.
  sibling : Node C → Node C → Option (Bytes × ℕ)
  sibling current (leaf l) = none
  sibling current (branch h l r) =
      if bytes_equal (hash_of l) (hash_of current) then some (hash_of r, 1) else some (hash_of l, 0)

  step_up : Option (Bytes × ℕ) → Option (List (Bytes × ℕ)) → Option (List (Bytes × ℕ))
  step_up none path = none
  step_up (some s) none = none
  step_up (some s) (some path) = some (s ∷ path)

  pub climb : Node C → List (Node C) → Option (List (Bytes × ℕ))
  unfolding sibling step_up
  climb current [] = some []
  climb current (p ∷ ps) = step_up (sibling current p) (climb p ps)

  -- `GetMerklePath`, for a content that is there: its leaf, and the path or a nil pointer.
  pub get_merkle_path : MerkleTree C → C → Option (Option (Leaf C × Option (List (Bytes × ℕ))))
  get_merkle_path t c = elim (find_leaf 0 t.leafs c) [
    | none ↦ none
    | some none ↦ some none
    | some (some (i, l)) ↦ some (some (l, climb (leaf l) (ancestors i t.parents)))
  ]

  join_hash : Bool → Option Bytes → Option Bytes → Option Bytes
  join_hash sort none r = none
  join_hash sort (some l) none = none
  join_hash sort (some l) (some r) = some (hash (sort_append sort l r))

  pub verify_node : Bool → Node C → Option Bytes
  unfolding join_hash
  verify_node sort (leaf l) = content.calculate_hash l.content
  verify_node sort (branch h l r) = join_hash sort (verify_node sort l) (verify_node sort r)

  same_root : Bytes → Option Bytes → Option Bool
  same_root h none = none
  same_root h (some h') = some (bytes_equal h h')

  pub verify_tree : MerkleTree C → Option Bool
  unfolding same_root
  verify_tree t = same_root t.merkle_root (verify_node t.sort t.root)

  calculate_node_hash : Bool → Node C → Option Bytes
  calculate_node_hash sort (leaf l) = content.calculate_hash l.content
  calculate_node_hash sort (branch h l r) = some (hash (sort_append sort (hash_of l) (hash_of r)))

  -- Whether a parent's hash is that of its children, whose hashes are computed again.
  check_parent : Bool → Node C → Option Bool
  unfolding join_hash same_root calculate_node_hash
  check_parent sort (leaf l) = none
  check_parent sort (branch h l r) =
      same_root h (join_hash sort (calculate_node_hash sort l) (calculate_node_hash sort r))

  and_then : Option Bool → Option Bool → Option Bool
  and_then none rest = none
  and_then (some false) rest = some false
  and_then (some true) rest = rest

  pub check_chain : Bool → List (Node C) → Option Bool
  unfolding check_parent and_then
  check_chain sort [] = some true
  check_chain sort (p ∷ ps) = and_then (check_parent sort p) (check_chain sort ps)

  pub verify_content : MerkleTree C → C → Option Bool
  verify_content t c = elim (find_leaf 0 t.leafs c) [
    | none ↦ none
    | some none ↦ some false
    | some (some (i, l)) ↦ check_chain t.sort (ancestors i t.parents)
  ]
