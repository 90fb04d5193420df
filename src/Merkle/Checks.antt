-- ===== src/Merkle/Checks.antt =====
-- What `VerifyTree` and `VerifyContent` of tools/merkletree.go answer for a tree that was built.
use tradeverse_api.Prelude.{
  ℕ, suc, Bool, true, false, List, [], ◌∷◌, ◌≡◌, ◌≢◌, inl, inr, refl, Option, none, some, length,
  arith, Option-cases, if◌then◌else◌, sym, subst, bytes_equal_self,
}
use tradeverse_api.Merkle.{
  Bytes, TreeContent, Node, Leaf, MerkleTree, branch, leaf, hash_of, pair, new_leaf, add_leaf,
  new_leafs, nodes_of, planted, grown, new_tree, build_intermediate, ancestors, sort_append,
  find_leaf, verify_node, join_hash, same_root, verify_tree, calculate_node_hash, check_parent,
  and_then, check_chain, verify_content,
}
use tradeverse_api.Merkle.Links.{
  Climbs, build_intermediate-Rises, IsHashed, RootHashed, build_intermediate-RootHashed,
}
use tradeverse_api.Merkle.Laws.{new_tree-Grown, new_leafs-AllHashed, leaf-Climbs, length-nodes_of}

module _ {C : Type 0} (content : TreeContent C) (hash : Bytes → Bytes) (sort : Bool) where
  verify_node_lem :
      (n : Node C)
      → IsHashed content hash sort n
      → verify_node content hash sort n ≡ some (hash_of n)
  unfolding verify_node join_hash
  verify_node_lem (leaf l) h = h
  verify_node_lem (branch d l r) h = ground (arith, verify_node_lem l h.1, verify_node_lem r h.2)

  root-IsHashed :
      (cs : List C) (t : MerkleTree C)
      → new_tree content hash sort cs ≡ some t
      → IsHashed content hash sort t.root
  root-IsHashed cs t e =
      let g = new_tree-Grown content hash sort cs t e in
      let (hashed, long) = new_leafs-AllHashed content hash sort cs t.leafs g.leafed in
      let nodes = nodes_of content hash t.leafs in
      let k : RootHashed content hash sort
          (build_intermediate content hash (suc (length t.leafs)) sort nodes) =
        build_intermediate-RootHashed content hash sort (suc (length t.leafs)) nodes hashed in
      rw g.built at k

  -- The hash of every content can be calculated.
  abbrev pub AllHash : List C → Type 0
  AllHash [] = Unit
  AllHash (c ∷ cs) = (content.calculate_hash c ≢ none) × AllHash cs

  new_leafs_total :
      (cs : List C) → AllHash cs → (ls : List (Leaf C)) × (new_leafs content hash cs ≡ some ls)
  unfolding new_leafs new_leaf add_leaf
  new_leafs_total [] h = ([], refl)
  new_leafs_total (c ∷ cs) h = elim (Option-cases (content.calculate_hash c)) [
    | inl n ↦ absurd (h.0 n)
    | inr (d, n) ↦
        let (ls, m) = new_leafs_total cs h.1 in
        (record { digest = d; content = c } ∷ ls, ground arith)
  ]

  -- Over contents that are at least one and whose hashes can be calculated, `new_tree` gives a tree,
  -- and `verify_tree` accepts it.
  pub new_tree_verifies :
      (c : C) (cs : List C)
      → AllHash (c ∷ cs)
      → (t : MerkleTree C) × (new_tree content hash sort (c ∷ cs) ≡ some t)
        × (verify_tree content hash t ≡ some true)
  unfolding new_tree grown planted verify_tree same_root
  new_tree_verifies c cs h =
      let (ls, e) = new_leafs_total (c ∷ cs) h in
      let (hashed, long) = new_leafs-AllHashed content hash sort (c ∷ cs) ls e in
      let nodes = nodes_of content hash ls in
      let rises =
        build_intermediate-Rises content hash sort (suc (length ls)) nodes
          (omega (arith, length-nodes_of content hash sort ls))
          (omega (arith, length-nodes_of content hash sort ls)) in
      let good = build_intermediate-RootHashed content hash sort (suc (length ls)) nodes hashed in
      elim (Option-cases (build_intermediate content hash (suc (length ls)) sort nodes)) [
        | inl m ↦ absurd (rw m at rises)
        | inr ((root, levels), m) ↦
            let good' : IsHashed content hash sort root = rw m at good in
            (
              record {
                root = root;
                merkle_root = hash_of root;
                leafs = ls;
                parents = levels;
                sort = sort;
              },
              ground arith,
              ground (arith, verify_node_lem root good', bytes_equal_self (hash_of root)),
            )
      ]

  -- Whether the first content that is not told apart from `c`, by an error or by its equality, is
  -- equal to it: `none` is an error.
  abbrev pub contains : List C → C → Option Bool
  contains [] c = some false
  contains (x ∷ xs) c =
      let rest = contains xs c in
      elim (content.equals x c) [ none ↦ none | some b ↦ if b then some true else rest ]

  calculate_node_hash_lem :
      (n : Node C)
      → IsHashed content hash sort n
      → calculate_node_hash content hash sort n ≡ some (hash_of n)
  unfolding calculate_node_hash
  calculate_node_hash_lem (leaf l) h = h
  calculate_node_hash_lem (branch d l r) h = rw h.0 refl

  check_parent-pair :
      (l r : Node C)
      → IsHashed content hash sort l
      → IsHashed content hash sort r
      → check_parent content hash sort (pair content hash sort l r) ≡ some true
  unfolding check_parent pair same_root join_hash
  check_parent-pair l r hl hr = ground (
    arith,
    calculate_node_hash_lem l hl,
    calculate_node_hash_lem r hr,
    bytes_equal_self (hash (sort_append sort (hash_of l) (hash_of r))),
  )

  IsHashed-pair :
      (l r : Node C)
      → IsHashed content hash sort (pair content hash sort l r)
      → IsHashed content hash sort l × IsHashed content hash sort r
  unfolding pair
  IsHashed-pair l r h = (h.1, h.2)

  check_chain_lem :
      (x : Node C) (ps : List (Node C)) (root : Node C)
      → Climbs content hash sort x ps root
      → IsHashed content hash sort root
      → (check_chain content hash sort ps ≡ some true) × IsHashed content hash sort x
  unfolding check_chain and_then
  check_chain_lem x [] root h k = (refl, subst (IsHashed content hash sort) (sym h) k)
  check_chain_lem x (p ∷ ps) root ((l, r, e, side), up) k =
      let (rest, hashed) = check_chain_lem p ps root up k in
      let (hl, hr) = IsHashed-pair l r (subst (IsHashed content hash sort) e hashed) in
      let ok : check_parent content hash sort p ≡ some true = rw e (check_parent-pair l r hl hr) in
      (
        rw ok rest,
        elim side [
          | inl xl ↦ subst (IsHashed content hash sort) (sym xl) hl
          | inr xr ↦ subst (IsHashed content hash sort) (sym xr) hr
        ],
      )

  -- A search that went through says whether there is a leaf.
  abbrev is_found : Option (Option (ℕ × Leaf C)) → Option Bool
  is_found none = none
  is_found (some none) = some false
  is_found (some (some l)) = some true

  find_leaf-contains :
      (n : ℕ) (cs : List C) (ls : List (Leaf C)) (c : C)
      → new_leafs content hash cs ≡ some ls
      → is_found (find_leaf content hash n ls c) ≡ contains cs c
  unfolding find_leaf new_leafs new_leaf add_leaf
  find_leaf-contains n [] ls c e = ground arith
  find_leaf-contains n (x ∷ xs) ls c e = elim (Option-cases (content.calculate_hash x)) [
    | inl m ↦ ground arith
    | inr (d, m) ↦ elim (Option-cases (new_leafs content hash xs)) [
      | inl q ↦ ground arith
      | inr (ls', q) ↦ ground (arith, find_leaf-contains (suc n) xs ls' c)
    ]
  ]

  -- For a tree that was built over `cs`, `verify_content` answers whether `cs` contains the content:
  -- every chain of parents that it follows is found in order.
  pub verify_content-contains :
      (cs : List C) (t : MerkleTree C) (c : C)
      → new_tree content hash sort cs ≡ some t
      → verify_content content hash t c ≡ contains cs c
  unfolding verify_content
  verify_content-contains cs t c e =
      let g = new_tree-Grown content hash sort cs t e in
      let same = find_leaf-contains 0 cs t.leafs c g.leafed in
      elim (Option-cases (find_leaf content hash 0 t.leafs c)) [
        | inl n ↦ ground arith
        | inr (none, n) ↦ ground arith
        | inr (some (i, l), n) ↦
            let (_, _, up, _) = leaf-Climbs content hash sort cs t c i l e n in
            let chain =
              check_chain_lem (leaf l) (ancestors content hash i t.parents) t.root up
                (root-IsHashed cs t e) in
            ground (arith, chain.0, g.sorted)
      ]
