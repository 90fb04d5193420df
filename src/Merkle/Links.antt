-- ===== src/Merkle/Links.antt =====
-- How the nodes of a tree that tools/merkletree.go has built hang together.
use tradeverse_api.Prelude.{
  ℕ, zero, suc, ◌/◌, ◌+◌, ◌≤◌, ◌<◌, Bool, List, [], ◌∷◌, ◌≡◌, ◌⊎◌, inl, inr, refl, Option, none,
  some, length, arith,
}
use tradeverse_api.Merkle.{
  Bytes, TreeContent, Node, branch, leaf, hash_of, pair, next_level, stack, build_intermediate,
  ancestors, chain_from, get_elem?, sort_append,
}

module _ {C : Type 0} (content : TreeContent C) (hash : Bytes → Bytes) (sort : Bool) where
  -- Each node of the chain is the pair of the one below with another, and the last is the root.
  abbrev pub Climbs : Node C → List (Node C) → Node C → Type 0
  Climbs x [] root = x ≡ root
  Climbs x (p ∷ ps) root =
      ((l : Node C) × (r : Node C) × (p ≡ pair content hash sort l r) × ((x ≡ l) ⊎ (x ≡ r)))
      × Climbs p ps root

  -- The parent of a node on the next level.
  Parent : Node C → Option (Node C) → Type 0
  Parent x none = ⊥
  Parent x (some p) =
      (l : Node C) × (r : Node C) × (p ≡ pair content hash sort l r) × ((x ≡ l) ⊎ (x ≡ r))

  next_level-Parent :
      (nl : List (Node C)) (i : ℕ) (x : Node C)
      → get_elem? nl i ≡ some x
      → Parent x (get_elem? (next_level content hash sort nl) (i / 2))
  unfolding next_level Parent
  next_level-Parent [] i x e = ground arith
  next_level-Parent (a ∷ []) zero x e = (a, a, refl, inl (ground arith))
  next_level-Parent (a ∷ []) (suc i) x e = ground arith
  next_level-Parent (a ∷ b ∷ r) zero x e = (a, b, refl, inl (ground arith))
  next_level-Parent (a ∷ b ∷ r) (suc zero) x e = (a, b, refl, inr (ground arith))
  next_level-Parent (a ∷ b ∷ r) (suc (suc i)) x e =
      let half : suc (suc i) / 2 ≡ suc (i / 2) = omega arith in rw half (next_level-Parent r i x e)

  length-next_level :
      (nl : List (Node C)) → length (next_level content hash sort nl) ≡ (length nl + 1) / 2
  unfolding next_level
  length-next_level [] = omega arith
  length-next_level (a ∷ []) = omega arith
  length-next_level (a ∷ b ∷ r) = omega (arith, length-next_level r)

  -- The levels above one, with the root at the top.
  abbrev pub Rises : List (Node C) → Option (Node C × List (List (Node C))) → Type 0
  Rises nl none = ⊥
  Rises nl (some (root, levels)) =
      (i : ℕ) (x : Node C)
      → get_elem? nl i ≡ some x
      → Climbs x (ancestors content hash i levels) root

  chain_from-Climbs :
      (o : Option (Node C)) (above : List (Node C)) (x root : Node C)
      → Parent x o
      → ((p : Node C) → o ≡ some p → Climbs p above root)
      → Climbs x (chain_from content hash o above) root
  unfolding chain_from Parent
  chain_from-Climbs none above x root h k = absurd h
  chain_from-Climbs (some p) above x root h k = (h, k p refl)

  get_elem?-only : (n p : Node C) (k : ℕ) → get_elem? (n ∷ []) k ≡ some p → p ≡ n
  get_elem?-only n p zero e = ground arith
  get_elem?-only n p (suc k) e = ground arith

  stack-Rises :
      (nl nodes : List (Node C)) (above : Option (Node C × List (List (Node C))))
      → ((i : ℕ) (x : Node C) → get_elem? nl i ≡ some x → Parent x (get_elem? nodes (i / 2)))
      → 0 < length nodes
      → (1 < length nodes → Rises nodes above)
      → Rises nl (stack content hash nodes above)
  unfolding stack ancestors
  stack-Rises nl [] above up pos r = absurd (omega arith)
  stack-Rises nl (n ∷ []) above up pos r = λ i x e.
      chain_from-Climbs (get_elem? (n ∷ []) (i / 2)) [] x n (up i x e)
        λ p e'. get_elem?-only n p (i / 2) e'
  stack-Rises nl (n ∷ m ∷ ns) none up pos r = absurd (r (omega arith))
  stack-Rises nl (n ∷ m ∷ ns) (some (root, levels)) up pos r = λ i x e.
      chain_from-Climbs (get_elem? (n ∷ m ∷ ns) (i / 2)) (ancestors content hash (i / 2) levels) x
        root (up i x e) λ p e'. r (omega arith) (i / 2) p e'

  -- As many rounds as there are nodes are enough, and every node's chain leads to the root.
  pub build_intermediate-Rises :
      (fuel : ℕ) (nl : List (Node C))
      → 0 < length nl
      → length nl ≤ fuel
      → Rises nl (build_intermediate content hash fuel sort nl)
  unfolding build_intermediate
  build_intermediate-Rises zero nl pos le = absurd (omega arith)
  build_intermediate-Rises (suc fuel) nl pos le =
      let nodes = next_level content hash sort nl in
      stack-Rises nl nodes (build_intermediate content hash fuel sort nodes) (next_level-Parent nl)
        (omega (arith, length-next_level nl))
        λ more.
          build_intermediate-Rises fuel nodes (omega arith) (omega (arith, length-next_level nl))

  -- The hash of a branch is that of its children, and a leaf's that of its content.
  abbrev pub IsHashed : Node C → Type 0
  IsHashed (leaf l) = content.calculate_hash l.content ≡ some l.digest
  IsHashed (branch h l r) =
      (h ≡ hash (sort_append sort (hash_of l) (hash_of r))) × IsHashed l × IsHashed r

  abbrev pub AllHashed : List (Node C) → Type 0
  AllHashed [] = Unit
  AllHashed (n ∷ ns) = IsHashed n × AllHashed ns

  next_level-AllHashed :
      (nl : List (Node C)) → AllHashed nl → AllHashed (next_level content hash sort nl)
  unfolding next_level pair
  next_level-AllHashed [] h = tt
  next_level-AllHashed (x ∷ []) h = ((refl, h.0, h.0), tt)
  next_level-AllHashed (x ∷ y ∷ r) h = ((refl, h.0, h.1.0), next_level-AllHashed r h.1.1)

  abbrev pub RootHashed : Option (Node C × List (List (Node C))) → Type 0
  RootHashed none = Unit
  RootHashed (some (root, levels)) = IsHashed root

  stack-RootHashed :
      (nodes : List (Node C)) (above : Option (Node C × List (List (Node C))))
      → AllHashed nodes
      → RootHashed above
      → RootHashed (stack content hash nodes above)
  unfolding stack
  stack-RootHashed [] none h r = tt
  stack-RootHashed [] (some a) h r = r
  stack-RootHashed (n ∷ []) above h r = h.0
  stack-RootHashed (n ∷ m ∷ ns) none h r = tt
  stack-RootHashed (n ∷ m ∷ ns) (some a) h r = r

  pub build_intermediate-RootHashed :
      (fuel : ℕ) (nl : List (Node C))
      → AllHashed nl
      → RootHashed (build_intermediate content hash fuel sort nl)
  unfolding build_intermediate
  build_intermediate-RootHashed zero nl h = tt
  build_intermediate-RootHashed (suc fuel) nl h =
      let nodes = next_level content hash sort nl in
      let hn = next_level-AllHashed nl h in
      stack-RootHashed nodes (build_intermediate content hash fuel sort nodes) hn
        (build_intermediate-RootHashed fuel nodes hn)
