-- ===== src/Transfers/Laws.antt =====
-- The tables of the chains agree with one another, and what a transfer is given.
use tradeverse_api.Prelude.{
  ℕ, String, Bool, true, false, not, ◌&&◌, ◌||◌, List, [], ◌∷◌, str_eq, leb, ◌==◌, codes, none,
  some, Option, inl, inr, Option-cases, Bool-cases, ◌≡◌, refl, ap, subst, ◌∙◌, eq_iff, arith,
}
use tradeverse_api.Transfers.Indices.{Table, chain_index_map}
use tradeverse_api.Transfers.Tables.{chain_index_to_name_map}
use tradeverse_api.Transfers.Names.{normalized_map}
use tradeverse_api.Transfers.Index.{
  TextLib, lookup, value_or, get_chain_name_by_index, underscored, chain_key, get_chain_index,
}

-- A test that holds of every entry of a table.
all_entries : (String × String → Bool) → Table → Bool
all_entries p [] = true
all_entries p (e ∷ t) = p e && all_entries p t

this_entry :
    (p : String × String → Bool) (x : String × String) (k v : String)
    → p x ≡ true
    → x.0 ≡ k
    → x.1 ≡ v
    → p (k, v) ≡ true
this_entry p x k v h e f = subst (λ a. p (a, v) ≡ true) e (subst (λ b. p (x.0, b) ≡ true) f h)

abbrev is_none : Option String → Bool
is_none none = true
is_none (some s) = false

entry_of :
    (p : String × String → Bool) (t : Table) (k v : String)
    → all_entries p t ≡ true
    → lookup k t ≡ some v
    → p (k, v) ≡ true
unfolding all_entries lookup
entry_of p [] k v a e = ground arith
entry_of p (x ∷ t) k v a e = elim (Bool-cases (str_eq x.0 k)) [
  | inl same ↦ this_entry p x k v (ground arith) ((eq_iff x.0 k).0 same) (ground arith)
  | inr other ↦ entry_of p t k v (ground arith) (ground arith)
]

-- Whether a lookup has found the text.
unfoldable pub finds : String → Option String → Bool
finds s none = false
finds s (some t) = str_eq t s

eq_of_finds : (s : String) (o : Option String) → finds s o ≡ true → o ≡ some s
unfolding finds
eq_of_finds s none e = ground arith
eq_of_finds s (some t) e = ap some ((eq_iff t s).0 e)

-- The second table of `getChainIndex` has only keys that the first one has.
renamed_known : all_entries (λ e. not (is_none (lookup e.0 chain_index_map))) normalized_map ≡ true
unfolding all_entries lookup
renamed_known = refl

-- The second search of `get_chain_index` never finds what the first has not: the index of a chain is
-- what the first table has for its key, or the empty text.
pub get_chain_index_lem :
    (lib : TextLib) (chain : String)
    → get_chain_index lib chain ≡ value_or "" (lookup (chain_key lib chain) chain_index_map)
unfolding get_chain_index
get_chain_index_lem lib chain =
    let key = chain_key lib chain in
    elim (Option-cases (lookup key chain_index_map)) [
      | inr (i, found) ↦ ground arith
      | inl absent ↦ elim (Option-cases (lookup key normalized_map)) [
        | inl unnamed ↦ ground arith
        | inr (v, renamed) ↦ ground (
          arith,
          entry_of (λ e. not (is_none (lookup e.0 chain_index_map))) normalized_map key v
              renamed_known renamed,
        )
      ]
    ]

all_plain : List ℕ → Bool
all_plain [] = true
all_plain (c ∷ cs) =
    ((leb b'A' c && leb c b'Z') || (leb b'0' c && leb c b'9') || c == b'_') && all_plain cs

-- Capitals, digits and underscores alone.
unfoldable pub is_plain : String → Bool
unfolding all_plain
is_plain s = all_plain (codes s)

-- An entry of `chainIndexToNameMap` whose name leads back to its index.
leads_back : Table → String × String → Bool
leads_back t e = is_plain e.1 && str_eq (underscored e.1) e.1 && finds e.0 (lookup e.1 t)

leads_back_parts :
    (t : Table) (index name : String)
    → leads_back t (index, name) ≡ true
    → (is_plain name ≡ true) × (underscored name ≡ name) × (lookup name t ≡ some index)
unfolding leads_back
leads_back_parts t index name e =
    ground (arith, eq_iff (underscored name) name, eq_of_finds index (lookup name t))

all_lead_back : all_entries (leads_back chain_index_map) chain_index_to_name_map ≡ true
unfolding all_entries leads_back is_plain underscored finds lookup
all_lead_back = refl

-- The name that is given to the index of a chain leads back to the index, where trimming and
-- capitalising leave a text of capitals, digits and underscores as it is.
pub get_chain_index-get_chain_name_by_index :
    (lib : TextLib) (index name : String)
    → ((s : String) → is_plain s ≡ true → (lib.trim_space s ≡ s) × (lib.to_upper s ≡ s))
    → lookup index chain_index_to_name_map ≡ some name
    → get_chain_index lib (get_chain_name_by_index index) ≡ index
unfolding get_chain_name_by_index chain_key
get_chain_index-get_chain_name_by_index lib index name caps found =
    let (plain, joined, back) = leads_back_parts chain_index_map index name (
      entry_of (leads_back chain_index_map) chain_index_to_name_map index name all_lead_back
        found) in
    let (trimmed, upper) = caps name plain in
    ap (λ o. get_chain_index lib (value_or index o)) found
    ∙ (get_chain_index_lem lib name
        ∙ (ap (λ s. value_or "" (lookup (underscored s) chain_index_map))
              (ap lib.to_upper trimmed ∙ upper)
            ∙ (ap (λ s. value_or "" (lookup s chain_index_map)) joined ∙ ap (value_or "") back)))
