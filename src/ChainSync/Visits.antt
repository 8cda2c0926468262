-- ===== src/ChainSync/Visits.antt =====
-- What a pass over the rows of all networks does to the status of each.
use aljama_wallet.Base.{
  ℕ, true, ◌≡◌, refl, ap, sym, subst, ◌∙◌, inl, inr, some, List, [], ◌∷◌, ◌++◌, Text, text_eq, ◌==◌,
  ==_iff, Option-cases, Bool-cases, or_else, arith, All, All-append, All-filter, All-map, take,
  sort_by-All, zero, suc,
}
use aljama_wallet.Base.Map
use aljama_wallet.Base.Map.{Map}
use aljama_wallet.ChainSync.{Key, key_eq, World, Transaction}
use aljama_wallet.ChainSync.Row.{sync_row}
use aljama_wallet.ChainSync.Stands.{Has}
use aljama_wallet.ChainSync.Moves.{Moves, sync_row-Left}
use aljama_wallet.ChainSync.Pass.{
  Query, Columns, Network, Row, parse_network_chain_id, asked_for, pass_size, rows_to_sync,
  rows_by_network, Counts, count_row, no_counts, sync_rows, sync_network, sync_networks,
  sync_recent,
}

-- The status that a pass can leave a row with.
pub data Visited (net : Network) (q : Query) (c : Columns) (now : ℕ) (key : Key) (row : Transaction)
    : Text → Type 0 where
  left_out : Visited net q c now key row row.status
  synced :
      {chain_id head : ℕ} {s : Text}
      → asked_for q c (key, row) ≡ true
      → parse_network_chain_id net key.network_id ≡ some chain_id
      → net.head_of chain_id ≡ some head
      → Moves (net.node key) row head now s
      → Visited net q c now key row s

-- Every row is the one that its key finds: no key stands twice.
abbrev pub IsUnique : Map Key Transaction → Type 0
IsUnique m = All (λ r. Map.get m r.0 ≡ some r.1) m

module _ (Q : Text × List Row → Type 0) where
  set-All :
      (groups : Map Text (List Row)) (id : Text) (rows : List Row)
      → All Q groups
      → Q (id, rows)
      → All Q (Map.set groups id rows)
  unfolding Map.set
  set-All [] id rows h q = (q, tt)
  set-All ((i, old) ∷ groups) id rows (p, h) q = elim (Bool-cases (i == id)) [
    | inl here ↦
        let same : i ≡ id = (==_iff i id).0 here in
        rw here (subst (λ z. Q (z, rows)) (sym same) q, h)
    | inr apart ↦ rw apart (p, set-All groups id rows h q)
  ]

  get-All :
      (groups : Map Text (List Row)) (id : Text) (rows : List Row)
      → All Q groups
      → Map.get groups id ≡ some rows
      → Q (id, rows)
  unfolding Map.get
  get-All [] id rows h e = cc
  get-All ((i, old) ∷ groups) id rows (p, h) e = elim (Bool-cases (i == id)) [
    | inl here ↦
        let same : i ≡ id = (==_iff i id).0 here in
        let given : old ≡ rows = ground arith in
        subst Q (ap (λ z. (z, rows)) same) (subst (λ z. Q (i, z)) given p)
    | inr apart ↦ get-All groups id rows h (rw apart at e)
  ]

module _ (R : Text → Row → Type 0) where
  abbrev Grouped : Map Text (List Row) → Type 0
  Grouped groups = All (λ g. All (R g.0) g.1) groups

  -- The rows of a group are rows of the list, each of the group's network.
  rows_by_network-Grouped :
      (rows : List Row) (groups : Map Text (List Row))
      → All (λ r. R r.0.network_id r) rows
      → Grouped groups
      → Grouped (rows_by_network rows groups)
  unfolding rows_by_network
  rows_by_network-Grouped [] groups h g = g
  rows_by_network-Grouped ((key, row) ∷ rows) groups (r, h) g =
      let id = key.network_id in
      let old = or_else (Map.get groups id) [] in
      let found : All (R id) old = elim (Option-cases (Map.get groups id)) [
        | inl e ↦ rw e tt
        | inr (xs, e) ↦ rw e (get-All (λ x. All (R x.0) x.1) groups id xs g e)
      ] in
      rows_by_network-Grouped rows (Map.set groups id (old ++ ((key, row) ∷ []))) h (
        set-All (λ x. All (R x.0) x.1) groups id (old ++ ((key, row) ∷ [])) g
          (All-append (R id) old ((key, row) ∷ []) found (r, tt)))

take-All : (P : Row → Type 0) (n : ℕ) (rows : List Row) → All P rows → All P (take n rows)
take-All P zero rows h = tt
take-All P (suc n) [] h = tt
take-All P (suc n) (r ∷ rows) (p, h) = (p, take-All P n rows h)

module _ (net : Network) (q : Query) (columns : Key → Columns) (now : ℕ)
    (m : Map Key Transaction) where
  -- Every row of the table before the pass has been left so by now.
  abbrev Holds : World → Type 0
  Holds w =
      (key : Key) (row : Transaction)
      → Map.get m key ≡ some row
      → Has (Visited net q (columns key) now key row) key w.transactions

  -- A row of the pass that belongs to a network.
  abbrev Selected : Text → Row → Type 0
  Selected id (key, row) =
      (key.network_id ≡ id)
      × (Map.get m key ≡ some row)
      × (asked_for q (columns key) (key, row) ≡ true)

  sync_row-Holds :
      (key : Key) (row : Transaction) (head : ℕ) (w : World)
      → Map.get m key ≡ some row
      → ((s : Text)
          → Moves (net.node key) row head now s
          → Visited net q (columns key) now key row s)
      → Holds w
      → Holds (sync_row (net.node key) w key row head now).1
  sync_row-Holds key row head w here into holds =
      let after = (sync_row (net.node key) w key row head now).1.transactions in
      let (has, elsewhere) =
        sync_row-Left (net.node key) key row head now w.transactions
          (Visited net q (columns key) now key row) into w (holds key row here, λ j apart. refl) in
      λ other u there. elim (Bool-cases (key == other)) [
        | inl same ↦
            let e : key ≡ other = (==_iff key other).0 same in
            let e' : row ≡ u = ground (arith, here, there, ap (Map.get m) e) in
            subst (λ z. Has (Visited net q (columns other) now other z) other after) e'
              (subst (λ z. Has (Visited net q (columns z) now z row) z after) e has)
        | inr apart ↦
            let (t, found, p) = holds other u there in (t, elsewhere other apart ∙ found, p)
      ]

  sync_rows-Holds :
      (id : Text) (chain_id head : ℕ) (rows : List Row) (c : Counts) (w : World)
      → parse_network_chain_id net id ≡ some chain_id
      → net.head_of chain_id ≡ some head
      → All (Selected id) rows
      → Holds w
      → Holds (sync_rows net head now rows c w).1
  unfolding sync_rows
  sync_rows-Holds id chain_id head [] c w known reached sel holds = holds
  sync_rows-Holds id chain_id head ((key, row) ∷ rows) c w known reached ((at, here, asked), sel)
        holds =
      let x = sync_row (net.node key) w key row head now in
      sync_rows-Holds id chain_id head rows (count_row x.0 c) x.1 known reached sel (
        sync_row-Holds key row head w here
          (λ s moves. synced asked (ap (parse_network_chain_id net) at ∙ known) reached moves)
          holds)

  sync_network-Holds :
      (id : Text) (rows : List Row) (c : Counts) (w : World)
      → All (Selected id) rows
      → Holds w
      → Holds (sync_network net now id rows c w).1
  unfolding sync_network
  sync_network-Holds id rows c w sel holds = elim (Option-cases (parse_network_chain_id net id)) [
    | inl unknown ↦ rw (unknown, sync_network) holds
    | inr (chain_id, known) ↦ elim (Option-cases (net.head_of chain_id)) [
      | inl down ↦ rw (known, down, sync_network) holds
      | inr (head, reached) ↦
          rw (known, reached, sync_network)
            (sync_rows-Holds id chain_id head rows c w known reached sel holds)
    ]
  ]

  sync_networks-Holds :
      (groups : Map Text (List Row)) (c : Counts) (w : World)
      → Grouped Selected groups
      → Holds w
      → Holds (sync_networks net now groups c w).1
  unfolding sync_networks
  sync_networks-Holds [] c w sel holds = holds
  sync_networks-Holds ((id, rows) ∷ groups) c w (here, sel) holds =
      let x = sync_network net now id rows c w in
      sync_networks-Holds groups x.0 x.1 sel (sync_network-Holds id rows c w here holds)

  selected : IsUnique m → All (λ r. Selected r.0.network_id r) (rows_to_sync q columns m)
  unfolding rows_to_sync
  selected unique =
      let asked =
        All-filter (λ r. Map.get m r.0 ≡ some r.1) (λ r. asked_for q (columns r.0) r) m unique in
      take-All (λ r. Selected r.0.network_id r) (pass_size q.limit) _
        ((sort_by-All (λ r. Selected r.0.network_id r) (λ r. (columns r.0).updated_at) _).0
          (All-map (λ r (here, hit). (refl, here, hit)) _ asked))

-- Where no key stands twice in the table, a pass leaves a row with the status that it had, unless the
-- query asks for the row and the row's network can be reached: then with one that a synchronisation of
-- the row at the head of its network can give. No row goes.
pub sync_recent-Visited :
    (net : Network) (q : Query) (columns : Key → Columns) (now : ℕ) (w : World) (key : Key)
    (row : Transaction)
    → IsUnique w.transactions
    → Map.get w.transactions key ≡ some row
    → Has
        (Visited net q (columns key) now key row)
        key
        (sync_recent net q columns now w).1.transactions
unfolding sync_recent
sync_recent-Visited net q columns now w key row unique here =
    let m = w.transactions in
    sync_networks-Holds net q columns now m (rows_by_network (rows_to_sync q columns m) [])
      no_counts w
      (rows_by_network-Grouped (Selected net q columns now m) (rows_to_sync q columns m) []
        (selected net q columns now m unique) tt)
      (λ k t e. (t, e, left_out)) key row here
