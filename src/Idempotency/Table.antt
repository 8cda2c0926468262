-- ===== src/Idempotency/Table.antt =====
-- The table in Postgres keeps the promises of the guard, given the laws of its unique rows.
use aljama_wallet.Base.{
  ℕ, ◌+◌, ◌≤◌, ◌≡◌, ◌≢◌, refl, ◌∙◌, inl, inr, true, false, ◌&&◌, Option, none, some, List, [], ◌∷◌,
  arith, leb, Text, text_eq, ==_iff, ==_refl, ◌==◌, or_else, Option-cases, Bool-cases,
  if◌then◌else◌,
}
use aljama_wallet.Idempotency.{
  KeyTable, Reply, cache_key, reserve_in_table, release_in_table, retry_create, replace_expired,
  default_ttl_ms,
}
use aljama_wallet.Idempotency.Guard.{Promises, refused, accepted, Guard}

-- What Prisma documents of `create`, `findUnique` and `delete` on a model with a unique pair.
pub record Laws (t : KeyTable) : Type 0 where
  pub create_free :
      (rows : t.Rows) (scope key : Text) (e : ℕ)
      → t.find rows scope key ≡ none
      → (rows' : t.Rows) × (t.create rows scope key e ≡ some rows')
        × ((scope' key' : Text)
            → t.find rows' scope' key'
              ≡ (if scope == scope' && key == key' then some e else t.find rows scope' key'))
  pub create_taken :
      (rows : t.Rows) (scope key : Text) (e x : ℕ)
      → t.find rows scope key ≡ some x
      → t.create rows scope key e ≡ none
  pub find-delete :
      (rows : t.Rows) (scope key scope' key' : Text)
      → t.find (t.delete rows scope key) scope' key'
        ≡ (if scope == scope' && key == key' then none else t.find rows scope' key')

pair_ne :
    (scope key scope' key' : Text)
    → cache_key scope key ≢ cache_key scope' key'
    → (scope == scope' && key == key') ≡ false
pair_ne scope key scope' key' h = elim (Bool-cases (scope == scope' && key == key')) [
  | inr e ↦ e
  | inl e ↦
      let s : scope ≡ scope' = ground (arith, ==_iff scope scope', ==_iff key key') in
      let k : key ≡ key' = ground (arith, ==_iff scope scope', ==_iff key key') in absurd (h (cc))
]

pair_refl : (scope key : Text) → (scope == scope && key == key) ≡ true
pair_refl scope key = simp ==_refl

module _ (t : KeyTable) (laws : Laws t) (rows : t.Rows) (scope key : Text) (ttl : Option ℕ)
    (started checked : ℕ) where
  abbrev expires : ℕ
  expires = started + or_else ttl default_ttl_ms

  abbrev Kept : Reply × t.Rows → Type 0
  Kept r = Promises t.find rows scope key checked expires r

  created_free :
      t.find rows scope key ≡ none → Kept (reserve_in_table t rows scope key ttl started checked)
  unfolding reserve_in_table
  created_free free =
      let (rows', made, found) = laws.create_free rows scope key expires free in
      rw (made, reserve_in_table)
        (accepted (rw free refl) refl (found scope key ∙ (simp pair_refl))
          λ scope' key' other. found scope' key' ∙ (simp (pair_ne scope key scope' key' other)))

  replaced :
      (e : ℕ)
      → t.find rows scope key ≡ some e
      → e ≤ checked
      → Kept (reserve_in_table t rows scope key ttl started checked)
  unfolding reserve_in_table replace_expired retry_create
  replaced e found old =
      let gone : t.find (t.delete rows scope key) scope key ≡ none =
        laws.find-delete rows scope key scope key ∙ (simp pair_refl) in
      let (rows', made, found') =
        laws.create_free (t.delete rows scope key) scope key expires gone in
      let due : leb e checked ≡ true = ground arith in
      rw
        (
          laws.create_taken rows scope key expires e found,
          reserve_in_table,
          found,
          replace_expired,
          due,
          made,
          retry_create,
        )
        (accepted (rw found (ground arith)) refl (found' scope key ∙ (simp pair_refl))
          λ scope' key' other.
            found' scope' key'
            ∙ (simp (pair_ne scope key scope' key' other))
            ∙ laws.find-delete rows scope key scope' key'
            ∙ (simp (pair_ne scope key scope' key' other)))

  -- Over rows with the laws of a unique key, a reservation in Postgres is refused exactly while the
  -- key's row is live, changing nothing; otherwise the key is live until its time to live is over, and
  -- no other key is touched.
  pub reserve_in_table-Promises : Kept (reserve_in_table t rows scope key ttl started checked)
  unfolding reserve_in_table replace_expired
  reserve_in_table-Promises = elim (Option-cases (t.find rows scope key)) [
    | inl free ↦ created_free free
    | inr (e, found) ↦ elim (Bool-cases (leb e checked)) [
      | inl due ↦ replaced e found (ground arith)
      | inr live ↦ refused e found (ground arith) (
          rw (
            laws.create_taken rows scope key expires e found,
            reserve_in_table,
            found,
            replace_expired,
            live,
          ))
    ]
  ]

pub release_in_table_other :
    (t : KeyTable) (laws : Laws t) (rows : t.Rows) (scope key scope' key' : Text)
    → cache_key scope key ≢ cache_key scope' key'
    → t.find (release_in_table t rows scope key) scope' key' ≡ t.find rows scope' key'
unfolding release_in_table
release_in_table_other t laws rows scope key scope' key' other =
    laws.find-delete rows scope key scope' key' ∙ (simp (pair_ne scope key scope' key' other))

abbrev pub table_guard : (t : KeyTable) → Laws t → Guard
table_guard t laws = record {
  State = t.Rows;
  expiry = t.find;
  reserve =
      λ rows scope key ttl checked started. reserve_in_table t rows scope key ttl started checked;
  release = release_in_table t;
  reserve_promises = λ rows scope key ttl checked started.
      reserve_in_table-Promises t laws rows scope key ttl started checked;
  release_other = release_in_table_other t laws;
}

-- A list of rows with the documented laws.
abbrev pub Row : Type 0
Row = Text × Text × ℕ

unfoldable pub list_find : List Row → Text → Text → Option ℕ
list_find [] scope key = none
list_find ((s, k, e) ∷ rows) scope key =
    if s == scope && k == key then some e else list_find rows scope key

unfoldable pub list_create : List Row → Text → Text → ℕ → Option (List Row)
list_create rows scope key e = elim (list_find rows scope key) [
  | none ↦ some ((scope, key, e) ∷ rows)
  | some _ ↦ none
]

unfoldable pub list_delete : List Row → Text → Text → List Row
list_delete [] scope key = []
list_delete ((s, k, e) ∷ rows) scope key =
    let rest = list_delete rows scope key in
    if s == scope && k == key then rest else (s, k, e) ∷ rest

abbrev pub list_table : KeyTable
list_table = record {
  Rows = List Row;
  find = list_find;
  create = list_create;
  delete = list_delete;
}

list_find-delete :
    (rows : List Row) (scope key scope' key' : Text)
    → list_find (list_delete rows scope key) scope' key'
      ≡ (if scope == scope' && key == key' then none else list_find rows scope' key')
unfolding list_find list_delete
list_find-delete [] scope key scope' key' = ground arith
list_find-delete ((s, k, e) ∷ rows) scope key scope' key' = ground (
  arith,
  list_find-delete rows scope key scope' key',
  ==_iff s scope,
  ==_iff k key,
  ==_iff s scope',
  ==_iff k key',
  ==_iff scope scope',
  ==_iff key key',
)

pub list_table-Laws : Laws list_table
unfolding list_create list_find
list_table-Laws = record {
  create_free = λ rows scope key e free.
      ((scope, key, e) ∷ rows, rw (free, list_create), λ scope' key'. refl);
  create_taken = λ rows scope key e x found. rw (found, list_create);
  find-delete = list_find-delete;
}
