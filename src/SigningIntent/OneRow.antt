-- ===== src/SigningIntent/OneRow.antt =====
-- A table of at most one row, which has the laws of SigningIntent/Contend, and the theorems on Postgres at
-- concrete rows.
use aljama_wallet.Base.{
  ℕ, ◌≤◌, true, ◌≡◌, refl, ap, ◌∙◌, inl, inr, sym, Option, none, some, Text, text, text_eq, ◌==◌,
  ◌&&◌, Bool-cases, arith, ==_iff, ==_refl, if◌then◌else◌, done,
}
use aljama_wallet.SigningIntent.{queued, Updates, evm, inline, build_record, apply_updates}
use aljama_wallet.SigningIntent.Memory.{mark_submitted}
use aljama_wallet.SigningIntent.Postgres.{
  Row, PayloadState, overwritten, row_intent, build_row_record, build_pg_update_data, parse_family,
  parse_status, pg_update_agrees,
}
use aljama_wallet.SigningIntent.Contend.{
  IntentTable, Laws, HasStatus, Ends, max_attempts, Others, claim_in_pg, claim_in_pg-Ends,
}
use aljama_wallet.SigningIntent.Tests.{payload}

abbrev find_row : Option Row → Text → Option Row
find_row none id = none
find_row (some r) id = if r.id == id then some r else none

abbrev first_row : Option Row → Option Row
first_row none = none
first_row (some r) = if r.status == text "queued" then some r else none

abbrev approve_row : Option Row → Text → ℕ × Option Row
approve_row none id = (0, none)
approve_row (some r) id =
    if r.id == id && r.status == text "queued"
    then (1, some (record r { status = text "approved" }))
    else (0, some r)

abbrev one_row : IntentTable
one_row = record {
  Rows = Option Row;
  find_unique = find_row;
  find_first_queued = first_row;
  approve_if_queued = approve_row;
}

first_is : (x r : Row) → first_row (some x) ≡ some r → (x ≡ r) × (x.status ≡ text "queued")
first_is x r e = elim (Bool-cases (x.status == text "queued")) [
  | inl hit ↦ (ground arith, (==_iff x.status (text "queued")).0 hit)
  | inr miss ↦ absurd (ground arith)
]

found_is : (x r : Row) (id : Text) → find_row (some x) id ≡ some r → (x ≡ r) × (x.id ≡ id)
found_is x r id e = elim (Bool-cases (x.id == id)) [
  | inl hit ↦ (ground arith, (==_iff x.id id).0 hit)
  | inr miss ↦ absurd (ground arith)
]

find_self : (x : Row) → find_row (some x) x.id ≡ some x
find_self x = rw (==_refl x.id) refl

approve_queued :
    (x : Row)
    → x.status ≡ text "queued"
    → approve_row (some x) x.id ≡ (1, some (record x { status = text "approved" }))
approve_queued x e =
    let own = ==_refl x.id in let hit = (==_iff x.status (text "queued")).1 e in rw (own, hit) refl

one_row-Laws : Laws one_row
one_row-Laws = record {
  first_is_queued = first;
  first_is_earliest = earliest;
  approves_queued = approves;
  skips_others = skips;
}
  where
    first :
        (t : Option Row) (r : Row) → first_row t ≡ some r → HasStatus one_row t r.id (text "queued")
    first none r e = cc
    first (some x) r e =
        let (same, status) = first_is x r e in (x, rw (← same) (find_self x), status)

    earliest :
        (t : Option Row) (r q : Row)
        → first_row t ≡ some r
        → find_row t q.id ≡ some q
        → q.status ≡ text "queued"
        → r.created_at ≤ q.created_at
    earliest none r q e f s = cc
    earliest (some x) r q e f s =
        let same : r ≡ q = sym (first_is x r e).0 ∙ (found_is x q q.id f).0 in
        omega (arith, ap (λ z. z.created_at) same)

    approves :
        (t : Option Row) (id : Text)
        → HasStatus one_row t id (text "queued")
        → ((approve_row t id).0 ≡ 1) × HasStatus one_row (approve_row t id).1 id (text "approved")
    approves none id (r, f, s) = cc
    approves (some x) id (r, f, s) =
        let (same, own) = found_is x r id f in
        let status : x.status ≡ text "queued" = ap (λ z. z.status) same ∙ s in
        let done_so = approve_queued x status in
        rw (← own) (
          ap (λ z. z.0) done_so,
          (
            record x { status = text "approved" },
            rw done_so (find_self (record x { status = text "approved" })),
            refl,
          ),
        )

    skips :
        (t : Option Row) (id : Text)
        → ¬ HasStatus one_row t id (text "queued")
        → approve_row t id ≡ (0, t)
    skips none id n = refl
    skips (some x) id n = elim (Bool-cases (x.id == id && x.status == text "queued")) [
      | inl hit ↦
          let own : x.id ≡ id = (==_iff x.id id).0 (ground arith) in
          let status : (x.status == text "queued") ≡ true = ground arith in
          absurd (n (x, rw (← own) (find_self x), (==_iff x.status (text "queued")).0 status))
      | inr miss ↦ rw miss refl
    ]

abbrev row : Row
row = record {
  id = text "r1";
  chain = text "EVM";
  action_type = text "transfer";
  status = text "queued";
  wallet_id = text "wallet-1";
  user_id = none;
  chain_id = 1;
  idempotency_key = text "key-1";
  trace_id = text "trace";
  transfer_log_id = none;
  tx_payload = some payload;
  tx_payload_ref = none;
  tx_payload_size_bytes = some 408;
  signed_payload = none;
  tx_hash = none;
  error_code = none;
  error_details = none;
  created_at = 5;
  updated_at = 5;
}

abbrev sign_row : Option Row → Option Row
sign_row none = none
sign_row (some r) = some (record r { status = text "signed" })

-- Behind the update another process has the row signed.
abbrev signer : Others one_row
signer = record { before_update = λ n t. t; after_update = λ n t. sign_row t }

claim_in_pg-Ends_example :
    Ends one_row signer max_attempts (some row) (claim_in_pg one_row signer (some row))
claim_in_pg-Ends_example = claim_in_pg-Ends one_row one_row-Laws signer (some row)

abbrev payload_state : PayloadState
payload_state = record {
  payload = payload;
  payload_ref = none;
  payload_storage = inline;
  payload_size_bytes = 408;
}

abbrev submission : Updates
submission = mark_submitted none (text "0xcc")

known_chain : parse_family row.chain ≡ done evm
unfolding parse_family
known_chain = refl

known_status : parse_status row.status ≡ done queued
unfolding parse_status
known_status = refl

pg_update_agrees_example :
    build_row_record (overwritten (build_pg_update_data submission) 8 row) payload_state
    ≡ done (
        build_record (apply_updates (row_intent row payload_state evm queued) submission 8) payload)
pg_update_agrees_example =
    pg_update_agrees overwritten (λ d now r. refl) submission 8 row payload_state evm queued
      known_chain known_status
