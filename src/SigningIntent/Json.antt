-- ===== src/SigningIntent/Json.antt =====
-- Payloads of services/signing-intent.service.ts as JSON: what `JSON.stringify` writes, with null for an
-- optional field that is not given, and what evmTransactionSigningIntentPayloadSchema makes of a value.
use aljama_wallet.Base.{
  ℕ, true, Option, none, some, List, [], ◌∷◌, ◌==◌, ◌≡◌, refl, if◌then◌else◌, Text, text, text_eq,
  find, Outcome, done, thrown, and_then,
}
use aljama_wallet.Chain.{TxType, tx_type_name}
use aljama_wallet.SigningIntent.{Payload, Transaction, is_payload, parse_payload, invalid_payload}

-- A value of `JSON.parse`; what no payload has is `other`.
mutual
  pub data Json : Type 0 where
    null other : Json
    number : ℕ → Json
    string : Text → Json
    object : Fields → Json

  pub data Fields : Type 0 where
    no_fields : Fields
    field : Text → Json → Fields → Fields

unfoldable pub field_of : Text → Fields → Option Json
field_of name no_fields = none
field_of name (field key value fields) = if key == name then some value else field_of name fields

abbrev text_or_null : Option Text → Json
text_or_null none = null
text_or_null (some t) = string t

abbrev number_or_null : Option ℕ → Json
number_or_null none = null
number_or_null (some n) = number n

unfoldable pub transaction_fields : Transaction → Fields
transaction_fields t =
    (field (text "to") (string t.to) (
      field (text "value") (text_or_null t.value) (
        field (text "nonce") (number_or_null t.nonce) (
          field (text "gasLimit") (text_or_null t.gas_limit) (
            field (text "gasPrice") (text_or_null t.gas_price) (
              field (text "maxFeePerGas") (text_or_null t.max_fee_per_gas) (
                field (text "maxPriorityFeePerGas") (text_or_null t.max_priority_fee_per_gas)
                  (field (text "data") (text_or_null t.tx_data) no_fields))))))))

unfoldable pub payload_fields : Payload → Fields
payload_fields p =
    (field (text "kind") (string (text "evm-transaction")) (
      field (text "walletId") (string p.wallet_id) (
        field (text "chainId") (number p.chain_id) (
          field (text "nonceReservationId") (text_or_null p.nonce_reservation_id) (
            field (text "fromAddress") (string p.from_address) (
              field (text "toAddress") (string p.to_address) (
                field (text "amountWei") (string p.amount_wei) (
                  field (text "txType") (string (tx_type_name p.tx_type)) (
                    field (text "data") (text_or_null p.tx_data) (
                      field (text "transferLogId") (text_or_null p.transfer_log_id) (
                        field (text "transaction") (object (transaction_fields p.transaction))
                          no_fields)))))))))))

abbrev pub payload_json : Payload → Json
payload_json p = object (payload_fields p)

-- `z.string()`, `z.number().int().nonnegative()` and these `.optional().nullable()`
abbrev read_text : Option Json → Outcome Text
read_text (some (string t)) = done t
read_text _ = thrown invalid_payload

abbrev read_number : Option Json → Outcome ℕ
read_number (some (number n)) = done n
read_number _ = thrown invalid_payload

abbrev read_optional_text : Option Json → Outcome (Option Text)
read_optional_text none = done none
read_optional_text (some null) = done none
read_optional_text (some (string t)) = done (some t)
read_optional_text _ = thrown invalid_payload

abbrev read_optional_number : Option Json → Outcome (Option ℕ)
read_optional_number none = done none
read_optional_number (some null) = done none
read_optional_number (some (number n)) = done (some n)
read_optional_number _ = thrown invalid_payload

abbrev read_fields : Option Json → Outcome Fields
read_fields (some (object fields)) = done fields
read_fields _ = thrown invalid_payload

-- `CHAIN_TRANSACTION_TYPES`
abbrev tx_types : List TxType
tx_types =
    TxType.transfer ∷ TxType.contract_call ∷ TxType.token_transfer ∷ TxType.approval
    ∷ TxType.account_set ∷ TxType.trustline_set ∷ TxType.nft_mint ∷ TxType.offer_create
    ∷ TxType.offer_cancel ∷ TxType.nft_offer_create ∷ TxType.nft_offer_cancel
    ∷ TxType.nft_offer_accept ∷ []

unfoldable pub tx_type_of : Text → Outcome TxType
tx_type_of t = elim (find (λ x. tx_type_name x == t) tx_types) [
  | none ↦ thrown invalid_payload
  | some x ↦ done x
]

unfoldable pub read_transaction : Fields → Outcome Transaction
read_transaction fs = and_then (read_text (field_of (text "to") fs)) λ to.
    and_then (read_optional_text (field_of (text "value") fs)) λ value.
      and_then (read_optional_number (field_of (text "nonce") fs)) λ nonce.
        and_then (read_optional_text (field_of (text "gasLimit") fs)) λ gas_limit.
          and_then (read_optional_text (field_of (text "gasPrice") fs)) λ gas_price.
            and_then (read_optional_text (field_of (text "maxFeePerGas") fs)) λ max_fee.
              and_then (read_optional_text (field_of (text "maxPriorityFeePerGas") fs))
                λ max_priority. and_then (read_optional_text (field_of (text "data") fs)) λ tx_data.
                  done (record {
                    to = to;
                    value = value;
                    nonce = nonce;
                    gas_limit = gas_limit;
                    gas_price = gas_price;
                    max_fee_per_gas = max_fee;
                    max_priority_fee_per_gas = max_priority;
                    tx_data = tx_data;
                  })

unfoldable pub read_payload_fields : Fields → Transaction → Outcome Payload
read_payload_fields fs t = and_then (read_text (field_of (text "walletId") fs)) λ wallet_id.
    and_then (read_number (field_of (text "chainId") fs)) λ chain_id.
      and_then (read_optional_text (field_of (text "nonceReservationId") fs)) λ reservation.
        and_then (read_text (field_of (text "fromAddress") fs)) λ from_address.
          and_then (read_text (field_of (text "toAddress") fs)) λ to_address.
            and_then (read_text (field_of (text "amountWei") fs)) λ amount_wei.
              and_then (read_text (field_of (text "txType") fs)) λ type_name.
                and_then (tx_type_of type_name) λ tx_type.
                  and_then (read_optional_text (field_of (text "data") fs)) λ tx_data.
                    and_then (read_optional_text (field_of (text "transferLogId") fs))
                      λ transfer_log_id. done (record {
                        wallet_id = wallet_id;
                        chain_id = chain_id;
                        nonce_reservation_id = reservation;
                        from_address = from_address;
                        to_address = to_address;
                        amount_wei = amount_wei;
                        tx_type = tx_type;
                        tx_data = tx_data;
                        transfer_log_id = transfer_log_id;
                        transaction = t;
                      })

abbrev check_kind : Text → Outcome (Unit {0})
check_kind kind = if kind == text "evm-transaction" then done tt else thrown invalid_payload

-- `parseWalletSigningIntentPayload` of a value: the types of its fields, then their conditions.
unfoldable pub parse_json : Json → Outcome Payload
parse_json j = and_then (read_fields (some j)) λ fs.
    and_then (read_text (field_of (text "kind") fs)) λ kind. and_then (check_kind kind) λ _.
      and_then (read_fields (field_of (text "transaction") fs)) λ ts.
        and_then (read_transaction ts) λ t. and_then (read_payload_fields fs t) λ p. parse_payload p

optional_text_back : (o : Option Text) → read_optional_text (some (text_or_null o)) ≡ done o
optional_text_back none = refl
optional_text_back (some t) = refl

optional_number_back : (o : Option ℕ) → read_optional_number (some (number_or_null o)) ≡ done o
optional_number_back none = refl
optional_number_back (some n) = refl

tx_type_back : (x : TxType) → tx_type_of (tx_type_name x) ≡ done x
unfolding tx_type_of tx_type_name
tx_type_back TxType.transfer = refl
tx_type_back TxType.contract_call = refl
tx_type_back TxType.token_transfer = refl
tx_type_back TxType.approval = refl
tx_type_back TxType.account_set = refl
tx_type_back TxType.trustline_set = refl
tx_type_back TxType.nft_mint = refl
tx_type_back TxType.offer_create = refl
tx_type_back TxType.offer_cancel = refl
tx_type_back TxType.nft_offer_create = refl
tx_type_back TxType.nft_offer_cancel = refl
tx_type_back TxType.nft_offer_accept = refl

transaction_back : (t : Transaction) → read_transaction (transaction_fields t) ≡ done t
unfolding read_transaction transaction_fields field_of
transaction_back t = simp (
  optional_text_back t.value,
  optional_number_back t.nonce,
  optional_text_back t.gas_limit,
  optional_text_back t.gas_price,
  optional_text_back t.max_fee_per_gas,
  optional_text_back t.max_priority_fee_per_gas,
  optional_text_back t.tx_data,
)

fields_back : (p : Payload) → read_payload_fields (payload_fields p) p.transaction ≡ done p
unfolding read_payload_fields payload_fields field_of
fields_back p = simp (
  optional_text_back p.nonce_reservation_id,
  tx_type_back p.tx_type,
  optional_text_back p.tx_data,
  optional_text_back p.transfer_log_id,
)

-- A payload that the schema accepts is read back from what is written of it.
pub parse-payload_json : (p : Payload) → is_payload p ≡ true → parse_json (payload_json p) ≡ done p
unfolding parse_json payload_fields field_of parse_payload
parse-payload_json p valid = rw (transaction_back p.transaction, fields_back p, valid) refl
