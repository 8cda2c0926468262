-- ===== src/Chain.antt =====
-- lib/chain-transactions.ts: the statuses of chain transactions and transfers, the normalisation
-- of what other systems call them, and the finality of an EVM transaction.
pub mod Depth
pub mod Vocabulary
mod Tests
use aljama_wallet.Base.{
  ℕ, ◌+◌, ◌-◌, max, Bool, Option, none, some, List, [], ◌∷◌, leb, if◌then◌else◌, Text, text, switch,
  Number, int, frac, not_finite, pos, negsuc,
}

pub data ChainStatus : Type 0 where
  submitted included confirmed_soft confirmed_final reorged failed replaced dropped : ChainStatus

pub data TransferStatus : Type 0 where
  created pending_broadcast submitted included confirmed_soft confirmed_final reorged failed
        replaced dropped denied review :
      TransferStatus

pub data TxType : Type 0 where
  transfer contract_call token_transfer approval account_set trustline_set nft_mint offer_create
        offer_cancel nft_offer_create nft_offer_cancel nft_offer_accept :
      TxType

abbrev pub syncable : List ChainStatus
syncable =
    ChainStatus.submitted ∷ ChainStatus.included ∷ ChainStatus.confirmed_soft
    ∷ ChainStatus.confirmed_final ∷ ChainStatus.reorged ∷ []

-- `EVM_FINALITY_FINAL_CONFIRMATIONS`
abbrev pub final_confirmations : ℕ
final_confirmations = 12

pub record Finality : Type 0 where
  pub status : ChainStatus
  pub confirmation_count : ℕ

abbrev unknown_block : Finality
unknown_block = record { status = ChainStatus.included; confirmation_count = 1 }

-- The ladder over the count of confirmations.
finality_of_count : ℕ → Finality
finality_of_count n =
    if leb final_confirmations n
    then record { status = ChainStatus.confirmed_final; confirmation_count = n }
    else if leb 2 n
    then record { status = ChainStatus.confirmed_soft; confirmation_count = n }
    else record { status = ChainStatus.included; confirmation_count = n }

-- `Math.max(1, current - included + 1)`, where a difference below zero counts as zero.
unfoldable pub finality : ℕ → Option Number → Finality
unfolding finality_of_count
finality current none = unknown_block
finality current (some not_finite) = unknown_block
finality current (some (frac _)) = unknown_block
finality current (some (int (negsuc _))) = unknown_block
finality current (some (int (pos b))) = finality_of_count (max 1 (current + 1 - b))

abbrev pub chain_status_cases : List (List Text × ChainStatus)
chain_status_cases =
    (
      text "broadcast" ∷ text "broadcasted" ∷ text "submitted" ∷ text "pending" ∷ [],
      ChainStatus.submitted,
    )
    ∷ (text "included" ∷ [], ChainStatus.included)
    ∷ (text "confirmed" ∷ [], ChainStatus.confirmed_soft)
    ∷ (text "settled" ∷ text "validated" ∷ [], ChainStatus.confirmed_final)
    ∷ (text "confirmed_soft" ∷ [], ChainStatus.confirmed_soft)
    ∷ (text "confirmed_final" ∷ [], ChainStatus.confirmed_final)
    ∷ (text "reorged" ∷ [], ChainStatus.reorged)
    ∷ (text "failed" ∷ [], ChainStatus.failed)
    ∷ (text "replaced" ∷ [], ChainStatus.replaced)
    ∷ (text "dropped" ∷ [], ChainStatus.dropped)
    ∷ []

unfoldable pub normalize_chain_status : Text → ChainStatus
normalize_chain_status status = switch status chain_status_cases ChainStatus.submitted

unfoldable pub normalize_transfer_status : Text → TransferStatus
normalize_transfer_status status =
    switch status
      ((text "initiated" ∷ [], TransferStatus.created)
        ∷ (text "approved" ∷ [], TransferStatus.pending_broadcast)
        ∷ (
          text "broadcast" ∷ text "broadcasted" ∷ text "submitted" ∷ text "pending" ∷ [],
          TransferStatus.submitted,
        )
        ∷ (text "included" ∷ [], TransferStatus.included)
        ∷ (text "confirmed" ∷ [], TransferStatus.confirmed_soft)
        ∷ (text "settled" ∷ text "validated" ∷ [], TransferStatus.confirmed_final)
        ∷ (text "queued" ∷ [], TransferStatus.created)
        ∷ (text "created" ∷ [], TransferStatus.created)
        ∷ (text "pending_broadcast" ∷ [], TransferStatus.pending_broadcast)
        ∷ (text "confirmed_soft" ∷ [], TransferStatus.confirmed_soft)
        ∷ (text "confirmed_final" ∷ [], TransferStatus.confirmed_final)
        ∷ (text "reorged" ∷ [], TransferStatus.reorged)
        ∷ (text "failed" ∷ [], TransferStatus.failed)
        ∷ (text "replaced" ∷ [], TransferStatus.replaced)
        ∷ (text "dropped" ∷ [], TransferStatus.dropped)
        ∷ (text "denied" ∷ [], TransferStatus.denied)
        ∷ (text "review" ∷ [], TransferStatus.review)
        ∷ [])
      TransferStatus.failed

normalize_some_type : Text → TxType
normalize_some_type value =
    switch value
      ((text "transfer" ∷ [], transfer)
        ∷ (text "contract_call" ∷ [], contract_call)
        ∷ (text "token_transfer" ∷ [], token_transfer)
        ∷ (text "approval" ∷ [], approval)
        ∷ (text "account_set" ∷ [], account_set)
        ∷ (text "trustline_set" ∷ [], trustline_set)
        ∷ (text "nft_mint" ∷ [], nft_mint)
        ∷ (text "offer_create" ∷ [], offer_create)
        ∷ (text "offer_cancel" ∷ [], offer_cancel)
        ∷ (text "nft_offer_create" ∷ [], nft_offer_create)
        ∷ (text "nft_offer_cancel" ∷ [], nft_offer_cancel)
        ∷ (text "nft_offer_accept" ∷ [], nft_offer_accept)
        ∷ [])
      contract_call

unfoldable pub normalize_tx_type : Option Text → TxType
unfolding normalize_some_type
normalize_tx_type none = contract_call
normalize_tx_type (some value) = normalize_some_type value

-- The members of `CHAIN_TRANSACTION_STATUSES`, `TRANSFER_WORKFLOW_STATUSES` and
-- `CHAIN_TRANSACTION_TYPES`.
unfoldable pub chain_status_name : ChainStatus → Text
chain_status_name ChainStatus.submitted = text "submitted"
chain_status_name ChainStatus.included = text "included"
chain_status_name ChainStatus.confirmed_soft = text "confirmed_soft"
chain_status_name ChainStatus.confirmed_final = text "confirmed_final"
chain_status_name ChainStatus.reorged = text "reorged"
chain_status_name ChainStatus.failed = text "failed"
chain_status_name ChainStatus.replaced = text "replaced"
chain_status_name ChainStatus.dropped = text "dropped"

unfoldable pub transfer_status_name : TransferStatus → Text
transfer_status_name TransferStatus.created = text "created"
transfer_status_name TransferStatus.pending_broadcast = text "pending_broadcast"
transfer_status_name TransferStatus.submitted = text "submitted"
transfer_status_name TransferStatus.included = text "included"
transfer_status_name TransferStatus.confirmed_soft = text "confirmed_soft"
transfer_status_name TransferStatus.confirmed_final = text "confirmed_final"
transfer_status_name TransferStatus.reorged = text "reorged"
transfer_status_name TransferStatus.failed = text "failed"
transfer_status_name TransferStatus.replaced = text "replaced"
transfer_status_name TransferStatus.dropped = text "dropped"
transfer_status_name TransferStatus.denied = text "denied"
transfer_status_name TransferStatus.review = text "review"

unfoldable pub tx_type_name : TxType → Text
tx_type_name transfer = text "transfer"
tx_type_name contract_call = text "contract_call"
tx_type_name token_transfer = text "token_transfer"
tx_type_name approval = text "approval"
tx_type_name account_set = text "account_set"
tx_type_name trustline_set = text "trustline_set"
tx_type_name nft_mint = text "nft_mint"
tx_type_name offer_create = text "offer_create"
tx_type_name offer_cancel = text "offer_cancel"
tx_type_name nft_offer_create = text "nft_offer_create"
tx_type_name nft_offer_cancel = text "nft_offer_cancel"
tx_type_name nft_offer_accept = text "nft_offer_accept"

-- A chain status is a transfer status of the same name.
unfoldable pub to_transfer_status : ChainStatus → TransferStatus
to_transfer_status ChainStatus.submitted = TransferStatus.submitted
to_transfer_status ChainStatus.included = TransferStatus.included
to_transfer_status ChainStatus.confirmed_soft = TransferStatus.confirmed_soft
to_transfer_status ChainStatus.confirmed_final = TransferStatus.confirmed_final
to_transfer_status ChainStatus.reorged = TransferStatus.reorged
to_transfer_status ChainStatus.failed = TransferStatus.failed
to_transfer_status ChainStatus.replaced = TransferStatus.replaced
to_transfer_status ChainStatus.dropped = TransferStatus.dropped
