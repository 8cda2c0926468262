-- ===== src/Chain/Vocabulary.antt =====
-- The words for statuses and types, and their normalisation.
use aljama_wallet.Base.{◌≡◌, refl, ◌≢◌, some, Text, switch_cases}
use aljama_wallet.Chain.{
  chain_status_cases, ChainStatus, TransferStatus, TxType, normalize_chain_status,
  normalize_transfer_status, normalize_tx_type, chain_status_name, transfer_status_name,
  tx_type_name, to_transfer_status,
}

chain_words : (s : ChainStatus) → normalize_chain_status (chain_status_name s) ≡ s
unfolding normalize_chain_status chain_status_name
chain_words ChainStatus.submitted = refl
chain_words _ = refl

transfer_words : (s : TransferStatus) → normalize_transfer_status (transfer_status_name s) ≡ s
unfolding normalize_transfer_status transfer_status_name
transfer_words TransferStatus.created = refl
transfer_words _ = refl

type_words : (t : TxType) → normalize_tx_type (some (tx_type_name t)) ≡ t
unfolding normalize_tx_type tx_type_name
type_words TxType.transfer = refl
type_words _ = refl

-- Every word that the program writes for a status or a type is read back as what it stands for.
pub normalize-name :
    ((s : ChainStatus) → normalize_chain_status (chain_status_name s) ≡ s)
    × ((s : TransferStatus) → normalize_transfer_status (transfer_status_name s) ≡ s)
    × ((t : TxType) → normalize_tx_type (some (tx_type_name t)) ≡ t)
normalize-name = (chain_words, transfer_words, type_words)

abbrev Agrees : Text → ChainStatus → Type 0
Agrees word s = s ≢ ChainStatus.submitted → normalize_transfer_status word ≡ to_transfer_status s

at :
    {word label : Text} {s : ChainStatus}
    → normalize_transfer_status label ≡ to_transfer_status s
    → word ≡ label
    → Agrees word s
at h e _ = rw e h

-- Where the two vocabularies meet they agree: a word that means a chain status other than
-- "submitted" means the same as the status of a transfer.
normalize_agree :
    (word : Text)
    → normalize_chain_status word ≢ ChainStatus.submitted
    → normalize_transfer_status word ≡ to_transfer_status (normalize_chain_status word)
unfolding normalize_chain_status normalize_transfer_status to_transfer_status
normalize_agree word =
    switch_cases (Agrees word) word chain_status_cases ChainStatus.submitted
      (
        (at refl, (at refl, (at refl, (at refl, tt)))),
        (
          (at refl, tt),
          (
            (at refl, tt),
            (
              (at refl, (at refl, tt)),
              (
                (at refl, tt),
                (
                  (at refl, tt),
                  ((at refl, tt), ((at refl, tt), ((at refl, tt), ((at refl, tt), tt)))),
                ),
              ),
            ),
          ),
        ),
      )
      (λ h. absurd (h refl))
