-- ===== src/Chain/Depth.antt =====
-- Finality of an included EVM transaction (`getEvmTransactionFinality`) against the head block.
use aljama_wallet.Base.{
  none, frac, not_finite, negsuc, ℕ, ◌+◌, ◌≤◌, ◌≡◌, ◌↔◌, Option, some, arith, Number, int, pos,
}
use aljama_wallet.Chain.{ChainStatus, finality, finality_of_count}

-- How far a transaction is from final.
abbrev pub depth : ChainStatus → ℕ
depth ChainStatus.included = 1
depth ChainStatus.confirmed_soft = 2
depth ChainStatus.confirmed_final = 3
depth _ = 0

-- For a block b at or below the head the count is head - b + 1; the transaction is final exactly
-- from the twelfth confirmation on, and merely included exactly at the first.
pub finality_of_block :
    (head b : ℕ)
    → b ≤ head
    → ((finality head (some (int (pos b)))).confirmation_count + b ≡ head + 1)
      × (((finality head (some (int (pos b)))).status ≡ ChainStatus.confirmed_final)
          ↔ (b + 11 ≤ head))
      × (((finality head (some (int (pos b)))).status ≡ ChainStatus.included) ↔ (b ≡ head))
unfolding finality
finality_of_block head b h = ground arith

finality_of_count_mono :
    (m n : ℕ) → m ≤ n → depth (finality_of_count m).status ≤ depth (finality_of_count n).status
unfolding finality_of_count
finality_of_count_mono m n h = ground arith

finality_of_count_count : (n : ℕ) → (finality_of_count n).confirmation_count ≡ n
unfolding finality_of_count
finality_of_count_count n = ground arith

-- While the head advances, neither the depth of the status nor the count of confirmations falls,
-- whatever the receipt gives as its block.
finality_mono :
    (head later : ℕ) (b : Option Number)
    → head ≤ later
    → (depth (finality head b).status ≤ depth (finality later b).status)
      × ((finality head b).confirmation_count ≤ (finality later b).confirmation_count)
unfolding finality finality_of_count
finality_mono head later none h = (omega arith, omega arith)
finality_mono head later (some not_finite) h = (omega arith, omega arith)
finality_mono head later (some (frac _)) h = (omega arith, omega arith)
finality_mono head later (some (int (negsuc n))) h = (omega arith, omega arith)
finality_mono head later (some (int (pos b))) h = ground arith
