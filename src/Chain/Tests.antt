-- ===== src/Chain/Tests.antt =====
-- Examples for the chain statuses and their finality.
use aljama_wallet.Base.{ℕ, ◌+◌, ◌≤◌, ◌≡◌, ◌↔◌, refl, some, arith, int, pos, text}
use aljama_wallet.Chain.{ChainStatus, finality, normalize_chain_status}
use aljama_wallet.Chain.Depth.{finality_of_block}

final_at_twelve : (finality 111 (some (int (pos 100)))).status ≡ ChainStatus.confirmed_final
unfolding finality
final_at_twelve = refl

finality_of_block_example :
    ((finality 111 (some (int (pos 100)))).confirmation_count + 100 ≡ 111 + 1)
    × (((finality 111 (some (int (pos 100)))).status ≡ ChainStatus.confirmed_final)
        ↔ (100 + 11 ≤ 111))
    × (((finality 111 (some (int (pos 100)))).status ≡ ChainStatus.included)
        ↔ (◌≡◌ {A = ℕ} 100 111))
finality_of_block_example = finality_of_block 111 100 (omega arith)

dropped-dropped : normalize_chain_status (text "dropped") ≡ ChainStatus.dropped
unfolding normalize_chain_status
dropped-dropped = refl
