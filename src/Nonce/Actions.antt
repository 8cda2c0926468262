-- ===== src/Nonce/Actions.antt =====
-- The keys of actions and counters. A reservation is looked up by the text
-- `${walletId}:${chainId}:${actionId}`.
use aljama_wallet.Base.{
  ℕ, ◌≡◌, some, Text, text_eq, ==_iff, ◌++◌, ◌∷◌, NoColon, cut_first, cut_last, show,
  show-injective, show-NoColon,
}
use mathlib.Core.List.{append_assoc}
use aljama_wallet.Base.Map.Values.{AllValues, find-values}
use aljama_wallet.Nonce.{Store, Reservation, find_by_action, has_action, action_key, state_key}

action_key-injective :
    (w v : Text) (c d : ℕ) (a b : Text)
    → NoColon w
    → NoColon v
    → action_key w c a ≡ action_key v d b
    → (w ≡ v) × (c ≡ d) × (a ≡ b)
unfolding action_key
action_key-injective w v c d a b hw hv h =
    let (same_w, rest) = cut_first w v _ _ hw hv h in
    let (same_c, same_a) = cut_first (show c) (show d) a b (show-NoColon c) (show-NoColon d) rest in
    (same_w, show-injective c d same_c, same_a)

-- Where no wallet id holds a colon, the reservation that an action finds is one of the same wallet,
-- chain and action.
find_by_action-belongs :
    (s : Store) (w : Text) (c : ℕ) (a : Text) (r : Reservation)
    → AllValues (λ q. NoColon q.wallet_id) s.reservations
    → NoColon w
    → find_by_action s w c a ≡ some r
    → (r.wallet_id ≡ w) × (r.chain_id ≡ c) × (r.action_id ≡ a)
unfolding find_by_action
find_by_action-belongs s w c a r clean hw found =
    let (hr, hit) =
      find-values (λ q. NoColon q.wallet_id) (has_action w c a) s.reservations r clean found in
    action_key-injective r.wallet_id w r.chain_id c r.action_id a hr hw ((==_iff _ _).0 hit)

-- Counters of different wallets or chains have different keys, whatever the wallet ids.
state_key-injective : (w v : Text) (c d : ℕ) → state_key w c ≡ state_key v d → (w ≡ v) × (c ≡ d)
unfolding state_key
state_key-injective w v c d h =
    let (same_w, same_c) = cut_last w v (show c) (show d) (show-NoColon c) (show-NoColon d) h in
    (same_w, show-injective c d same_c)

-- A wallet id with a colon can clash: the keys of (`w:c`, d, a) and (w, c, `d:a`) are one.
pub action_key_clash :
    (w : Text) (c d : ℕ) (a : Text)
    → action_key (state_key w c) d a ≡ action_key w c (show d ++ 58 ∷ a)
unfolding action_key state_key
action_key_clash w c d a = append_assoc w (58 ∷ show c) (58 ∷ (show d ++ 58 ∷ a))
