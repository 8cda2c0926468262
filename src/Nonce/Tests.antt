-- ===== src/Nonce/Tests.antt =====
-- Examples for the reservations of nonces.
use aljama_wallet.Base.{
  text_eq, ℕ, ◌≤◌, ◌<◌, ◌≡◌, refl, inr, ◌⊎◌, none, some, List, [], ◌∷◌, arith, text, int, pos,
  NoColon, show,
}
use mathlib.Core.Option
use aljama_wallet.Base.Map
use aljama_wallet.Base.Map.Values.{AllValues}
use aljama_wallet.Nonce.{
  Store, Status, NonceState, Reservation, ReserveInput, ok, err, nonce_already_reserved, empty,
  replied, reserve_wallet_nonce, reserve, check_requested, read_chain_pending_nonce, assert_nonce,
  reserve_in_memory, reserve_new, choose_nonce, baseline_nonce, step, insert_reservation, submit,
  run, double_suc, find_by_action, release_reservation, Call, state_key, action_key,
  update_reservation, update_by_tx_hashes, normalized_hashes,
}
use aljama_wallet.Nonce.Invariant.{Inv, run-Inv, stuck, empty-Inv}
use aljama_wallet.Nonce.Fresh.{IsFresh, reserve-IsFresh}
use aljama_wallet.Nonce.Again.{reserve_again, release-gap}
use aljama_wallet.Nonce.Update.{update_by_tx_hashes_lem, mark}

abbrev send_one : ReserveInput
send_one = record {
  wallet_id = text "w";
  chain_id = 1;
  action_id = text "a";
  requested_nonce = none;
}

abbrev send_two : ReserveInput
send_two = record {
  wallet_id = text "w";
  chain_id = 1;
  action_id = text "b";
  requested_nonce = none;
}

abbrev at_seven : Call
at_seven = reserve send_one (replied (int (pos 7))) (text "u")

abbrev history : List (ℕ × Call)
history = (5, at_seven) ∷ []

abbrev first : Reservation
first = record {
  id = text "nonce_u";
  wallet_id = text "w";
  chain_id = 1;
  nonce = 7;
  action_id = text "a";
  status = Status.reserved;
  tx_hash = none;
  created_at = 5;
  updated_at = 5;
}

run-Inv_example : Inv (run empty history)
run-Inv_example = run-Inv history

abbrev after_first : Store
after_first = run empty history

reserved_first :
    reserve_wallet_nonce empty send_one (replied (int (pos 7))) (text "u") 5
    ≡ (ok first, after_first)
unfolding run reserve_wallet_nonce check_requested read_chain_pending_nonce reserve_in_memory
    find_by_action reserve_new choose_nonce baseline_nonce step insert_reservation Map.get Map.set
    action_key state_key show double_suc release_reservation update_reservation
reserved_first = refl

reserve-IsFresh_example :
    IsFresh empty send_one (replied (int (pos 7))) (text "u") 5 first after_first
unfolding find_by_action
reserve-IsFresh_example =
    reserve-IsFresh empty send_one (replied (int (pos 7))) (text "u") 5 first after_first empty-Inv
      refl reserved_first

asked_nine : check_requested (some (int (pos 9))) ≡ ok (some 9)
unfolding check_requested assert_nonce
asked_nine = refl

replied_eight : read_chain_pending_nonce (replied (int (pos 8))) ≡ ok 8
unfolding read_chain_pending_nonce assert_nonce
replied_eight = refl

-- The same action again, now with a nonce that it asks for.
abbrev send_one_at_nine : ReserveInput
send_one_at_nine = record send_one { requested_nonce = some (int (pos 9)) }

reserve_again_example :
    reserve_wallet_nonce after_first send_one_at_nine (replied (int (pos 8))) (text "v") 6
    ≡ (ok first, after_first)
reserve_again_example =
    reserve_again empty send_one (replied (int (pos 7))) (text "u") 5 first after_first
      send_one_at_nine (some 9) (replied (int (pos 8))) 8 (text "v") 6 reserved_first refl refl refl
      asked_nine replied_eight

abbrev after_release : Store
after_release = (release_reservation after_first (text "nonce_u") 6).1

abbrev second : Reservation
second = record {
  id = text "nonce_v";
  wallet_id = text "w";
  chain_id = 1;
  nonce = 8;
  action_id = text "b";
  status = Status.reserved;
  tx_hash = none;
  created_at = 9;
  updated_at = 9;
}

abbrev after_second : Store
after_second = (reserve_wallet_nonce after_release send_two (replied (int (pos 7))) (text "v") 9).1

reserved_second :
    reserve_wallet_nonce after_release send_two (replied (int (pos 7))) (text "v") 9
    ≡ (ok second, after_second)
unfolding run reserve_wallet_nonce check_requested read_chain_pending_nonce reserve_in_memory
    find_by_action reserve_new choose_nonce baseline_nonce step insert_reservation Map.get Map.set
    action_key state_key show double_suc release_reservation update_reservation
reserved_second = refl

first_held : Map.get after_first.reservations (text "nonce_u") ≡ some first
unfolding run reserve_wallet_nonce check_requested read_chain_pending_nonce reserve_in_memory
    find_by_action reserve_new choose_nonce baseline_nonce step insert_reservation Map.get Map.set
    action_key state_key show double_suc release_reservation update_reservation
first_held = refl

no_second_yet : find_by_action after_release (text "w") 1 (text "b") ≡ none
unfolding run reserve_wallet_nonce check_requested read_chain_pending_nonce reserve_in_memory
    find_by_action reserve_new choose_nonce baseline_nonce step insert_reservation Map.get Map.set
    action_key state_key show double_suc release_reservation update_reservation
no_second_yet = refl

release-gap_example : (first.nonce < second.nonce) ⊎ (stuck ≤ second.nonce)
release-gap_example =
    release-gap after_first (text "nonce_u") first 6 send_two (replied (int (pos 7))) (text "v") 9
      second after_second (run-Inv history) first_held refl refl no_second_yet reserved_second

abbrev at_the_end : Reservation
at_the_end = record first { nonce = 9007199254740992 }

abbrev end_state : NonceState
end_state = record {
  wallet_id = text "w";
  chain_id = 1;
  next_nonce = 9007199254740992;
  created_at = 5;
  updated_at = 5;
}

abbrev end_store : Store
end_store = record {
  states = (text "w:1", end_state) ∷ [];
  reservations = (text "nonce_u", at_the_end) ∷ [];
}

end_state_held : Map.get end_store.states (state_key (text "w") 1) ≡ some end_state
unfolding Map.get state_key show
end_state_held = refl

end_store-Inv : Inv end_store
end_store-Inv = record {
  distinct = (tt, tt);
  passed = ((end_state, end_state_held, inr (omega arith)), tt);
  keyed = (refl, tt);
}

end_clash :
    (reserve_wallet_nonce end_store send_two (replied (int (pos 7))) (text "v") 9).0
    ≡ err nonce_already_reserved
unfolding run reserve_wallet_nonce check_requested read_chain_pending_nonce reserve_in_memory
    find_by_action reserve_new choose_nonce baseline_nonce step insert_reservation Map.get Map.set
    action_key state_key show double_suc release_reservation update_reservation
end_clash = refl

first_found : find_by_action after_first (text "w") 1 (text "a") ≡ some first
unfolding run reserve_wallet_nonce check_requested read_chain_pending_nonce reserve_in_memory
    find_by_action reserve_new choose_nonce baseline_nonce step insert_reservation Map.get Map.set
    action_key state_key show double_suc release_reservation update_reservation
first_found = refl

no_colons : AllValues (λ q. NoColon q.wallet_id) after_first.reservations
unfolding run step reserve_wallet_nonce check_requested read_chain_pending_nonce reserve_in_memory
    find_by_action reserve_new choose_nonce insert_reservation Map.set
no_colons = ((λ e. omega arith, tt), tt)

abbrev sent : List (ℕ × Call)
sent = (5, at_seven) ∷ (6, submit (text "nonce_u") (text "0x1")) ∷ []

update_by_tx_hashes_lem_example :
    Map.get
      (update_by_tx_hashes (run empty sent) (text " 0x1 " ∷ []) Status.confirmed 9).1.reservations
      (text "nonce_u")
    ≡ Option.map
        (mark (normalized_hashes (text " 0x1 " ∷ [])) Status.confirmed 9)
        (Map.get (run empty sent).reservations (text "nonce_u"))
update_by_tx_hashes_lem_example =
    update_by_tx_hashes_lem (run empty sent) (text " 0x1 " ∷ []) Status.confirmed 9 (text "nonce_u")
      (run-Inv sent)
