-- ===== src/Idempotency/Tests.antt =====
-- Examples for the idempotency keys.
use aljama_wallet.Base.{◌+◌, ◌≡◌, refl, none, some, false, [], ◌∷◌, arith, text, text_eq, ==_iff}
use aljama_wallet.Base.Map
use aljama_wallet.Idempotency.{done, failed, replay, cache_key, reserve_in_memory, reserve_in_table}
use aljama_wallet.Idempotency.Guard.{Promises}
use aljama_wallet.Idempotency.Memory.{expiry_in_memory, memory_guard, reserve_in_memory-Promises}
use aljama_wallet.Idempotency.Table.{list_table, list_table-Laws, reserve_in_table-Promises}
use aljama_wallet.Idempotency.History.{
  Call, reserve, run, in_memory, guard_of, refused_until_expiry,
}

reserve_in_memory-Promises_example :
    Promises expiry_in_memory []
      (text "send")
      (text "k")
      5
      (6 + 100)
      (reserve_in_memory false [] (text "send") (text "k") (some 100) 5 6)
reserve_in_memory-Promises_example =
    reserve_in_memory-Promises [] (text "send") (text "k") (some 100) 5 6

reserve_in_table-Promises_example :
    Promises list_table.find
      ((text "send", text "k", 50) ∷ [])
      (text "send")
      (text "k")
      60
      (55 + 100)
      (reserve_in_table list_table
        ((text "send", text "k", 50) ∷ [])
        (text "send")
        (text "k")
        (some 100)
        55
        60)
reserve_in_table-Promises_example =
    reserve_in_table-Promises list_table list_table-Laws ((text "send", text "k", 50) ∷ [])
      (text "send") (text "k") (some 100) 55 60

abbrev other_key : Call
other_key = reserve (text "send") (text "l") none 20 21

first_made : (memory_guard.reserve [] (text "send") (text "k") (some 100) 5 6).0 ≡ done
unfolding reserve_in_memory Map.get
first_made = refl

keys_differ :
    cache_key (text "send") (text "l") ≡ cache_key (text "send") (text "k")
    → (text "send" ≡ text "send") × (text "l" ≡ text "k")
unfolding cache_key
keys_differ e =
    let e' =
      (==_iff (cache_key (text "send") (text "l")) (cache_key (text "send") (text "k"))).1 e in
    cc

refused_until_expiry_example :
    ((guard_of in_memory).reserve
      (run
        (guard_of in_memory)
        ((guard_of in_memory).reserve [] (text "send") (text "k") (some 100) 5 6).1
        (other_key ∷ []))
      (text "send")
      (text "k")
      none
      105
      105).0
    ≡ failed replay
refused_until_expiry_example =
    refused_until_expiry in_memory [] (text "send") (text "k") (some 100) none 5 6 105 105
      (other_key ∷ []) first_made ((omega arith, keys_differ), tt) (omega arith)
