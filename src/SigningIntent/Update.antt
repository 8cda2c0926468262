-- ===== src/SigningIntent/Update.antt =====
-- What an update of an intent in memory leaves under its id, also where it comes to archive the payload.
use aljama_wallet.Base.{ℕ, Bool, ◌≡◌, refl, some, Text, text_eq, subst}
use aljama_wallet.Base.Map
use aljama_wallet.SigningIntent.{Stored, Updates, apply_updates}
use aljama_wallet.SigningIntent.Memory.{
  Setting, Store, archived_as, materialize, updated_stored, update_intent,
}
use aljama_wallet.SigningIntent.Effect.{materialize_store}

-- Under the id stands a record with it that has the state of the given one, but for where its payload is.
pub record Leaves (s : Store) (id : Text) (r : Stored) : Type 0 where
  pub record_left : Stored
  pub stored : Map.get s.intents id ≡ some record_left
  pub same_id : record_left.intent.id ≡ id
  pub same_status : record_left.intent.status ≡ r.intent.status
  pub same_hash : record_left.intent.tx_hash ≡ r.intent.tx_hash

archived-Leaves :
    (s : Store) (a : Stored) (id : Text)
    → a.intent.id ≡ id
    → Map.get s.intents id ≡ some a
    → (cfg : Setting) (now : ℕ) (writes : Bool) → Leaves (materialize cfg s a now writes).1 id a
archived-Leaves s a id own here cfg now writes =
    materialize_store cfg s a now writes (λ s'. Leaves s' id a)
      (record {
        record_left = a;
        stored = here;
        same_id = own;
        same_status = refl;
        same_hash = refl;
      })
      λ url files. record {
        record_left = archived_as a url;
        stored =
            subst
              (λ x.
                Map.get (Map.set s.intents a.intent.id (archived_as a url)) x
                ≡ some (archived_as a url))
              own (Map.get-set_self s.intents a.intent.id (archived_as a url));
        same_id = own;
        same_status = refl;
        same_hash = refl;
      }

-- An update of an intent that is stored under its id leaves the updated one there.
pub update_intent-Leaves :
    (cfg : Setting) (s : Store) (id : Text) (r : Stored) (u : Updates) (now later : ℕ)
    (writes : Bool)
    → Map.get s.intents id ≡ some r
    → r.intent.id ≡ id
    → Leaves (update_intent cfg s id u now later writes).1 id (updated_stored r u now)
unfolding update_intent apply_updates
update_intent-Leaves cfg s id r u now later writes here own =
    rw (here, update_intent)
      (archived-Leaves (record s { intents = Map.set s.intents id (updated_stored r u now) })
        (updated_stored r u now) id own (Map.get-set_self s.intents id (updated_stored r u now)) cfg
        later writes)
