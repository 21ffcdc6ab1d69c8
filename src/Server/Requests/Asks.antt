-- ===== src/Server/Requests/Asks.antt =====
-- network/server.rs, handle_client: which command a request is.
use raft_kv_distributed_kv_s.Prelude.{
  Text, List, [], ◌∷◌, ◌≡◌, ◌≢◌, ◌⊎◌, inl, inr, length, codes, false, refl, Bool-cases,
}
use raft_kv_distributed_kv_s.Protocol.{Command, get, set, del, ping, unknown}
use raft_kv_distributed_kv_s.Server.Requests.{server_command}
use raft_kv_distributed_kv_s.Storage.Lines.{text_eq, text_eq_iff}

-- What a client asks for: GET and DEL with a key, SET with a key and a value, PING with anything, and
-- otherwise a command that is not known by its name, a wrong number of arguments included.
pub data Asks (upper : Text → Text) : Text → List Text → Command → Type 0 where
  asks_get : (name key : Text) → upper name ≡ codes "GET" → Asks upper name (key ∷ []) (get key)
  asks_set :
      (name key value : Text)
      → upper name ≡ codes "SET"
      → Asks upper name (key ∷ value ∷ []) (set key value)
  asks_del : (name key : Text) → upper name ≡ codes "DEL" → Asks upper name (key ∷ []) (del key)
  asks_ping :
      (name : Text) (args : List Text) → upper name ≡ codes "PING" → Asks upper name args ping
  without_key :
      (name : Text) (args : List Text)
      → (upper name ≡ codes "GET") ⊎ (upper name ≡ codes "DEL")
      → length args ≢ 1
      → Asks upper name args (unknown (upper name))
  without_value :
      (name : Text) (args : List Text)
      → upper name ≡ codes "SET"
      → length args ≢ 2
      → Asks upper name args (unknown (upper name))
  not_known :
      (name : Text) (args : List Text)
      → upper name ≢ codes "GET"
      → upper name ≢ codes "SET"
      → upper name ≢ codes "DEL"
      → upper name ≢ codes "PING"
      → Asks upper name args (unknown (upper name))

text_eq-ne : (s t : Text) → s ≢ t → text_eq s t ≡ false
text_eq-ne s t h = elim (Bool-cases (text_eq s t)) [
  | inl same ↦ absurd (h ((text_eq_iff s t).0 same))
  | inr other ↦ other
]

without_key-server_command :
    (n head : Text) (args : List Text)
    → (n ≡ codes "GET") ⊎ (n ≡ codes "DEL")
    → length args ≢ 1
    → server_command n (head ∷ args) ≡ unknown n
unfolding server_command text_eq
without_key-server_command n head [] (inl e) few = rw e refl
without_key-server_command n head [] (inr e) few = rw e refl
without_key-server_command n head (key ∷ []) e few = absurd (few refl)
without_key-server_command n head (key ∷ value ∷ more) (inl e) few = rw e refl
without_key-server_command n head (key ∷ value ∷ more) (inr e) few = rw e refl

without_value-server_command :
    (n head : Text) (args : List Text)
    → n ≡ codes "SET"
    → length args ≢ 2
    → server_command n (head ∷ args) ≡ unknown n
unfolding server_command text_eq
without_value-server_command n head [] e few = rw e refl
without_value-server_command n head (key ∷ []) e few = rw e refl
without_value-server_command n head (key ∷ value ∷ []) e few = absurd (few refl)
without_value-server_command n head (key ∷ value ∷ more ∷ others) e few = rw e refl

-- The server takes a request for the command that it asks for.
pub server_command-Asks :
    (upper : Text → Text) (name : Text) (args : List Text) (c : Command)
    → Asks upper name args c
    → server_command (upper name) (name ∷ args) ≡ c
unfolding server_command text_eq
server_command-Asks upper _ _ _ (asks_get name key e) = rw e refl
server_command-Asks upper _ _ _ (asks_set name key value e) = rw e refl
server_command-Asks upper _ _ _ (asks_del name key e) = rw e refl
server_command-Asks upper _ _ _ (asks_ping name args e) = rw e refl
server_command-Asks upper _ _ _ (without_key name args e few) =
    without_key-server_command (upper name) name args e few
server_command-Asks upper _ _ _ (without_value name args e few) =
    without_value-server_command (upper name) name args e few
server_command-Asks upper _ _ _ (not_known name args no_get no_set no_del no_ping) =
    rw
      (
        text_eq-ne (upper name) (codes "GET") no_get,
        text_eq-ne (upper name) (codes "SET") no_set,
        text_eq-ne (upper name) (codes "DEL") no_del,
        text_eq-ne (upper name) (codes "PING") no_ping,
      )
      refl
