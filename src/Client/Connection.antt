-- ===== src/Client/Connection.antt =====
-- The connection of `LogvineClient` of src/client.py: calls before `connect` and after `disconnect`.
use logvine.Prelude.{
  ℕ, ◌≡◌, refl, Bool, true, false, List, [], ◌∷◌, nat_beq, length, if◌then◌else◌, arith,
}
use logvine.Prelude.Text.{Text}
use logvine.Prelude.Result.{Result, ok, raise, value_error}
use logvine.Json.{Json, string}
use logvine.Client
use logvine.Client.{Failure, runtime_error, raised, Returned, failed, Yielded, only}

-- `connected` says whether there is a reader and a writer: they are set and reset together.
pub record LogvineClient : Type 0 where
  pub host : Text
  pub port : ℕ
  pub connected : Bool

unfoldable pub init : Text → ℕ → LogvineClient
init host port = record { host = host; port = port; connected = false }

-- `connect` and `__aenter__`, on what `open_connection` gives.
unfoldable pub connect : Result (Unit {0}) → LogvineClient → Result (Unit {0}) × LogvineClient
connect (raise e) client = (raise e, client)
connect (ok opened) client = (ok tt, record client { connected = true })

-- `disconnect` and `__aexit__`
unfoldable pub disconnect : LogvineClient → LogvineClient
disconnect client = if client.connected then record client { connected = false } else client

-- "Not connected to server"
abbrev pub not_connected : Failure
not_connected = runtime_error (
    string (
      78 ∷ 111 ∷ 116 ∷ 32 ∷ 99 ∷ 111 ∷ 110 ∷ 110 ∷ 101 ∷ 99 ∷ 116 ∷ 101 ∷ 100 ∷ 32 ∷ 116 ∷ 111 ∷ 32
      ∷ 115 ∷ 101 ∷ 114 ∷ 118 ∷ 101 ∷ 114 ∷ []))

-- `if not self.writer: raise RuntimeError(...)`, in front of a call.
module _ {ℓ} {S : Type ℓ} (serve : Json → S → List Json × S) (client : LogvineClient) where
  abbrev guarded : (S → Returned × S) → S → Returned × S
  guarded call s = if client.connected then call s else (failed not_connected, s)

  unfoldable pub put : Text → Text → S → Returned × S
  put key value s = guarded (Client.put serve key value) s

  unfoldable pub get : Text → S → Returned × S
  get key s = guarded (Client.get serve key) s

  unfoldable pub delete : Text → S → Returned × S
  delete key s = guarded (Client.delete serve key) s

  -- The lengths are compared first.
  unfoldable pub batch_put : List Text → List Text → S → Returned × S
  batch_put keys values s =
      if nat_beq (length keys) (length values)
      then guarded (Client.batch_put serve keys values) s
      else (failed (raised value_error), s)

  unfoldable pub read_key_range : Text → Text → S → Yielded × S
  read_key_range start_key end_key s =
      if client.connected
      then Client.read_key_range serve start_key end_key s
      else (only [] not_connected, s)

disconnect-connected : (client : LogvineClient) → (disconnect client).connected ≡ false
unfolding disconnect
disconnect-connected client = ground arith

-- After `disconnect`, whether the client was connected or not, a call sends nothing, and fails.
put-disconnect {ℓ} :
    {S : Type ℓ} (serve : Json → S → List Json × S) (client : LogvineClient) (key value : Text)
    (s : S)
    → put serve (disconnect client) key value s ≡ (failed not_connected, s)
unfolding put
put-disconnect serve client key value s = rw (disconnect-connected client) refl
