-- ===== src/Client/Calls.antt =====
-- Calls of src/client.py on the controller of src/controller.py, one after the other.
use logvine.Prelude.{ℕ, ◌≡◌, refl, ap, ◌∙◌, true, false, some, List, [], ◌∷◌, ◌==◌}
use logvine.Prelude.Bytes.{Bytes, bytes_eq, bytes_beq}
use logvine.Prelude.Text.{Text}
use logvine.Prelude.Utf8.{encode}
use logvine.Prelude.Result.{Error, Result, ok, raise}
use logvine.MemTable.{tombstone}
use logvine.Json.{Json, boolean, string, get_field}
use logvine.Operations.{returned, Operation}
use logvine.Operations
use logvine.Operations.Words.{returned_text}
use logvine.Operations.Responses.{to_response, respond, outcome_fields}
use logvine.Controller.{Reply, response, reply_json, handle_request}
use logvine.Controller.Requests.{get-put_requests}
use logvine.Client
use logvine.Client.{
  Returned, read_response, send_request, put_request, get_request, success, value_of,
}
use logvine.Client.Stream.{lines_of}
use logvine.Engine
use logvine.Engine.Lsm.{lsm_engine}
use logvine.Engine.{Engine}

-- What a request to the controller writes: an exception that leaves it writes nothing.
abbrev pub written : (Error → Text) → Result (List Reply) → List Json
written str (raise e) = []
written str (ok replies) = lines_of str replies

abbrev pub serve : (Error → Text) → Json → Engine → List Json × Engine
serve str request s =
    (written str (handle_request (some request) s).0, (handle_request (some request) s).1)

module _ (str : Error → Text) where
  read_put :
      (key value : Bytes)
      → read_response success (
          written str
            (ok (response (to_response (Operations.put key value) (returned returned_text)) ∷ [])))
        ≡ Client.returned (boolean true)
  unfolding read_response reply_json respond outcome_fields get_field bytes_beq
  read_put key value = refl

  read_get :
      (key : Bytes) (text : Text)
      → read_response value_of
          (written str (ok (response (to_response (Operations.get key) (returned text)) ∷ [])))
        ≡ Client.returned (string text)
  unfolding read_response reply_json respond outcome_fields get_field bytes_beq
  read_get key text = refl

  -- A put call of a client whose key is not empty, whose key and value encode, and which the engine
  -- takes, returns True; a get call of the same key, made next, returns the text that was put, where
  -- that is not the tombstone's.
  pub get-put_calls :
      (c : ℕ) (cs : Text) (key : Bytes) (text : Text) (value : Bytes) (s : Engine)
      → encode (c ∷ cs) ≡ ok key
      → encode text ≡ ok value
      → (value == tombstone) ≡ false
      → (Engine.put key value s).0 ≡ ok tt
      → ((Client.put (serve str) (c ∷ cs) text s).0 ≡ Client.returned (boolean true))
        × ((Client.get (serve str) (c ∷ cs) (Client.put (serve str) (c ∷ cs) text s).1).0
            ≡ Client.returned (string text))
  unfolding Client.put Client.get send_request
  get-put_calls c cs key text value s encoded value_encoded other taken =
      let (stored, read) =
        get-put_requests c cs key encoded text value s value_encoded other taken in
      (
        ap (λ (r : Result (List Reply)). read_response success (written str r)) stored
            ∙ read_put key value,
        ap (λ (r : Result (List Reply)). read_response value_of (written str r)) read
            ∙ read_get key text,
      )
