-- ===== src/Tests/Servers.antt =====
-- The theorems about the server and the controller on the engine, each at a run of a few lines.
use logvine.Prelude.{◌≡◌, some, Option, List, [], ◌∷◌, if◌then◌else◌, ◌==◌}
use logvine.Prelude.Bytes.{bytes_eq}
use logvine.Prelude.Text.{Text}
use logvine.Prelude.Utf8
use logvine.Json
use logvine.Prelude.Utf8.{encode, encode_char}
use logvine.Prelude.{arith, refl, none}
use logvine.Prelude.Order.{sorted}
use logvine.Prelude.Interval.{in_range}
use logvine.Prelude.Result.{Error, Result, ok}
use logvine.MemTable.{pair_lt}
use logvine.Controller.{decode_pair}
use logvine.Controller.Stream.{decode_pairs}
use logvine.Client
use logvine.Client.Calls.{serve}
use logvine.Client.Stream.{string_pairs}
use logvine.Client.Ranges.{read_key_range-Holds}
use logvine.StorageEngine.Dictionary.{kept}
use logvine.Engine.Erasing.{store_erasing}
use logvine.Engine.Holds.{Written, taken, raised, put-Written}
use logvine.Json.{Json}
use logvine.Operations
use logvine.Controller
use logvine.Server
use logvine.Client.{put_request, get_request}
use logvine.Prelude.Dict
use logvine.Engine
use logvine.Engine.{Engine}
use logvine.Engine.System
use logvine.Engine.Lsm.{lsm_engine}
use logvine.Engine.Holds.{Holds}
use logvine.Engine.Refines.{empty_engine, empty_engine-Healthy, empty_engine-Implements}
use logvine.StorageEngine.Dictionary.{Dictionary}
use logvine.Controller.Refines.{Handles, handle_request-Handles}
use logvine.Server.{Input, line, handle_line, handle_client}
use logvine.Server.Replies.{Answer, Answered, all_lines, requests, handle_client-answers}
use logvine.Server.Refines.{
  Exchange, Run, Explains, stop, step, line_step, flush_step, Run-Explains,
}
use logvine.Tests.{program, a, b, c}

-- A reader of two requests.
abbrev loads : Text → Option Json
loads text = if text == a then some (put_request a b) else some (get_request a)

abbrev no_text : Error → Text
no_text e = []

abbrev begun : Engine
begun = empty_engine (47 ∷ []) 1

begun-Holds : Holds begun []
unfolding System.shown
begun-Holds = record {
  healthy = empty_engine-Healthy (47 ∷ []) 1;
  reads = unfold Dict.get in empty_engine-Implements (47 ∷ []) 1;
  distinct = tt;
}

handle_request-Handles_example : Handles (some (put_request a b)) begun []
handle_request-Handles_example =
    handle_request-Handles (some (put_request a b)) begun [] begun-Holds

abbrev after_put : Engine
after_put = (handle_line loads a begun).1

abbrev written_out : Engine
written_out = Engine.flush 1000 1001 after_put

abbrev exchanges : List Exchange
exchanges =
    record { client = 1; request = a; lines = (handle_line loads a begun).0 }
    ∷ record { client = 2; request = c; lines = (handle_line loads c written_out).0 }
    ∷ []

abbrev after_get : Engine
after_get = (handle_line loads c written_out).1

served : Unit {0}
unfolding handle_line Utf8.decode Utf8.strict Utf8.characters Utf8.byte_step Utf8.first_of
    Server.written Controller.handle_request Controller.handled Controller.answered
    Operations.from_json Server.strip Server.strip_end Server.strip_start Server.is_blank
    Operations.operation_name Json.get_field Operations.parse Operations.parse_put
    Operations.parse_get Operations.required Operations.present Json.truthy Operations.ensure_bytes
    Operations.validate Operations.execute Operations.upper Utf8.encode Utf8.encode_char
served = tt

two_lines : Run loads begun exchanges after_get
unfolding program served
two_lines = step begun after_put after_get _ _ (line_step 1 a) (
    step after_put written_out after_get [] _ (flush_step 1000 1001 tt tt)
      (step written_out after_get after_get _ [] (line_step 2 c) (stop after_get)))

Run-Explains_example : (d : Dictionary) × Explains loads [] exchanges d × Holds after_get d
Run-Explains_example = Run-Explains loads begun after_get exchanges [] two_lines begun-Holds

abbrev inputs : List Input
inputs = line (97 ∷ 10 ∷ []) ∷ line (255 ∷ 10 ∷ []) ∷ line [] ∷ []

handle_client-answers_example :
    (answers : List Answer) × ((handle_client loads inputs begun).0 ≡ all_lines answers)
    × Answered loads (requests inputs) begun answers (handle_client loads inputs begun).1
handle_client-answers_example = handle_client-answers loads inputs begun

taken-Holds :
    (d d' : Dictionary) (r : Result (Unit {0}) × Engine)
    → Written d d' r
    → r.0 ≡ ok tt
    → Holds r.1 d'
taken-Holds d d' _ (taken s h) q = h
taken-Holds d d' _ (raised e s h) q = absurd (ground arith)

put_taken : (Engine.put a b begun).0 ≡ ok tt
unfolding program
put_taken = refl

put-Holds : Holds (Engine.put a b begun).1 (store_erasing a b [])
put-Holds =
    taken-Holds [] (store_erasing a b []) (Engine.put a b begun)
      (put-Written begun [] begun-Holds a b (omega arith, tt)) put_taken

encoded_a : encode a ≡ ok a
unfolding encode encode_char
encoded_a = refl

encoded_c : encode c ≡ ok c
unfolding encode encode_char
encoded_c = refl

decoded_range :
    decode_pairs (sorted pair_lt (kept (in_range a c) (store_erasing a b []))) ≡ ok ((a, b) ∷ [])
unfolding program served decode_pairs decode_pair store_erasing kept
decoded_range = refl

read_key_range-Holds_example :
    (Client.read_key_range (serve no_text) a c (Engine.put a b begun).1).0
    ≡ record { items = string_pairs ((a, b) ∷ []); ending = none }
read_key_range-Holds_example =
    read_key_range-Holds no_text 97 [] 99 [] a c (Engine.put a b begun).1 (store_erasing a b [])
      ((a, b) ∷ []) encoded_a encoded_c put-Holds decoded_range
