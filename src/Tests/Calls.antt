-- ===== src/Tests/Calls.antt =====
-- The theorems about the client, each at calls that meet their conditions.
use logvine.Prelude.{◌≡◌, refl, [], true, false, ◌==◌}
use logvine.Prelude.Bytes.{bytes_eq}
use logvine.Prelude.Text.{Text}
use logvine.Prelude.Utf8.{encode, encode_char}
use logvine.Prelude.Result.{Error, ok}
use logvine.MemTable.{tombstone}
use logvine.Json.{boolean, string}
use logvine.Client
use logvine.Client.Calls
use logvine.Client.Calls.{serve}
use logvine.Engine
use logvine.Tests.{program, a, b, fresh}

-- Exceptions without a text.
abbrev no_text : Error → Text
no_text e = []

encoded_a : encode a ≡ ok a
unfolding encode encode_char
encoded_a = refl

encoded_b : encode b ≡ ok b
unfolding encode encode_char
encoded_b = refl

no_tombstone : (b == tombstone) ≡ false
unfolding program
no_tombstone = refl

taken : (Engine.put a b fresh).0 ≡ ok tt
unfolding program
taken = refl

get-put_calls_example :
    ((Client.put (serve no_text) a b fresh).0 ≡ Client.returned (boolean true))
    × ((Client.get (serve no_text) a (Client.put (serve no_text) a b fresh).1).0
        ≡ Client.returned (string b))
get-put_calls_example =
    Calls.get-put_calls no_text 97 [] a b b fresh encoded_a encoded_b no_tombstone taken
