-- ===== src/Server.antt =====
-- src/server.py: the connections of clients, each read line by line.
pub mod Replies
pub mod Refines
use logvine.Prelude.{
  ℕ, ◌&&◌, ◌||◌, Bool, Option, List, [], ◌∷◌, ◌++◌, leb, nat_beq, if◌then◌else◌, map,
}
use logvine.Prelude.Bytes.{Bytes}
use logvine.Prelude.Text.{Text}
use logvine.Prelude.Utf8.{decode}
use logvine.Prelude.Result.{Result, ok, raise, Error}
use logvine.Json.{Json}
use logvine.Controller.{Reply, handle_request}
use logvine.StorageEngine.{StorageEngine}

-- What `readline` does: it gives a line, an empty one at the end of the connection, or raises.
pub data Input : Type 0 where
  line : Bytes → Input
  failed : Error → Input

-- What is written: a reply of the controller, or {"error": "..."} with the text of an exception.
pub data Written : Type 0 where
  reply : Reply → Written
  error_line : Error → Written

-- str.isspace, for one character
unfoldable pub is_blank : ℕ → Bool
is_blank c =
    (leb 9 c && leb c 13)
    || (leb 28 c && leb c 32)
    || nat_beq c 0x85
    || nat_beq c 0xA0
    || nat_beq c 0x1680
    || (leb 0x2000 c && leb c 0x200A)
    || nat_beq c 0x2028
    || nat_beq c 0x2029
    || nat_beq c 0x202F
    || nat_beq c 0x205F
    || nat_beq c 0x3000

unfoldable pub strip_start : Text → Text
strip_start [] = []
strip_start (c ∷ cs) = let rest = strip_start cs in if is_blank c then rest else c ∷ cs

abbrev with_end : ℕ → Text → Text
with_end c [] = if is_blank c then [] else c ∷ []
with_end c (d ∷ ds) = c ∷ d ∷ ds

unfoldable pub strip_end : Text → Text
strip_end [] = []
strip_end (c ∷ cs) = with_end c (strip_end cs)

-- text.strip()
unfoldable pub strip : Text → Text
strip text = strip_end (strip_start text)

-- What the controller wrote, and the line for an exception that leaves it.
unfoldable pub written {ℓ} : {S : Type ℓ} → Result (List Reply) × S → List Written × S
written (raise e, s) = (error_line e ∷ [], s)
written (ok replies, s) = (map reply replies, s)

-- `handle_client`, on an engine in state `S`; `loads` is `json.loads`, with `none` where it raises.
module _ {ℓ} {S : Type ℓ} ⦃engine : StorageEngine S⦄ (loads : Text → Option Json) where
  -- A turn of the loop on a line that is not empty.
  unfoldable pub handle_line : Bytes → S → List Written × S
  handle_line request_data s = elim (decode request_data) [
    | raise e ↦ (error_line e ∷ [], s)
    | ok text ↦ written (handle_request (loads (strip text)) s)
  ]

  -- The loop: it ends at an empty line or at an exception of `readline`, and the connection is closed.
  unfoldable pub handle_client : List Input → S → List Written × S
  handle_client [] s = ([], s)
  handle_client (failed e ∷ inputs) s = ([], s)
  handle_client (line [] ∷ inputs) s = ([], s)
  handle_client (line (b ∷ bs) ∷ inputs) s =
      let (first, s') = handle_line (b ∷ bs) s in
      let (rest, s'') = handle_client inputs s' in (first ++ rest, s'')
