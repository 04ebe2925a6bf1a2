-- ===== src/Controller/Refines.antt =====
-- The controller of src/controller.py on the engine, against the same controller on a dictionary.
use logvine.Prelude.{◌≡◌, refl, ap, ◌∙◌, Bool, true, false, Option, some, List}
use logvine.Prelude.Bytes.{Bytes}
use logvine.Prelude.{◌==◌, Bool-cases, inl, inr, subst}
use logvine.Prelude.Bytes.{bytes_eq}
use logvine.Prelude.Text.{Text}
use logvine.Prelude.Result.{Result, ok, raise, Error, ◌>>=◌}
use logvine.Json.{Json}
use logvine.Operations.{
  Operation, put, get, delete, read_key_range, batch_put, Outcome, answer, iterator, value_read,
  from_json, execute, then_return,
}
use logvine.Operations.Keys.{HasByteKeys, from_json-HasByteKeys}
use logvine.Controller.{except_reply, stream_response, answered, handled, handle_request}
use logvine.Engine.{Engine}
use logvine.Engine.Lsm.{lsm_engine}
use logvine.MemTable.{tombstone}
use logvine.Prelude.Order.{contains}
use logvine.Engine
use logvine.Engine.Erasing.{
  store_erasing, store_all_erasing, store_erasing-set, store_all_erasing-store_all,
}
use logvine.Engine.Holds.{
  Holds, Written, taken, raised, put-Written, delete-Written, batch_put-Written, get-lookup,
  read_key_range-sorted,
}
use logvine.StorageEngine.Dictionary.{Dictionary, dictionary_engine}

-- The operations that change the engine.
unfoldable pub is_write : Operation → Bool
is_write (put key value) = true
is_write (get key) = false
is_write (delete key) = true
is_write (read_key_range start_key end_key) = false
is_write (batch_put keys values) = true

-- The puts of a value that is the bytes of the tombstone.
unfoldable pub writes_tombstone : Operation → Bool
writes_tombstone (put key value) = value == tombstone
writes_tombstone (get key) = false
writes_tombstone (delete key) = false
writes_tombstone (read_key_range start_key end_key) = false
writes_tombstone (batch_put keys values) = contains tombstone values

-- The contents after such a put: its keys with these bytes are taken away.
unfoldable pub erased : Operation → Dictionary → Dictionary
erased (put key value) d = store_erasing key value d
erased (get key) d = d
erased (delete key) d = d
erased (read_key_range start_key end_key) d = d
erased (batch_put keys values) d = store_all_erasing keys values d

-- What an engine gave for an operation against what the dictionary gave: the replies are the same and
-- the engine has the dictionary's contents; or the operation puts the bytes of the tombstone, the
-- replies are the same, and the engine has these keys taken away; or it is a write that the engine
-- refused with an exception, and the engine has the contents `d` of before.
data Agrees (operation : Operation) (d : Dictionary) (now : Result Outcome × Engine)
    (ideal : Result Outcome × Dictionary) : Type 0 where
  same :
      (answered operation now).0 ≡ (answered operation ideal).0
      → Holds now.1 ideal.1
      → Agrees operation d now ideal
  erases :
      writes_tombstone operation ≡ true
      → (answered operation now).0 ≡ (answered operation ideal).0
      → Holds now.1 (erased operation d)
      → Agrees operation d now ideal
  refused :
      (e : Error)
      → is_write operation ≡ true
      → now.0 ≡ raise e
      → Holds now.1 d
      → Agrees operation d now ideal

written-Agrees :
    (operation : Operation) (text : Text) (d d' : Dictionary) (r : Result (Unit {0}) × Engine)
    → is_write operation ≡ true
    → Written d d' r
    → Agrees operation d (then_return text r) (then_return text (ok tt, d'))
unfolding answered
written-Agrees operation text d d' _ w (taken s' h) = same refl h
written-Agrees operation text d d' _ w (raised e s' h) = refused e w refl h

written-erases :
    (operation : Operation) (text : Text) (d d' : Dictionary) (r : Result (Unit {0}) × Engine)
    → is_write operation ≡ true
    → writes_tombstone operation ≡ true
    → Written d (erased operation d) r
    → Agrees operation d (then_return text r) (then_return text (ok tt, d'))
unfolding answered
written-erases operation text d d' _ w t (taken s' h) = erases t refl h
written-erases operation text d d' _ w t (raised e s' h) = refused e w refl h

-- The replies are given by the outcome.
answered-outcome :
    {S T : Type 0} (operation : Operation) (r : Result Outcome) (s : S) (u : T)
    → (answered operation (r, s)).0 ≡ (answered operation (r, u)).0
unfolding answered
answered-outcome operation (raise e) s u = refl
answered-outcome operation (ok (answer a)) s u = refl
answered-outcome operation (ok (iterator start_key end_key pairs)) s u = refl

execute-Agrees :
    (operation : Operation) (s : Engine) (d : Dictionary)
    → HasByteKeys operation
    → Holds s d
    → Agrees operation d (execute operation s) (execute operation d)
unfolding execute is_write writes_tombstone erased
execute-Agrees (put key value) s d is h = elim (Bool-cases (value == tombstone)) [
  | inl t ↦ written-erases (put key value) _ d _ _ refl t (put-Written s d h key value is)
  | inr plain ↦ written-Agrees (put key value) _ d _ _ refl (
      subst (λ (d' : Dictionary). Written d d' (Engine.put key value s))
        (store_erasing-set key value d plain) (put-Written s d h key value is))
]
execute-Agrees (get key) s d is h =
    same
      (ap (λ (r : Result Bytes). (answered (get key) ((do v ← r; ok (answer (value_read v))), s)).0)
          (get-lookup s d h key)
        ∙ answered-outcome (get key) _ s d)
      h
execute-Agrees (delete key) s d is h =
    written-Agrees (delete key) _ d _ _ refl (delete-Written s d h key is)
execute-Agrees (read_key_range start_key end_key) s d is h =
    same
      (unfold answered in
        ap (λ (r : Result (List (Bytes × Bytes))). ok (stream_response start_key end_key r))
          (read_key_range-sorted s d h start_key end_key))
      h
execute-Agrees (batch_put keys values) s d is h = elim (Bool-cases (contains tombstone values)) [
  | inl t ↦
      written-erases (batch_put keys values) _ d _ _ refl t (batch_put-Written s d h keys values is)
  | inr plain ↦ written-Agrees (batch_put keys values) _ d _ _ refl (
      subst (λ (d' : Dictionary). Written d d' (Engine.batch_put keys values s))
        (store_all_erasing-store_all keys values d plain) (batch_put-Written s d h keys values is))
]

-- How the controller on an engine handles a request, and the controller on a dictionary.
pub data Handles (request : Option Json) (s : Engine) (d : Dictionary) : Type 0 where
  as_dictionary :
      (handle_request request s).0 ≡ (handle_request request d).0
      → Holds (handle_request request s).1 (handle_request request d).1
      → Handles request s d
  tombstone_put :
      (operation : Operation)
      → from_json request ≡ ok operation
      → writes_tombstone operation ≡ true
      → (handle_request request s).0 ≡ (handle_request request d).0
      → Holds (handle_request request s).1 (erased operation d)
      → Handles request s d
  write_refused :
      (operation : Operation) (e : Error)
      → from_json request ≡ ok operation
      → is_write operation ≡ true
      → (execute operation s).0 ≡ raise e
      → (handle_request request s).0 ≡ except_reply (some operation) e
      → Holds (handle_request request s).1 d
      → Handles request s d

answered-state :
    {S : Type 0} (operation : Operation) (r : Result Outcome × S) → (answered operation r).1 ≡ r.1
unfolding answered
answered-state operation (raise e, s) = refl
answered-state operation (ok (answer a), s) = refl
answered-state operation (ok (iterator start_key end_key pairs), s) = refl

answered-raise :
    {S : Type 0} (operation : Operation) (e : Error) (r : Result Outcome × S)
    → r.0 ≡ raise e
    → (answered operation r).0 ≡ except_reply (some operation) e
unfolding answered
answered-raise operation e (a, s) h = rw h refl

handled-Handles :
    (request : Option Json) (parsed : Result Operation) (s : Engine) (d : Dictionary)
    → from_json request ≡ parsed
    → Holds s d
    → Handles request s d
unfolding handle_request handled
handled-Handles request (raise e) s d p h = as_dictionary (rw p refl) (rw p h)
handled-Handles request (ok operation) s d p h =
    elim (execute-Agrees operation s d (from_json-HasByteKeys request operation p) h) [
      | same replies holds ↦ as_dictionary (rw p replies) (
          rw
            (
              p,
              answered-state operation (execute operation s),
              answered-state operation (execute operation d),
            )
            holds)
      | erases t replies holds ↦
          tombstone_put operation p t (rw p replies)
            (rw (p, answered-state operation (execute operation s)) holds)
      | refused e w raises holds ↦
          write_refused operation e p w raises
            (rw p (answered-raise operation e (execute operation s) raises))
            (rw (p, answered-state operation (execute operation s)) holds)
    ]

-- The controller on a healthy engine that has the contents of a dictionary handles any request as on
-- the dictionary: it gives the same replies, for a range the same stream, and the engine has the
-- dictionary's contents after it. Only a write can differ, in two ways. The engine can refuse it with
-- an exception: the reply is that of the exception, and the engine has the contents of before. And a
-- put, or a batch, of a value that is the bytes of the tombstone is answered as on the dictionary, but
-- takes the keys of these values away.
pub handle_request-Handles :
    (request : Option Json) (s : Engine) (d : Dictionary) → Holds s d → Handles request s d
handle_request-Handles request s d h = handled-Handles request (from_json request) s d refl h
