-- ===== src/Engine/Collect.antt =====
-- The two loops of `read_key_range` of src/storage/engine.py: the first value that is seen of a key
-- counts, and a tombstone hides the key.
use logvine.Prelude.{
  ◌≡◌, refl, sym, ap, ◌∙◌, true, false, Option, none, some, List, [], ◌∷◌, arith, ◌==◌, Bool-cases,
  Option-cases, inl, inr, is_some, if◌then◌else◌, or_else,
}
use logvine.Prelude.Bytes.{Bytes, bytes_eq, bytes_beq_iff}
use logvine.Prelude.Order.{contains}
use logvine.Prelude.Dict
use logvine.Prelude.Dict.{Dict, IsDistinct, set-IsDistinct, get-set}
use logvine.MemTable.{tombstone}
use logvine.Engine.System.{shown}
use logvine.Engine.{collect}

abbrev pub Seen : Type 0
Seen = List Bytes × Dict Bytes Bytes

-- The keys that were seen, and the pairs that are not hidden, of a map from keys to values.
pub record Sees (f : Bytes → Option Bytes) (acc : Seen) : Type 0 where
  pub seen : (j : Bytes) → contains j acc.0 ≡ is_some (f j)
  pub reads : (j : Bytes) → Dict.get j acc.1 ≡ shown (f j)
  pub distinct : IsDistinct acc.1

-- The map with one pair more, where the key is new.
abbrev with_pair : Bytes → Bytes → (Bytes → Option Bytes) → Bytes → Option Bytes
with_pair key value f j = or_else (f j) (if key == j then some value else none)

-- One turn of the loop.
abbrev taken : Bytes → Bytes → Seen → Seen
taken key value (seen, result) =
    if contains key seen
    then (seen, result)
    else (key ∷ seen, if value == tombstone then result else Dict.set key value result)

known-pair :
    (f : Bytes → Option Bytes) (key value : Bytes) (j : Bytes)
    → is_some (f key) ≡ true
    → with_pair key value f j ≡ f j
known-pair f key value j h = elim (Bool-cases (key == j)) [
  | inr q ↦ elim (Option-cases (f j)) [ inl e ↦ rw (e, q) refl | inr (v, e) ↦ rw e refl ]
  | inl q ↦ elim (Option-cases (f j)) [
    | inr (v, e) ↦ rw e refl
    | inl e ↦
        let none_there : f key ≡ none = ap f ((bytes_beq_iff key j).0 q) ∙ e in
        absurd (ground (arith, h))
  ]
]

or_else-none : (o : Option Bytes) → or_else o none ≡ o
or_else-none none = refl
or_else-none (some v) = refl

absent_at :
    (f : Bytes → Option Bytes) (key j : Bytes)
    → is_some (f key) ≡ false
    → (key == j) ≡ true
    → f j ≡ none
absent_at f key j h q = elim (Option-cases (f j)) [
  | inl e ↦ e
  | inr (v, e) ↦
      let there : f key ≡ some v = ap f ((bytes_beq_iff key j).0 q) ∙ e in absurd (ground arith)
]

new-pair :
    (f : Bytes → Option Bytes) (key value : Bytes) (seen : List Bytes) (result : Dict Bytes Bytes)
    → is_some (f key) ≡ false
    → Sees f (seen, result)
    → Sees
        (with_pair key value f)
        (key ∷ seen, if value == tombstone then result else Dict.set key value result)
unfolding contains shown
new-pair f key value seen result new s = record {
  seen = λ j. elim (Bool-cases (key == j)) [
    | inl q ↦ rw (q, absent_at f key j new q) refl
    | inr q ↦ rw (q, or_else-none (f j)) (s.seen j)
  ];
  reads = λ j. elim (Bool-cases (key == j)) [
    | inl q ↦
        rw (q, absent_at f key j new q)
          (elim (Bool-cases (value == tombstone)) [
            | inl t ↦ rw t (s.reads j ∙ ap shown (absent_at f key j new q))
            | inr t ↦ rw t (get-set key j value result ∙ rw q refl)
          ])
    | inr q ↦
        rw (q, or_else-none (f j))
          (elim (Bool-cases (value == tombstone)) [
            | inl t ↦ rw t (s.reads j)
            | inr t ↦ rw t (get-set key j value result ∙ rw q (s.reads j))
          ])
  ];
  distinct = elim (Bool-cases (value == tombstone)) [
    | inl q ↦ rw q s.distinct
    | inr q ↦ rw q (set-IsDistinct key value result s.distinct)
  ];
}

taken-Sees :
    (f : Bytes → Option Bytes) (key value : Bytes) (acc : Seen)
    → Sees f acc
    → Sees (with_pair key value f) (taken key value acc)
taken-Sees f key value (seen, result) s = elim (Bool-cases (contains key seen)) [
  | inl old ↦
      let known : is_some (f key) ≡ true = sym (s.seen key) ∙ old in
      rw old (record {
        seen = λ j. s.seen j ∙ ap is_some (sym (known-pair f key value j known));
        reads = λ j. s.reads j ∙ ap shown (sym (known-pair f key value j known));
        distinct = s.distinct;
      })
  | inr new ↦ rw new (new-pair f key value seen result (sym (s.seen key) ∙ new) s)
]

or_else_assoc : (a b c : Option Bytes) → or_else (or_else a b) c ≡ or_else a (or_else b c)
or_else_assoc none b c = refl
or_else_assoc (some v) b c = refl

-- A map that agrees everywhere serves as well.
pub same-Sees :
    (f g : Bytes → Option Bytes) (acc : Seen) → ((j : Bytes) → f j ≡ g j) → Sees f acc → Sees g acc
same-Sees f g acc same s = record {
  seen = λ j. s.seen j ∙ ap is_some (same j);
  reads = λ j. s.reads j ∙ ap shown (same j);
  distinct = s.distinct;
}

-- The loop adds what the pairs have at keys that were not seen.
pub collect-Sees :
    (f : Bytes → Option Bytes) (pairs : List (Bytes × Bytes)) (acc : Seen)
    → Sees f acc
    → Sees (λ j. or_else (f j) (Dict.get j pairs)) (collect pairs acc)
unfolding collect Dict.get
collect-Sees f [] acc s =
    same-Sees f (λ j. or_else (f j) none) acc (λ j. sym (or_else-none (f j))) s
collect-Sees f ((key, value) ∷ pairs) (seen, result) s =
    same-Sees (λ j. or_else (with_pair key value f j) (Dict.get j pairs))
      (λ j. or_else (f j) (Dict.get j ((key, value) ∷ pairs)))
      (collect pairs (taken key value (seen, result)))
      (λ j.
        or_else_assoc (f j) (if key == j then some value else none) (Dict.get j pairs)
        ∙ ground arith)
      (collect-Sees (with_pair key value f) pairs (taken key value (seen, result))
        (taken-Sees f key value (seen, result) s))
