-- ===== src/Engine/Strict.antt =====
-- The pairs of a range read, in the order of their keys, are determined by their lookups.
use logvine.Prelude.{
  ◌≡◌, refl, sym, ◌∙◌, true, Option, none, some, [], ◌∷◌, arith, All, All-implies, inl, inr, ◌==◌,
  Bool-cases, subst, ==_refl,
}
use logvine.Prelude.Bytes.{
  Bytes, bytes_eq, bytes_lt, bytes_lt_irrefl, bytes_lt_trans, bytes_lt_total, bytes_beq_iff,
}
use logvine.Prelude.Dict
use logvine.Prelude.Dict.{Dict, keys, IsDistinct}
use logvine.SsTable.Items.{IsStrict}
use logvine.StorageEngine.Dictionary.{Dictionary}

get-above :
    (j : Bytes) (d : Dictionary) → All (λ i. bytes_lt j i ≡ true) (keys d) → Dict.get j d ≡ none
unfolding Dict.get
get-above j [] h = refl
get-above j ((i, v) ∷ d) h =
    ground (arith, get-above j d h.1, bytes_lt_irrefl j, bytes_beq_iff i j, h.0)

get-first : (j v : Bytes) (d : Dictionary) → Dict.get j ((j, v) ∷ d) ≡ some v
unfolding Dict.get
get-first j v d = rw (==_refl j) refl

get-below :
    (j k w : Bytes) (d : Dictionary)
    → bytes_lt j k ≡ true
    → IsStrict (k ∷ keys d)
    → Dict.get j ((k, w) ∷ d) ≡ none
get-below j k w d below up = get-above j ((k, w) ∷ d) (
  below,
  All-implies (λ i. bytes_lt k i ≡ true) (λ i. bytes_lt j i ≡ true) (keys d)
      (λ i h. bytes_lt_trans j k i below h) up.0,
)

not_both : (v : Bytes) (o : Option Bytes) → o ≡ some v → o ≡ none → ⊥
not_both v o h g = ground arith

same_keys :
    (j k : Bytes) (v w : Bytes) (xs ys : Dictionary)
    → IsStrict (j ∷ keys xs)
    → IsStrict (k ∷ keys ys)
    → ((i : Bytes) → Dict.get i ((j, v) ∷ xs) ≡ Dict.get i ((k, w) ∷ ys))
    → j ≡ k
same_keys j k v w xs ys hx hy same = elim (Bool-cases (bytes_lt j k)) [
  | inl below ↦
      absurd (not_both v _ (sym (same j) ∙ get-first j v xs) (get-below j k w ys below hy))
  | inr above ↦ elim (Bool-cases (bytes_lt k j)) [
    | inl below ↦ absurd (not_both w _ (same k ∙ get-first k w ys) (get-below k j v xs below hx))
    | inr above' ↦ bytes_lt_total j k above above'
  ]
]

same_tails :
    (j v w : Bytes) (xs ys : Dictionary)
    → IsStrict (j ∷ keys xs)
    → IsStrict (j ∷ keys ys)
    → ((i : Bytes) → Dict.get i ((j, v) ∷ xs) ≡ Dict.get i ((j, w) ∷ ys))
    → (i : Bytes) → Dict.get i xs ≡ Dict.get i ys
unfolding Dict.get
same_tails j v w xs ys hx hy same i = elim (Bool-cases (j == i)) [
  | inl q ↦
      let j_is = (bytes_beq_iff j i).0 q in
      get-above i xs (subst (λ (k : Bytes). All (λ l. bytes_lt k l ≡ true) (keys xs)) j_is hx.0)
      ∙ sym (
          get-above i ys
            (subst (λ (k : Bytes). All (λ l. bytes_lt k l ≡ true) (keys ys)) j_is hy.0))
  | inr q ↦ ground (arith, same i)
]

-- Pairs in the order of their keys are determined by the lookups.
pub strict_unique :
    (xs ys : Dictionary)
    → IsStrict (keys xs)
    → IsStrict (keys ys)
    → ((j : Bytes) → Dict.get j xs ≡ Dict.get j ys)
    → xs ≡ ys
strict_unique [] [] hx hy same = refl
strict_unique [] ((k, w) ∷ ys) hx hy same =
    absurd (not_both w _ (same k ∙ get-first k w ys) (unfold Dict.get in refl))
strict_unique ((j, v) ∷ xs) [] hx hy same =
    absurd (not_both v _ (sym (same j) ∙ get-first j v xs) (unfold Dict.get in refl))
strict_unique ((j, v) ∷ xs) ((k, w) ∷ ys) hx hy same =
    let keys_are = same_keys j k v w xs ys hx hy same in
    let hy' = subst (λ (i : Bytes). IsStrict (i ∷ keys ys)) (sym keys_are) hy in
    let same' =
      subst (λ (i : Bytes). (l : Bytes) → Dict.get l ((j, v) ∷ xs) ≡ Dict.get l ((i, w) ∷ ys))
        (sym keys_are) same in
    let values : some v ≡ some w = sym (get-first j v xs) ∙ same' j ∙ get-first j w ys in
    let tails = strict_unique xs ys hx.1 hy.1 (same_tails j v w xs ys hx hy' same') in ground arith
