-- ===== src/Value.antt =====
-- JavaScript values that cross JSON boundaries (`unknown` in packages/contracts and
-- packages/concord-core). Numbers are the non-negative integers that the registered facts carry.
use doc_eng_demo.Prelude.{
  ℕ, String, ◌≡◌, refl, ◌↔◌, Bool, true, false, ◌&&◌, Option, none, some, List, [], ◌∷◌, arith, eqb,
  eqb_iff, ◌==◌, eq_iff, eq_refl, and_true, if◌then◌else◌, ap,
}

mutual
  pub data Value : Type 0 where
    undefined : Value
    null : Value
    bool : Bool → Value
    num : ℕ → Value
    str : String → Value
    arr : Items → Value
    obj : Fields → Value

  pub data Items : Type 0 where
    no_items : Items
    item : Value → Items → Items

  pub data Fields : Type 0 where
    no_fields : Fields
    field : String → Value → Fields → Fields

abbrev pub same_bool : Bool → Bool → Bool
same_bool true b = b
same_bool false true = false
same_bool false false = true

-- `JSON.stringify(a) === JSON.stringify(b)`: the text determines the value, the order of an
-- object's fields included.
unfoldable mutual
  pub same_json : Value → Value → Bool
  same_json undefined undefined = true
  same_json null null = true
  same_json (bool a) (bool b) = same_bool a b
  same_json (num m) (num n) = eqb m n
  same_json (str s) (str t) = s == t
  same_json (arr xs) (arr ys) = same_items xs ys
  same_json (obj fs) (obj gs) = same_fields fs gs
  same_json _ _ = false

  pub same_items : Items → Items → Bool
  same_items no_items no_items = true
  same_items (item v xs) (item w ys) = same_json v w && same_items xs ys
  same_items _ _ = false

  pub same_fields : Fields → Fields → Bool
  same_fields no_fields no_fields = true
  same_fields (field k v fs) (field j w gs) = k == j && (same_json v w && same_fields fs gs)
  same_fields _ _ = false

mutual
  unfolding same_json

  same_json_sound : (v w : Value) → same_json v w ≡ true → v ≡ w
  same_json_sound undefined undefined h = refl
  same_json_sound null null h = refl
  same_json_sound (bool a) (bool b) h = ground arith
  same_json_sound (num m) (num n) h = ap num ((eqb_iff m n).0 h)
  same_json_sound (str s) (str t) h = ap str ((eq_iff s t).0 h)
  same_json_sound (arr xs) (arr ys) h = ap arr (same_items_sound xs ys h)
  same_json_sound (obj fs) (obj gs) h = ap obj (same_fields_sound fs gs h)
  same_json_sound _ _ h = cc

  same_items_sound : (xs ys : Items) → same_items xs ys ≡ true → xs ≡ ys
  same_items_sound no_items no_items h = refl
  same_items_sound (item v xs) (item w ys) h =
      let (p, q) = and_true (same_json v w) (same_items xs ys) h in
      cc (same_json_sound v w p, same_items_sound xs ys q)
  same_items_sound _ _ h = cc

  same_fields_sound : (fs gs : Fields) → same_fields fs gs ≡ true → fs ≡ gs
  same_fields_sound no_fields no_fields h = refl
  same_fields_sound (field k v fs) (field j w gs) h =
      let (p, q) = and_true (k == j) (same_json v w && same_fields fs gs) h in
      let (q, r) = and_true (same_json v w) (same_fields fs gs) q in
      cc ((eq_iff k j).0 p, same_json_sound v w q, same_fields_sound fs gs r)
  same_fields_sound _ _ h = cc

mutual
  unfolding same_json

  pub same_json_refl : (v : Value) → same_json v v ≡ true
  same_json_refl undefined = refl
  same_json_refl null = refl
  same_json_refl (bool true) = refl
  same_json_refl (bool false) = refl
  same_json_refl (num m) = (eqb_iff m m).1 refl
  same_json_refl (str s) = eq_refl s
  same_json_refl (arr xs) = same_items_refl xs
  same_json_refl (obj fs) = same_fields_refl fs

  same_items_refl : (xs : Items) → same_items xs xs ≡ true
  same_items_refl no_items = refl
  same_items_refl (item v xs) = rw (same_json_refl v) (same_items_refl xs)

  same_fields_refl : (fs : Fields) → same_fields fs fs ≡ true
  same_fields_refl no_fields = refl
  same_fields_refl (field k v fs) = rw (eq_refl k) (rw (same_json_refl v) (same_fields_refl fs))

-- Two values have one JSON text exactly when they are one value.
pub same_json_iff : (v w : Value) → (same_json v w ≡ true) ↔ (v ≡ w)
same_json_iff v w = (same_json_sound v w, λ e. rw e (same_json_refl w))

-- `a === b`. Objects are compared by reference, and the values compared here never share one.
unfoldable pub strict_eq : Value → Value → Bool
strict_eq undefined undefined = true
strict_eq null null = true
strict_eq (bool a) (bool b) = same_bool a b
strict_eq (num m) (num n) = eqb m n
strict_eq (str s) (str t) = s == t
strict_eq _ _ = false

pub strict_eq_sound : (v w : Value) → strict_eq v w ≡ true → v ≡ w
unfolding strict_eq
strict_eq_sound undefined undefined h = refl
strict_eq_sound null null h = refl
strict_eq_sound (bool a) (bool b) h = ground arith
strict_eq_sound (num m) (num n) h = ap num ((eqb_iff m n).0 h)
strict_eq_sound (str s) (str t) h = ap str ((eq_iff s t).0 h)
strict_eq_sound _ _ h = cc

-- The field `k` of an object, where present.
pub lookup_field : String → Fields → Option Value
lookup_field k no_fields = none
lookup_field k (field j v fs) = if j == k then some v else lookup_field k fs

-- `v?.k`, which is undefined on every value without that field.
unfoldable pub get_field : String → Value → Value
unfolding lookup_field
get_field k (obj fs) = elim (lookup_field k fs) [ none ↦ undefined | some v ↦ v ]
get_field k _ = undefined

to_list : Items → List Value
to_list no_items = []
to_list (item v ys) = v ∷ to_list ys

-- `v ?? []`, for a value that the source reads as an array.
unfoldable pub items_of : Value → List Value
unfolding to_list
items_of (arr xs) = to_list xs
items_of _ = []

-- A value that the source reads as a text.
unfoldable pub text_of : Value → Option String
text_of (str s) = some s
text_of _ = none

-- `v == null`
abbrev pub is_nullish : Value → Bool
is_nullish undefined = true
is_nullish null = true
is_nullish _ = false
