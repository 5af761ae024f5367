-- ===== src/Serializers/Json.antt =====
-- Which values enqueue can store: `json.dumps` accepts the encoding of exactly those.
use django_logic.Prelude.{◌≡◌, refl, ap₂, Bool, true, false, ◌&&◌, Bool-cases, inl, inr}
use django_logic.Values.{
  Value, null, bool, int, float, text, library, opaque, list, tuple, set, frozenset, dict, Values,
  nil, cons, Entries, end, entry, has,
}
use django_logic.Serializers.{Python, type_tag, encode_value, encode_values, encode_entries}
use django_logic.Serializers.Kwargs.{
  json_accepts, json_accepts_all, json_accepts_entries, json_key, is_finite,
}

-- No arbitrary object, no float that is not finite, and keys that JSON can print, at any depth.
mutual
  pub is_serializable : Value → Bool
  is_serializable (opaque n) = false
  is_serializable (float x) = is_finite x
  is_serializable (list vs) = all_serializable vs
  is_serializable (tuple vs) = all_serializable vs
  is_serializable (set vs) = all_serializable vs
  is_serializable (frozenset vs) = all_serializable vs
  is_serializable (dict es) = serializable_entries es
  is_serializable _ = true

  pub all_serializable : Values → Bool
  all_serializable nil = true
  all_serializable (cons v vs) = is_serializable v && all_serializable vs

  pub serializable_entries : Entries → Bool
  serializable_entries end = true
  serializable_entries (entry k v es) = json_key k && (is_serializable v && serializable_entries es)

and_true : (b : Bool) → (b && true) ≡ b
and_true true = refl
and_true false = refl

module _ (py : Python) where
  mutual
    unfolding json_accepts encode_value is_serializable

    accepts-encode_value : (v : Value) → json_accepts (encode_value py v) ≡ is_serializable v
    accepts-encode_value null = refl
    accepts-encode_value (bool b) = refl
    accepts-encode_value (int n) = refl
    accepts-encode_value (float x) = refl
    accepts-encode_value (text s) = refl
    accepts-encode_value (library k n) = refl
    accepts-encode_value (opaque n) = refl
    accepts-encode_value (list vs) = accepts-encode_values vs
    accepts-encode_value (tuple vs) = rw (accepts-encode_values vs) (and_true (all_serializable vs))
    accepts-encode_value (set vs) = rw (accepts-encode_values vs) (and_true (all_serializable vs))
    accepts-encode_value (frozenset vs) =
        rw (accepts-encode_values vs) (and_true (all_serializable vs))
    accepts-encode_value (dict es) = elim (Bool-cases (has type_tag es)) [
      | inl b ↦ rw (b, accepts-encode_entries es) (and_true (serializable_entries es))
      | inr b ↦ rw (b, accepts-encode_entries es) refl
    ]

    accepts-encode_values :
        (vs : Values) → json_accepts_all (encode_values py vs) ≡ all_serializable vs
    accepts-encode_values nil = refl
    accepts-encode_values (cons v vs) = ap₂ ◌&&◌ (accepts-encode_value v) (accepts-encode_values vs)

    accepts-encode_entries :
        (es : Entries) → json_accepts_entries (encode_entries py es) ≡ serializable_entries es
    accepts-encode_entries end = refl
    accepts-encode_entries (entry k v es) =
        ap₂ (λ a b. json_key k && (a && b)) (accepts-encode_value v) (accepts-encode_entries es)

  -- `json.dumps` accepts the encoding of a value exactly where the value holds, at any
  -- depth, no arbitrary object, no float that is not finite, and only dictionary keys that
  -- JSON prints.
  pub accepts-encode : (v : Value) → json_accepts (encode_value py v) ≡ is_serializable v
  accepts-encode = accepts-encode_value
