-- ===== src/Serializers/Kwargs.antt =====
-- `serialize_kwargs` and its screens, `deserialize_kwargs` and `restore_user`.
use django_logic.Prelude.{
  Bool, true, false, ◌&&◌, ◌||◌, not, Option, none, some, List, [], ◌∷◌, ◌++◌, any, leb, ◌==◌,
  if◌then◌else◌,
}
use django_logic.Errors.{type_error, kwargs_serialization_error, attribute_error, does_not_exist}
use django_logic.Exec.{Result, ok, err}
use django_logic.Results.{◌>>=◌, ◌>>◌, refuse_if}
use django_logic.Values.{
  Text, codes, Float, finite, Value, null, bool, int, float, text, list, tuple, set, frozenset,
  dict, Values, nil, cons, Entries, end, entry, is_null, get, has, pop, put,
}
use django_logic.Serializers.{Python, encode_value, decode_value}

abbrev pub request_key : Text
request_key = codes "request"

abbrev pub user_id_key : Text
user_id_key = codes "user_id"

abbrev pub user_key : Text
user_key = codes "user"

abbrev pub context_key : Text
context_key = codes "context"

abbrev pub owner_key : Text
owner_key = codes "owning_process_class"

-- `_CONTEXT_KEYS`
abbrev pub tr_id_key : Text
tr_id_key = codes "tr_id"

abbrev pub root_id_key : Text
root_id_key = codes "root_id"

abbrev pub parent_id_key : Text
parent_id_key = codes "parent_id"

-- `_non_string_key_paths`, as the keys that it finds.
unfoldable mutual
  pub non_string_keys : Value → List Value
  non_string_keys (dict es) = non_string_keys_of es
  non_string_keys (list vs) = non_string_keys_in vs
  non_string_keys (tuple vs) = non_string_keys_in vs
  non_string_keys (set vs) = non_string_keys_in vs
  non_string_keys (frozenset vs) = non_string_keys_in vs
  non_string_keys _ = []

  pub non_string_keys_in : Values → List Value
  non_string_keys_in nil = []
  non_string_keys_in (cons v vs) = non_string_keys v ++ non_string_keys_in vs

  pub non_string_keys_of : Entries → List Value
  non_string_keys_of end = []
  non_string_keys_of (entry (text s) v es) = non_string_keys v ++ non_string_keys_of es
  non_string_keys_of (entry k v es) = k ∷ non_string_keys v ++ non_string_keys_of es

-- A NUL, or a surrogate, which `encode('utf-8')` refuses.
abbrev pub is_unstorable : Text → Bool
is_unstorable = any (λ c. (c == 0) || (leb 0xd800 c && leb c 0xdfff))

-- `_unstorable_text_paths`, as the texts that it finds.
unfoldable mutual
  pub unstorable_texts : Value → List Text
  unstorable_texts (text s) = if is_unstorable s then s ∷ [] else []
  unstorable_texts (dict es) = unstorable_texts_of es
  unstorable_texts (list vs) = unstorable_texts_in vs
  unstorable_texts (tuple vs) = unstorable_texts_in vs
  unstorable_texts (set vs) = unstorable_texts_in vs
  unstorable_texts (frozenset vs) = unstorable_texts_in vs
  unstorable_texts _ = []

  pub unstorable_texts_in : Values → List Text
  unstorable_texts_in nil = []
  unstorable_texts_in (cons v vs) = unstorable_texts v ++ unstorable_texts_in vs

  pub unstorable_texts_of : Entries → List Text
  unstorable_texts_of end = []
  unstorable_texts_of (entry k v es) =
      unstorable_texts k ++ (unstorable_texts v ++ unstorable_texts_of es)

-- What `json.dumps(…, allow_nan=False)` accepts; it raises `TypeError`, or `ValueError`, which the
-- code turns into `TypeError`.
abbrev pub is_finite : Float → Bool
is_finite (finite n) = true
is_finite _ = false

abbrev pub json_key : Value → Bool
json_key null = true
json_key (bool b) = true
json_key (int n) = true
json_key (float x) = is_finite x
json_key (text s) = true
json_key _ = false

unfoldable mutual
  pub json_accepts : Value → Bool
  json_accepts null = true
  json_accepts (bool b) = true
  json_accepts (int n) = true
  json_accepts (float x) = is_finite x
  json_accepts (text s) = true
  json_accepts (list vs) = json_accepts_all vs
  json_accepts (tuple vs) = json_accepts_all vs
  json_accepts (dict es) = json_accepts_entries es
  json_accepts _ = false

  pub json_accepts_all : Values → Bool
  json_accepts_all nil = true
  json_accepts_all (cons v vs) = json_accepts v && json_accepts_all vs

  pub json_accepts_entries : Entries → Bool
  json_accepts_entries end = true
  json_accepts_entries (entry k v es) = json_key k && (json_accepts v && json_accepts_entries es)

abbrev pub is_empty {ℓ} : {A : Type ℓ} → List A → Bool
is_empty [] = true
is_empty (x ∷ xs) = false

-- A reserved key that a caller passed: dropped, or refused under STRICT_KWARGS_SERIALIZATION.
unfoldable pub drop_reserved : Bool → Text → Entries → Result Entries
drop_reserved strict name out = do
  refuse_if (has name out && strict) kwargs_serialization_error
  ok (pop name out)

module _ (py : Python) where
  -- `user` becomes `user_id`, unless its `pk` is None.
  unfoldable pub put_user_id : Value → Entries → Entries
  put_user_id user out =
      if is_null user || is_null (py.pk user) then out else put user_id_key (py.pk user) out

  unfoldable pub swap_user : Entries → Entries
  unfolding put_user_id
  swap_user out = put_user_id (get user_key out) (pop user_key out)

  unfoldable pub stringify : Text → Entries → Entries
  stringify name out =
      if is_null (get name out) then out else put name (text (py.str (get name out))) out

  -- What is encoded, once the reserved keys are gone.
  unfoldable pub prepared : Entries → Entries
  unfolding stringify swap_user
  prepared out = stringify parent_id_key (
      stringify root_id_key (stringify tr_id_key (swap_user (pop owner_key (pop context_key out)))))

  -- The screens of the prepared arguments, and their encoding.
  unfoldable pub encode_screened : Bool → Value → Result Value
  encode_screened strict out = do
    refuse_if (not (is_empty (unstorable_texts out))) kwargs_serialization_error
    refuse_if (not (is_empty (non_string_keys out)) && strict) kwargs_serialization_error
    let encoded = encode_value py out
    refuse_if (not (json_accepts encoded)) type_error
    ok encoded

  -- `serialize_kwargs`
  unfoldable pub serialize_kwargs : Bool → Entries → Result Value
  unfolding drop_reserved
  serialize_kwargs strict kwargs = do
    out ← drop_reserved strict request_key kwargs
    out ← drop_reserved strict user_id_key out
    encode_screened strict (dict (prepared out))

  -- `restore_user`. `find_user` is `get(pk=user_id)`: it raises `DoesNotExist`, or another exception,
  -- which propagates.
  module _ (find_user : Value → Result Value) where
    abbrev pub user_found : Result Value → Entries → Result Entries
    user_found (ok user) kwargs = ok (put user_key user kwargs)
    user_found (err does_not_exist) kwargs = ok (put user_key null kwargs)
    user_found (err e) kwargs = err e

    unfoldable pub restore_user : Entries → Result Entries
    restore_user kwargs =
        if is_null (get user_id_key kwargs)
        then ok (pop user_id_key kwargs)
        else user_found (find_user (get user_id_key kwargs)) (pop user_id_key kwargs)

    -- The decoded row must be a dictionary: `.pop` of another value raises `AttributeError`.
    abbrev pub restore_decoded : Value → Result Entries
    restore_decoded (dict kwargs) = restore_user kwargs
    restore_decoded _ = err attribute_error

    -- `raw or {}`
    abbrev pub or_empty : Option Entries → Entries
    or_empty none = end
    or_empty (some raw) = raw

    -- `deserialize_kwargs`, of what the column holds.
    unfoldable pub deserialize_kwargs : Option Entries → Result Entries
    deserialize_kwargs raw = restore_decoded (decode_value py (dict (or_empty raw)))
