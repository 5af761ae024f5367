-- ===== src/Serializers/Tests.antt =====
-- Keyword arguments of every kind, coded and decoded.
use django_logic.Prelude.{ℕ, ◌≡◌, refl, Bool, true, false, Option, none, some, [], ◌∷◌, ◌==◌}
use django_logic.Errors.{kwargs_serialization_error, type_error}
use django_logic.Exec.{Result, ok, err}
use django_logic.Values.{
  Text, codes, pos, nan, LibraryKind, datetime, decimal, Value, null, int, float, text, library,
  opaque, tuple, set, dict, Values, nil, cons, Entries, end, entry, text_eq,
}
use django_logic.Serializers.{Python, type_tag, all_hashable, member, encode_value, decode_value}
use django_logic.Serializers.Kwargs.{
  user_key, user_id_key, request_key, json_accepts, serialize_kwargs, encode_screened, prepared,
  unstorable_texts, non_string_keys,
}
use django_logic.Serializers.RoundTrip.{IsFaithful, decode-encode}
use django_logic.Serializers.Json.{is_serializable, accepts-encode}
use django_logic.Serializers.Whole.{Column}

abbrev parse_one : LibraryKind → Value → Option ℕ
parse_one k (text (c ∷ [])) = some c
parse_one k _ = none

abbrev same_int : Value → Value → Bool
same_int (int (pos a)) (int (pos b)) = a == b
same_int _ _ = false

abbrev pk_of : Value → Value
pk_of (opaque n) = int (pos n)
pk_of _ = null

abbrev python : Python
python = record {
  print = λ k n. n ∷ [];
  parse = parse_one;
  same = same_int;
  str = λ v. codes "7";
  pk = pk_of;
}

abbrev ints : ℕ → ℕ → Values
ints a b = cons (int (pos a)) (cons (int (pos b)) nil)

-- A dictionary that has the tag as a key, with a set and a datetime inside.
abbrev nested : Value
nested = dict (
    entry (text type_tag) (set (ints 1 2))
      (entry (text (codes "when")) (tuple (cons (library datetime 5) nil)) end))

decode-encode_example : decode_value python (encode_value python nested) ≡ nested
unfolding IsFaithful all_hashable member
decode-encode_example =
    decode-encode python nested (((refl, (refl, (refl, tt))), (tt, (tt, tt))), ((refl, tt), tt))

accepts-encode_example : json_accepts (encode_value python nested) ≡ is_serializable nested
accepts-encode_example = accepts-encode python nested

abbrev amount_key : Text
amount_key = codes "amount"

abbrev arguments : Entries
arguments = entry (text user_key) (opaque 3) (
    entry (text request_key) (opaque 9) (
      entry (text amount_key) (library decimal 4) (entry (text (codes "tr_id")) (int (pos 7)) end)))

abbrev find_user : Value → Result Value
find_user pk = ok (opaque 3)

abbrev stored : Entries
stored =
    entry (text amount_key)
      (dict (
        entry (text type_tag) (text (codes "decimal"))
          (entry (text (codes "value")) (text (4 ∷ [])) end)))
      (entry (text (codes "tr_id")) (text (codes "7")) (entry (text user_id_key) (int (pos 3)) end))

-- STRICT_KWARGS_SERIALIZATION refuses the request.
strict_lem : serialize_kwargs python true arguments ≡ err kwargs_serialization_error
unfolding serialize_kwargs text_eq
strict_lem = refl

nan_lem : serialize_kwargs python true (entry (text amount_key) (float nan) end) ≡ err type_error
unfolding serialize_kwargs encode_screened prepared unstorable_texts non_string_keys encode_value
    json_accepts text_eq
nan_lem = refl

abbrev column : Column
column = record { load = λ es. es; keeps = λ es h. refl }

-- A payload that does not decode, and an unknown tag, are passed through.
bad_tuple : Value
bad_tuple = dict (entry (text type_tag) (text (codes "tuple")) end)

pass_through : decode_value python bad_tuple ≡ bad_tuple
unfolding decode_value text_eq bad_tuple
pass_through = refl
