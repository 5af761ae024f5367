-- ===== src/Serializers.antt =====
-- background/serializers.py: the keyword arguments of a background transition as a JSON column.
-- `Python` is what the code uses of the standard library on values that it does not look into, and
-- `find_user` is Django's lookup of a user.
pub mod Kwargs
pub mod RoundTrip
pub mod Json
pub mod Prepared
pub mod Whole
mod Tests
use django_logic.Prelude.{
  ℕ, Bool, true, false, ◌&&◌, ◌||◌, not, Option, none, some, List, [], ◌∷◌, ◌++◌, if◌then◌else◌,
}
use mathlib.Core.Option
use django_logic.Values.{
  Text, codes, ℤ, Float, finite, LibraryKind, datetime, date, time, decimal, uuid, Value, null,
  bool, int, float, text, library, opaque, list, tuple, set, frozenset, dict, Values, nil, cons,
  Entries, end, entry, is_text, is_null, get, has, pair,
}

-- `isoformat` and `str` print a library value, and the decoders (`fromisoformat`, `Decimal`, `UUID`)
-- read one or raise. `same` is `==` of two hashable values, `str` prints any value, and `pk` is
-- `getattr(user, 'pk', None)`.
pub record Python : Type 0 where
  pub print : LibraryKind → ℕ → Text
  pub parse : LibraryKind → Value → Option ℕ
  pub same : Value → Value → Bool
  pub str : Value → Text
  pub pk : Value → Value

abbrev pub type_tag : Text
type_tag = codes "__dl_type__"

abbrev pub payload_key : Text
payload_key = codes "value"

abbrev pub tuple_tag : Text
tuple_tag = codes "tuple"

abbrev pub set_tag : Text
set_tag = codes "set"

abbrev pub frozenset_tag : Text
frozenset_tag = codes "frozenset"

abbrev pub dict_tag : Text
dict_tag = codes "dict"

-- The keys of `_SCALAR_DECODERS`.
abbrev pub kind_tag : LibraryKind → Text
kind_tag datetime = codes "datetime"
kind_tag date = codes "date"
kind_tag time = codes "time"
kind_tag decimal = codes "decimal"
kind_tag uuid = codes "uuid"

-- `_SCALAR_DECODERS.get(tag)`
unfoldable pub scalar_decoder : Value → Option LibraryKind
scalar_decoder tag =
    if is_text (kind_tag datetime) tag
    then some datetime
    else if is_text (kind_tag date) tag
    then some date
    else if is_text (kind_tag time) tag
    then some time
    else if is_text (kind_tag decimal) tag
    then some decimal
    else if is_text (kind_tag uuid) tag
    then some uuid
    else none

-- `{TYPE_TAG: tag, 'value': v}`
abbrev pub tagged : Text → Value → Value
tagged tag v = pair type_tag (text tag) payload_key v

-- What `for v in inner` gives over a text.
abbrev pub characters : Text → Values
characters [] = nil
characters (c ∷ cs) = cons (text (c ∷ [])) (characters cs)

-- What `hash(v)` accepts.
unfoldable mutual
  pub hashable : Value → Bool
  hashable (list vs) = false
  hashable (set vs) = false
  hashable (dict es) = false
  hashable (tuple vs) = all_hashable vs
  hashable _ = true

  pub all_hashable : Values → Bool
  all_hashable nil = true
  all_hashable (cons v vs) = hashable v && all_hashable vs

module _ (py : Python) where
  -- `encode_value`
  unfoldable mutual
    pub encode_value : Value → Value
    encode_value (library k n) = tagged (kind_tag k) (text (py.print k n))
    encode_value (tuple vs) = tagged tuple_tag (list (encode_values vs))
    encode_value (frozenset vs) = tagged frozenset_tag (list (encode_values vs))
    encode_value (set vs) = tagged set_tag (list (encode_values vs))
    encode_value (dict es) =
        let encoded = dict (encode_entries es) in
        if has type_tag es then tagged dict_tag encoded else encoded
    encode_value (list vs) = list (encode_values vs)
    encode_value v = v

    pub encode_values : Values → Values
    encode_values nil = nil
    encode_values (cons v vs) = cons (encode_value v) (encode_values vs)

    pub encode_entries : Entries → Entries
    encode_entries end = end
    encode_entries (entry k v es) = entry k (encode_value v) (encode_entries es)

  -- `v in seen`, and the set that `{… for …}` builds: an element equal to an earlier one is dropped.
  unfoldable pub member : Value → Values → Bool
  member v nil = false
  member v (cons w seen) = py.same v w || member v seen

  unfoldable pub distinct_from : Values → Values → Values
  unfolding member
  distinct_from seen nil = nil
  distinct_from seen (cons v vs) =
      let kept = cons v (distinct_from (cons v seen) vs) in
      let dropped = distinct_from seen vs in if member v seen then dropped else kept

  unfoldable pub build_set : Values → Option Values
  unfolding hashable distinct_from
  build_set vs = if all_hashable vs then some (distinct_from nil vs) else none

  -- The cases on the tag. `raw` is the payload; `items` are the decoded values of a loop over it, and
  -- `fields` the decoded `inner.items()`, each where the payload has such. `none` is an exception or
  -- an unknown tag.
  unfoldable pub rebuild : Value → Value → Option Values → Option Entries → Option Value
  unfolding build_set scalar_decoder
  rebuild tag raw items fields =
      if is_text dict_tag tag
      then Option.map dict fields
      else if is_text tuple_tag tag
      then Option.map tuple items
      else if is_text set_tag tag
      then Option.map set (Option.bind items build_set)
      else if is_text frozenset_tag tag
      then Option.map frozenset (Option.bind items build_set)
      else Option.bind (scalar_decoder tag) (λ k. Option.map (library k) (py.parse k raw))

  abbrev pub or_raw : Value → Option Value → Value
  or_raw raw none = raw
  or_raw raw (some v) = v

  -- `decode_value`. Where the payload does not decode, the value is passed through.
  unfoldable mutual
    unfolding rebuild

    pub decode_value : Value → Value
    decode_value (list vs) = list (decode_values vs)
    decode_value (dict es) =
        let plain = dict (decode_entries es) in
        let decoded = or_raw (dict es) (decode_payload (get type_tag es) es) in
        if is_null (get type_tag es) then plain else decoded
    decode_value v = v

    pub decode_values : Values → Values
    decode_values nil = nil
    decode_values (cons v vs) = cons (decode_value v) (decode_values vs)

    pub decode_entries : Entries → Entries
    decode_entries end = end
    decode_entries (entry k v es) = entry k (decode_value v) (decode_entries es)

    -- The keys of a payload that is a dictionary, decoded.
    pub decode_keys : Entries → Values
    decode_keys end = nil
    decode_keys (entry k v es) = cons (decode_value k) (decode_keys es)

    -- The search for the payload, `value.get('value')`, and its decoding.
    pub decode_payload : Value → Entries → Option Value
    decode_payload tag end = rebuild tag null none none
    decode_payload tag (entry k v es) =
        let here = decode_tagged tag v in
        let there = decode_payload tag es in if is_text payload_key k then here else there

    pub decode_tagged : Value → Value → Option Value
    decode_tagged tag (list vs) = rebuild tag (list vs) (some (decode_values vs)) none
    decode_tagged tag (tuple vs) = rebuild tag (tuple vs) (some (decode_values vs)) none
    decode_tagged tag (set vs) = rebuild tag (set vs) (some (decode_values vs)) none
    decode_tagged tag (frozenset vs) = rebuild tag (frozenset vs) (some (decode_values vs)) none
    decode_tagged tag (text s) = rebuild tag (text s) (some (characters s)) none
    decode_tagged tag (dict es) =
        rebuild tag (dict es) (some (decode_keys es)) (some (decode_entries es))
    decode_tagged tag v = rebuild tag v none none
