-- ===== src/Serializers/RoundTrip.antt =====
-- What the worker decodes is what the caller passed.
use django_logic.Prelude.{ℕ, ◌≡◌, refl, ap, ap₂, true, false, none, some, Bool-cases, inl, inr}
use mathlib.Core.Option
use django_logic.Values.{
  LibraryKind, datetime, date, time, decimal, uuid, Value, null, bool, int, float, text, library,
  opaque, list, tuple, set, frozenset, dict, Values, nil, cons, Entries, end, entry, text_eq,
  is_text, find_entry, has,
}
use django_logic.Serializers.{
  Python, type_tag, kind_tag, tagged, scalar_decoder, all_hashable, encode_value, encode_values,
  encode_entries, decode_values, decode_entries, member, distinct_from, build_set, decode_value,
}

scalar_decoder-kind_tag : (k : LibraryKind) → scalar_decoder (text (kind_tag k)) ≡ some k
unfolding scalar_decoder text_eq
scalar_decoder-kind_tag datetime = refl
scalar_decoder-kind_tag date = refl
scalar_decoder-kind_tag time = refl
scalar_decoder-kind_tag decimal = refl
scalar_decoder-kind_tag uuid = refl

module _ (py : Python) where
  -- No element equals an earlier one or one of `seen`: what a Python set keeps.
  abbrev pub AllNew : Values → Values → Type 0
  AllNew seen nil = Unit
  AllNew seen (cons v vs) = (member py v seen ≡ false) × AllNew (cons v seen) vs

  abbrev pub IsPythonSet : Values → Type 0
  IsPythonSet vs = (all_hashable vs ≡ true) × AllNew nil vs

  -- A library value whose text reads back as itself, which excludes a `ZoneInfo` and a `fold`.
  abbrev pub ReadsBack : LibraryKind → ℕ → Type 0
  ReadsBack k n = py.parse k (text (py.print k n)) ≡ some n

  unfoldable mutual
    -- What holds of every Python value, and that its library values read back.
    pub IsFaithful : Value → Type 0
    IsFaithful (library k n) = ReadsBack k n
    IsFaithful (list vs) = AllFaithful vs
    IsFaithful (tuple vs) = AllFaithful vs
    IsFaithful (set vs) = IsPythonSet vs × AllFaithful vs
    IsFaithful (frozenset vs) = IsPythonSet vs × AllFaithful vs
    IsFaithful (dict es) = FaithfulEntries es
    IsFaithful _ = Unit

    pub AllFaithful : Values → Type 0
    AllFaithful nil = Unit
    AllFaithful (cons v vs) = IsFaithful v × AllFaithful vs

    pub FaithfulEntries : Entries → Type 0
    FaithfulEntries end = Unit
    FaithfulEntries (entry k v es) = IsFaithful v × FaithfulEntries es

  distinct_from-AllNew : (seen vs : Values) → AllNew seen vs → distinct_from py seen vs ≡ vs
  unfolding distinct_from
  distinct_from-AllNew seen nil h = refl
  distinct_from-AllNew seen (cons v vs) h =
      rw h.0 (ap (cons v) (distinct_from-AllNew (cons v seen) vs h.1))

  build_set-IsPythonSet : (vs : Values) → IsPythonSet vs → build_set py vs ≡ some vs
  unfolding build_set
  build_set-IsPythonSet vs h = rw (h.0, distinct_from-AllNew nil vs h.1) refl

  find_entry-encode_entries :
      (es : Entries) → has type_tag es ≡ false → find_entry type_tag (encode_entries py es) ≡ none
  unfolding encode_value
  find_entry-encode_entries end e = refl
  find_entry-encode_entries (entry k v es) e = elim (Bool-cases (is_text type_tag k)) [
    | inl b ↦ cc (rw b at e)
    | inr b ↦ rw b (find_entry-encode_entries es (rw b at e))
  ]

  decode-library :
      (k : LibraryKind) (n : ℕ)
      → ReadsBack k n
      → decode_value py (tagged (kind_tag k) (text (py.print k n))) ≡ library k n
  unfolding decode_value text_eq Option.bind
  decode-library datetime n h = rw h refl
  decode-library date n h = rw h refl
  decode-library time n h = rw h refl
  decode-library decimal n h = rw h refl
  decode-library uuid n h = rw h refl

  mutual
    unfolding encode_value decode_value IsFaithful text_eq Option.bind

    decode-encode_value : (v : Value) → IsFaithful v → decode_value py (encode_value py v) ≡ v
    decode-encode_value (library k n) h = decode-library k n h
    decode-encode_value (list vs) h = ap list (decode-encode_values vs h)
    decode-encode_value (tuple vs) h = ap tuple (decode-encode_values vs h)
    decode-encode_value (set vs) h =
        rw (decode-encode_values vs h.1, build_set-IsPythonSet vs h.0) refl
    decode-encode_value (frozenset vs) h =
        rw (decode-encode_values vs h.1, build_set-IsPythonSet vs h.0) refl
    decode-encode_value (dict es) h = elim (Bool-cases (has type_tag es)) [
      | inl b ↦ rw b (ap dict (decode-encode_entries es h))
      | inr b ↦ rw (b, find_entry-encode_entries es b) (ap dict (decode-encode_entries es h))
    ]
    decode-encode_value null h = refl
    decode-encode_value (bool _) h = refl
    decode-encode_value (int _) h = refl
    decode-encode_value (float _) h = refl
    decode-encode_value (text _) h = refl
    decode-encode_value (opaque _) h = refl

    decode-encode_values :
        (vs : Values) → AllFaithful vs → decode_values py (encode_values py vs) ≡ vs
    decode-encode_values nil h = refl
    decode-encode_values (cons v vs) h =
        ap₂ cons (decode-encode_value v h.0) (decode-encode_values vs h.1)

    decode-encode_entries :
        (es : Entries) → FaithfulEntries es → decode_entries py (encode_entries py es) ≡ es
    decode-encode_entries end h = refl
    decode-encode_entries (entry k v es) h =
        ap₂ (entry k) (decode-encode_value v h.0) (decode-encode_entries es h.1)

  -- A value decodes to itself after it was encoded, at any depth, where each datetime,
  -- date, time, Decimal and UUID in it reads back from its text and each set has only
  -- hashable elements, no two of them equal.
  pub decode-encode : (v : Value) → IsFaithful v → decode_value py (encode_value py v) ≡ v
  decode-encode = decode-encode_value
