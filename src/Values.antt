-- ===== src/Values.antt =====
-- The Python values that keyword arguments hold, as one data type, and the operations that the code
-- uses of texts and dictionaries.
pub mod Dicts
use Prim.Native.Char.{code}
use Prim.Native.String.{String}
use django_logic.Prelude.{
  ℕ, ◌≡◌, refl, ap, ◌↔◌, Bool, true, false, ◌&&◌, Option, none, some, List, [], ◌∷◌, ◌==◌,
  Bool-cases, inl, inr, if◌then◌else◌, arith,
}

-- A `str` by its code points.
abbrev pub Text : Type 0
Text = List ℕ

-- A name of the source as its code points.
abbrev pub codes : String → Text
codes String.[] = []
codes (String.◌∷◌ c s) = code c ∷ codes s

pub data ℤ : Type 0 where
  pos negsuc : ℕ → ℤ

-- A finite float is named by a number.
pub data Float : Type 0 where
  finite : ℕ → Float
  nan infinity : Float

-- The library types that are stored by their text.
pub data LibraryKind : Type 0 where
  datetime date time decimal uuid : LibraryKind

-- `library k n` is the value number `n` of the kind, and `opaque n` any other object: a model
-- instance, a request, a user.
mutual
  pub data Value : Type 0 where
    null : Value
    bool : Bool → Value
    int : ℤ → Value
    float : Float → Value
    text : Text → Value
    library : LibraryKind → ℕ → Value
    opaque : ℕ → Value
    list tuple set frozenset : Values → Value
    dict : Entries → Value

  pub data Values : Type 0 where
    nil : Values
    cons : Value → Values → Values

  -- A dictionary in its order: key, value, and the rest.
  pub data Entries : Type 0 where
    end : Entries
    entry : Value → Value → Entries → Entries

unfoldable pub text_eq : Text → Text → Bool
text_eq [] [] = true
text_eq [] (b ∷ t) = false
text_eq (a ∷ s) [] = false
text_eq (a ∷ s) (b ∷ t) = (a == b) && text_eq s t

pub text_eq_refl : (s : Text) → text_eq s s ≡ true
unfolding text_eq
text_eq_refl [] = refl
text_eq_refl (a ∷ s) = ground (arith, text_eq_refl s)

pub eq-of-text_eq : (s t : Text) → text_eq s t ≡ true → s ≡ t
unfolding text_eq
eq-of-text_eq [] [] e = refl
eq-of-text_eq [] (b ∷ t) e = cc
eq-of-text_eq (a ∷ s) [] e = cc
eq-of-text_eq (a ∷ s) (b ∷ t) e = ground (arith, eq-of-text_eq s t)

-- `value == name` for a `str` name.
abbrev pub is_text : Text → Value → Bool
is_text name (text s) = text_eq s name
is_text name _ = false

abbrev pub is_null : Value → Bool
is_null null = true
is_null _ = false

-- `d.get(name)`, with `none` where the key is missing.
abbrev pub find_entry : Text → Entries → Option Value
find_entry name end = none
find_entry name (entry k v es) = if is_text name k then some v else find_entry name es

abbrev pub or_null : Option Value → Value
or_null none = null
or_null (some v) = v

-- `d.get(name)`
abbrev pub get : Text → Entries → Value
get name es = or_null (find_entry name es)

-- `name in d`
abbrev pub has : Text → Entries → Bool
has name end = false
has name (entry k v es) = if is_text name k then true else has name es

-- `d.pop(name, None)`, for what stays in `d`.
abbrev pub pop : Text → Entries → Entries
pop name end = end
pop name (entry k v es) = if is_text name k then pop name es else entry k v (pop name es)

-- `d[name] = v`
abbrev pub put : Text → Value → Entries → Entries
put name v end = entry (text name) v end
put name v (entry k w es) = if is_text name k then entry k v es else entry k w (put name v es)

-- `{name: v, …}` for two entries.
abbrev pub pair : Text → Value → Text → Value → Value
pair a v b w = dict (entry (text a) v (entry (text b) w end))
