-- ===== src/Serializers/Whole.antt =====
-- From the caller's keyword arguments to those of the worker.
use django_logic.Prelude.{◌≡◌, Bool, true, false, ◌&&◌}
use django_logic.Values.{
  null, bool, int, float, text, list, Values, nil, cons, end, entry, Value, dict, Entries, pop,
}
use django_logic.Serializers.{Python}
use django_logic.Serializers.Kwargs.{request_key, user_id_key, is_finite}

unfoldable mutual
  -- A value of JSON: its types, finite numbers, and keys that are texts.
  pub is_json : Value → Bool
  is_json null = true
  is_json (bool b) = true
  is_json (int n) = true
  is_json (float x) = is_finite x
  is_json (text s) = true
  is_json (list vs) = all_json vs
  is_json (dict es) = json_entries es
  is_json _ = false

  pub all_json : Values → Bool
  all_json nil = true
  all_json (cons v vs) = is_json v && all_json vs

  pub json_entries : Entries → Bool
  json_entries end = true
  json_entries (entry (text k) v es) = is_json v && json_entries es
  json_entries (entry k v es) = false

-- What the column gives back of a dictionary that was saved. It changes what is no JSON, as a key
-- that is no text, which becomes one.
pub record Column : Type 0 where
  pub load : Entries → Entries
  pub keeps : (es : Entries) → is_json (dict es) ≡ true → load es ≡ es

module _ (py : Python) where
  module _ (kwargs : Entries) where
    abbrev unreserved : Entries
    unreserved = pop user_id_key (pop request_key kwargs)
