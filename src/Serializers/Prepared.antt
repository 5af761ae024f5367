-- ===== src/Serializers/Prepared.antt =====
-- What `serialize_kwargs` encodes, key by key.
use django_logic.Prelude.{◌≡◌, refl, ap, ◌∙◌, false, ◌||◌, some, Bool-cases, inl, inr}
use django_logic.Values.{
  Text, Value, text, Entries, end, entry, text_eq, is_text, is_null, find_entry, or_null, get, pop,
  put,
}
use django_logic.Values.Dicts.{find_entry-pop_other, find_entry-put_self, find_entry-put_other}
use django_logic.Serializers.{Python}
use django_logic.Serializers.Kwargs.{
  request_key, user_id_key, user_key, context_key, owner_key, tr_id_key, root_id_key, parent_id_key,
  put_user_id, swap_user, stringify, prepared,
}
use django_logic.Serializers.RoundTrip.{IsFaithful, FaithfulEntries}

-- A key that the engine has no use for.
pub record IsOrdinary (name : Text) : Type 0 where
  pub request : text_eq request_key name ≡ false
  pub user_id : text_eq user_id_key name ≡ false
  pub user : text_eq user_key name ≡ false
  pub context : text_eq context_key name ≡ false
  pub owner : text_eq owner_key name ≡ false
  pub tr_id : text_eq tr_id_key name ≡ false
  pub root_id : text_eq root_id_key name ≡ false
  pub parent_id : text_eq parent_id_key name ≡ false

module _ (py : Python) where
  pub FaithfulEntries-pop :
      (name : Text) (es : Entries) → FaithfulEntries py es → FaithfulEntries py (pop name es)
  unfolding IsFaithful
  FaithfulEntries-pop name end h = h
  FaithfulEntries-pop name (entry k v es) h = elim (Bool-cases (is_text name k)) [
    | inl b ↦ rw b (FaithfulEntries-pop name es h.1)
    | inr b ↦ rw b (h.0, FaithfulEntries-pop name es h.1)
  ]

  FaithfulEntries-put :
      (name : Text) (v : Value) (es : Entries)
      → IsFaithful py v
      → FaithfulEntries py es
      → FaithfulEntries py (put name v es)
  unfolding IsFaithful
  FaithfulEntries-put name v end f h = (f, h)
  FaithfulEntries-put name v (entry k w es) f h = elim (Bool-cases (is_text name k)) [
    | inl b ↦ rw b (f, h.1)
    | inr b ↦ rw b (h.0, FaithfulEntries-put name v es f h.1)
  ]

  FaithfulEntries-stringify :
      (name : Text) (es : Entries)
      → FaithfulEntries py es
      → FaithfulEntries py (stringify py name es)
  unfolding IsFaithful stringify
  FaithfulEntries-stringify name es h = elim (Bool-cases (is_null (get name es))) [
    | inl b ↦ rw b h
    | inr b ↦ rw b (FaithfulEntries-put name (text (py.str (get name es))) es tt h)
  ]

  FaithfulEntries-put_user_id :
      (user : Value) (es : Entries)
      → IsFaithful py (py.pk user)
      → FaithfulEntries py es
      → FaithfulEntries py (put_user_id py user es)
  unfolding put_user_id
  FaithfulEntries-put_user_id user es f h =
      elim (Bool-cases (is_null user || is_null (py.pk user))) [
        | inl b ↦ rw b h
        | inr b ↦ rw b (FaithfulEntries-put user_id_key (py.pk user) es f h)
      ]

  stringify-other :
      (k name : Text) (es : Entries)
      → text_eq k name ≡ false
      → find_entry name (stringify py k es) ≡ find_entry name es
  unfolding stringify
  stringify-other k name es n = elim (Bool-cases (is_null (get k es))) [
    | inl b ↦ rw b refl
    | inr b ↦ rw b (find_entry-put_other k name (text (py.str (get k es))) es n)
  ]

  put_user_id-other :
      (user : Value) (name : Text) (es : Entries)
      → text_eq user_id_key name ≡ false
      → find_entry name (put_user_id py user es) ≡ find_entry name es
  unfolding put_user_id
  put_user_id-other user name es n = elim (Bool-cases (is_null user || is_null (py.pk user))) [
    | inl b ↦ rw b refl
    | inr b ↦ rw b (find_entry-put_other user_id_key name (py.pk user) es n)
  ]

  module _ (es : Entries) where
    -- The arguments without the keys that the engine drops.
    abbrev kept : Entries
    kept = pop owner_key (pop context_key es)

    abbrev swapped : Entries
    swapped = put_user_id py (get user_key kept) (pop user_key kept)

    prepared-other :
        (name : Text)
        → text_eq tr_id_key name ≡ false
        → text_eq root_id_key name ≡ false
        → text_eq parent_id_key name ≡ false
        → find_entry name (prepared py es) ≡ find_entry name swapped
    unfolding prepared swap_user
    prepared-other name a b c =
        let one = stringify py tr_id_key swapped in
        let two = stringify py root_id_key one in
        stringify-other parent_id_key name two c
        ∙ stringify-other root_id_key name one b
        ∙ stringify-other tr_id_key name swapped a

    kept-other :
        (name : Text)
        → text_eq context_key name ≡ false
        → text_eq owner_key name ≡ false
        → find_entry name kept ≡ find_entry name es
    kept-other name a b =
        find_entry-pop_other owner_key name (pop context_key es) b
        ∙ find_entry-pop_other context_key name es a

    pub prepared-ordinary :
        (name : Text) → IsOrdinary name → find_entry name (prepared py es) ≡ find_entry name es
    prepared-ordinary name o =
        prepared-other name o.tr_id o.root_id o.parent_id
        ∙ put_user_id-other (get user_key kept) name (pop user_key kept) o.user_id
        ∙ find_entry-pop_other user_key name kept o.user
        ∙ kept-other name o.context o.owner

    pub get-kept : get user_key kept ≡ get user_key es
    unfolding text_eq
    get-kept = ap or_null (kept-other user_key refl refl)

    -- The user's key, where there is one.
    pub prepared-user_id :
        is_null (get user_key es) ≡ false
        → is_null (py.pk (get user_key es)) ≡ false
        → find_entry user_id_key (prepared py es) ≡ some (py.pk (get user_key es))
    unfolding text_eq put_user_id
    prepared-user_id u p =
        prepared-other user_id_key refl refl refl
        ∙ rw (get-kept, u, p)
            (find_entry-put_self user_id_key (py.pk (get user_key es)) (pop user_key kept))

    pub FaithfulEntries-prepared :
        IsFaithful py (py.pk (get user_key es))
        → FaithfulEntries py es
        → FaithfulEntries py (prepared py es)
    unfolding prepared swap_user
    FaithfulEntries-prepared f h =
        let a =
          FaithfulEntries-pop owner_key (pop context_key es)
            (FaithfulEntries-pop context_key es h) in
        let b =
          FaithfulEntries-put_user_id (get user_key kept) (pop user_key kept) (rw get-kept f)
            (FaithfulEntries-pop user_key kept a) in
        FaithfulEntries-stringify parent_id_key
          (stringify py root_id_key (stringify py tr_id_key swapped))
          (FaithfulEntries-stringify root_id_key (stringify py tr_id_key swapped)
            (FaithfulEntries-stringify tr_id_key swapped b))
