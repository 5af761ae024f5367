-- ===== src/Values/Dicts.antt =====
-- Lookups after a removal and after an assignment.
use django_logic.Prelude.{◌≡◌, refl, true, false, none, some, Bool-cases, inl, inr}
use django_logic.Values.{
  Text, Value, text, Entries, end, entry, text_eq, text_eq_refl, eq-of-text_eq, is_text, find_entry,
  pop, put, has,
}

-- A key is one name at most.
pub is_text-other :
    (a b : Text) (k : Value) → text_eq a b ≡ false → is_text a k ≡ true → is_text b k ≡ false
is_text-other a b (text s) n e = rw (eq-of-text_eq s a e) n
is_text-other a b _ n e = cc

pub find_entry-pop_self : (k : Text) (es : Entries) → find_entry k (pop k es) ≡ none
find_entry-pop_self k end = refl
find_entry-pop_self k (entry key v es) = elim (Bool-cases (is_text k key)) [
  | inl b ↦ rw b (find_entry-pop_self k es)
  | inr b ↦ rw b (rw b (find_entry-pop_self k es))
]

pub find_entry-pop_other :
    (k j : Text) (es : Entries) → text_eq k j ≡ false → find_entry j (pop k es) ≡ find_entry j es
find_entry-pop_other k j end n = refl
find_entry-pop_other k j (entry key v es) n = elim (Bool-cases (is_text k key)) [
  | inl b ↦ rw (b, is_text-other k j key n b) (find_entry-pop_other k j es n)
  | inr b ↦ rw (b, find_entry-pop_other k j es n) refl
]

pub find_entry-put_self : (k : Text) (v : Value) (es : Entries) → find_entry k (put k v es) ≡ some v
find_entry-put_self k v end = rw (text_eq_refl k) refl
find_entry-put_self k v (entry key w es) = elim (Bool-cases (is_text k key)) [
  | inl b ↦ rw (b, b) refl
  | inr b ↦ rw (b, b) (find_entry-put_self k v es)
]

pub find_entry-put_other :
    (k j : Text) (v : Value) (es : Entries)
    → text_eq k j ≡ false
    → find_entry j (put k v es) ≡ find_entry j es
find_entry-put_other k j v end n = rw n refl
find_entry-put_other k j v (entry key w es) n = elim (Bool-cases (is_text k key)) [
  | inl b ↦ rw (b, is_text-other k j key n b) refl
  | inr b ↦ rw (b, find_entry-put_other k j v es n) refl
]

-- A missing key is not found.
pub find_entry-has : (k : Text) (es : Entries) → has k es ≡ false → find_entry k es ≡ none
find_entry-has k end e = refl
find_entry-has k (entry key v es) e = elim (Bool-cases (is_text k key)) [
  | inl b ↦ cc (rw b at e)
  | inr b ↦ rw b (find_entry-has k es (rw b at e))
]
