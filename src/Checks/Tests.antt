-- ===== src/Checks/Tests.antt =====
-- The system checks on a small site.
use django_logic.Prelude.{◌≡◌, ◌↔◌, refl, inl, inr, true, false, List, [], ◌∷◌, Among, subst⁻¹}
use django_logic.Exec.{ok}
use django_logic.Values.{codes, text, null, dict, Entries, end, entry}
use django_logic.Process.{tree}
use django_logic.Process.Tree.{iter_process_tree}
use django_logic.Process.Validation.{IsFinite}
use django_logic.Process.Binding.{Binding}
use django_logic.Checks.{
  Router, default_alias, or_alias, tm_write, app_missing, model_routed, removed_setting,
  unknown_settings, check_background_app_is_installed, check_background_database_routing,
  check_no_unknown_settings,
}
use django_logic.Checks.Background.{AllFinite, DeclaresBackground}
use django_logic.Checks.Routing.{IsTogether, check_background_database_routing_lem}
use django_logic.Sample.Tree.{program, all_classes, program-IsFinite}

abbrev order : Binding
order = record { model = 5; process_class = 0; state_field = 2 }

abbrev bindings : List Binding
bindings = order ∷ []

bindings-AllFinite : AllFinite program all_classes bindings
bindings-AllFinite b (inl e) =
    subst⁻¹ (λ z. IsFinite program all_classes z.process_class) e program-IsFinite
bindings-AllFinite b (inr m) = absurd m

-- The order is written to a second database.
abbrev split : Router
split = record { message_write = 0; message_read = 0; db_for_write = λ m. 2 }

check_background_database_routing_lem_example :
    (check_background_database_routing program split true bindings ≡ ok []) ↔ (
      (tm_write split ≡ default_alias)
      × (or_alias split.message_read ≡ tm_write split)
      × ((b : Binding)
          → Among b bindings
          → DeclaresBackground program b.process_class
          → IsTogether program all_classes split b.model))
check_background_database_routing_lem_example =
    check_background_database_routing_lem program all_classes split bindings bindings-AllFinite

split_found :
    check_background_database_routing program split true bindings ≡ ok (model_routed 5 2 ∷ [])
unfolding check_background_database_routing tree iter_process_tree
split_found = refl

missing_found :
    check_background_app_is_installed program false (λ m. m) bindings
    ≡ ok (app_missing (5 ∷ []) ∷ [])
unfolding check_background_app_is_installed tree iter_process_tree
missing_found = refl

abbrev mistyped : Entries
mistyped = entry (text (codes "STARTER_QUEUE")) null (entry (text (codes "LOCK_TIMOUT")) null end)

mistyped_found :
    check_no_unknown_settings ok (dict mistyped)
    ≡ ok (
        removed_setting (codes "STARTER_QUEUE")
        ∷ unknown_settings (text (codes "LOCK_TIMOUT") ∷ [])
        ∷ [])
unfolding check_no_unknown_settings
mistyped_found = refl
