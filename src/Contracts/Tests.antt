-- ===== src/Contracts/Tests.antt =====
-- A run under /data/run, whose workspace lies inside it.
use minireplayer.Prelude.{
  List, String, ◌≡◌, refl, inl, inr, none, some, [], ◌∷◌, Dict, ok, insert, lookup, elem,
}
use minireplayer.Json.{Value, arr, cons, nil, obj, field, end, str, has, get}
use minireplayer.Json.Text.{
  after_prefix, rstrip_slash, before_suffix, replace, replace_from, starts_with,
}
use minireplayer.Contracts.{
  mini_swe, Places, place, longest_first, rebase, rebase_to, bind_first, bind_deployment_path,
  run_path_map, typed_path_fields, bind_typed_fields, visit, recorded_path_map, declared_field,
  pair_up, note_pair, recorded_workspace_path_map, workspace_roots, note_root,
  rebind_embedded_coral_paths, replacements, replace_each,
}
use minireplayer.Contracts.Paths.{IsNearest, bind_deployment_path_nearest}
use minireplayer.Contracts.Located.{Place, under, entry, at, outline, bound, bind_typed_fields-at}

abbrev places : Places
places = record { run_root = "/data/run"; workspace = "/data/run/workspace"; repo = "/repo" }

bind_nested :
    bind_deployment_path "/data/run/workspace/a.py" (run_path_map places) ≡ "/native-workspace/a.py"
unfolding bind_deployment_path longest_first place bind_first rebase rebase_to run_path_map insert
    after_prefix rstrip_slash
bind_nested = refl

recorded_workspace_path_map_test :
    recorded_workspace_path_map mini_swe
      (obj (field "cwd" (str "/src/ws/sub") end))
      (obj (field "cwd" (str "/native-workspace/sub") end))
    ≡ ok (("/src/ws", "/native-workspace") ∷ [])
unfolding recorded_workspace_path_map recorded_path_map pair_up note_pair workspace_roots note_root
    typed_path_fields declared_field elem lookup insert has get after_prefix before_suffix
recorded_workspace_path_map_test = refl

rebind_embedded_test :
    rebind_embedded_coral_paths
      (obj (field "command" (str "cd /src/ws; ls /src/ws/x") end))
      (("/src/ws", "/native-workspace") ∷ [])
      places
      none
    ≡ obj (field "command" (str "cd /data/run/workspace; ls /data/run/workspace/x") end)
unfolding rebind_embedded_coral_paths replacements replace_each longest_first place visit
    declared_field elem replace replace_from starts_with after_prefix
rebind_embedded_test = refl

abbrev one_there : Dict String String
one_there = ("/data/run", "/native-run") ∷ []

abbrev one_back : Dict String String
one_back = ("/native-run", "/data/run") ∷ []

one-IsNearest : IsNearest "/data/run/x" one_there ("/data/run", "/native-run") "/native-run/x"
unfolding rebase rebase_to rstrip_slash after_prefix
one-IsNearest = record {
  member = inl refl;
  binds = refl;
  nearest = λ f other m h. elim m [ inl q ↦ inl q | inr none_left ↦ absurd none_left ];
}

bind_deployment_path_nearest_example :
    bind_deployment_path "/data/run/x" one_there ≡ "/native-run/x"
bind_deployment_path_nearest_example =
    bind_deployment_path_nearest "/data/run/x" "/native-run/x" one_there
      ("/data/run", "/native-run") one-IsNearest

-- a list of paths under a field
abbrev listed : Value
listed = obj (field "cwd" (arr (cons (str "/data/run/x") nil)) (field "note" (str "/data/run") end))

abbrev first_listed : List Place
first_listed = under "cwd" ∷ entry 0 ∷ []

listed_test : at first_listed listed ≡ some (str "/data/run/x")
listed_test = refl

bind_typed_fields-at_example :
    outline (at first_listed (bind_typed_fields mini_swe listed one_there))
    ≡ bound
        (typed_path_fields mini_swe)
        (λ s. bind_deployment_path s one_there)
        (some "cwd")
        (some (str "/data/run/x"))
bind_typed_fields-at_example = bind_typed_fields-at mini_swe listed one_there first_listed
