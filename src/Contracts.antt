-- ===== src/Contracts.antt =====
-- minireplay/contracts.py: path binding between a run's directories and run-independent names.
-- A directory is the text that `str(path.resolve())` gave.
pub mod Paths
pub mod Visit
pub mod Located
mod Tests
use Prim.Native.String.{count, ◌++◌}
use minireplayer.Prelude.{
  ℕ, String, Bool, true, false, Option, none, some, List, [], ◌∷◌, Dict, map, elem, lookup, insert,
  Result, ok, raise, value_error, ◌>>=◌, leb, ◌==◌, string_eq, if◌then◌else◌,
}
use minireplayer.Json.{
  Value, Items, Fields, null, bool, int, negative, float, str, arr, obj, nil, cons, end, field, get,
  has,
}
use minireplayer.Json.Text.{after_prefix, before_suffix, rstrip_slash, replace, starts_with}

pub data Adapter : Type 0 where
  mini_swe trae coral owl : Adapter

-- `_TYPED_PATH_FIELDS`
unfoldable pub typed_path_fields : Adapter → List String
typed_path_fields mini_swe = "cwd" ∷ []
typed_path_fields trae = "path" ∷ "file_path" ∷ "cwd" ∷ []
typed_path_fields coral =
    "filePath" ∷ "filepath" ∷ "outputPath" ∷ "file" ∷ "path" ∷ "dir" ∷ "cwd" ∷ "physical_path" ∷ []
typed_path_fields owl = "path" ∷ "file_path" ∷ "cwd" ∷ "physical_path" ∷ []

-- `sorted(..., key=len, reverse=True)`, which keeps the order of entries of one length
unfoldable pub place : String × String → Dict String String → Dict String String
place e [] = e ∷ []
place e (x ∷ xs) =
    let later = place e xs in if leb (count x.0) (count e.0) then e ∷ x ∷ xs else x ∷ later

unfoldable pub longest_first : Dict String String → Dict String String
longest_first [] = []
longest_first (e ∷ es) = place e (longest_first es)

-- `value == physical`, or `value.startswith(f"{physical}/")` and then what follows `physical`
unfoldable pub rebase_to : String → String → String → Option String
rebase_to physical logical value =
    if value == physical then some logical else elim (after_prefix (physical ++ "/") value) [
      | none ↦ none
      | some rest ↦ some (logical ++ ("/" ++ rest))
    ]

unfoldable pub rebase : String × String → String → Option String
rebase (physical, logical) value = rebase_to (rstrip_slash physical) (rstrip_slash logical) value

unfoldable pub bind_first : String → Dict String String → String
bind_first value [] = value
bind_first value (e ∷ es) = elim (rebase e value) [
  | none ↦ bind_first value es
  | some bound ↦ bound
]

unfoldable pub bind_deployment_path : String → Dict String String → String
bind_deployment_path value mapping = bind_first value (longest_first mapping)

-- The directories of a run: the run root, its workspace and the repository.
pub record Places : Type 0 where
  pub run_root : String
  pub workspace : String
  pub repo : String

unfoldable pub run_path_map : Places → Dict String String
run_path_map p =
    insert p.repo "/native-repo"
      (insert p.run_root "/native-run" ((p.workspace, "/native-workspace") ∷ []))

-- whether `field in declared`
unfoldable pub declared_field : List String → Option String → Bool
declared_field declared none = false
declared_field declared (some f) = elem f declared

-- The inner `visit` of the binding functions: the texts under a declared field, at any depth, are
-- rewritten. A list hands the field of its own position on.
unfoldable mutual
  pub visit : List String → (String → String) → Option String → Value → Value
  visit declared g f null = null
  visit declared g f (bool b) = bool b
  visit declared g f (int n) = int n
  visit declared g f (negative n) = negative n
  visit declared g f (float s) = float s
  visit declared g f (str s) = if declared_field declared f then str (g s) else str s
  visit declared g f (arr xs) = arr (visit_items declared g f xs)
  visit declared g f (obj d) = obj (visit_fields declared g d)

  pub visit_items : List String → (String → String) → Option String → Items → Items
  visit_items declared g f nil = nil
  visit_items declared g f (cons x xs) = cons (visit declared g f x) (visit_items declared g f xs)

  pub visit_fields : List String → (String → String) → Fields → Fields
  visit_fields declared g end = end
  visit_fields declared g (field k v rest) =
      field k (visit declared g (some k) v) (visit_fields declared g rest)

unfoldable pub bind_typed_fields : Adapter → Value → Dict String String → Value
bind_typed_fields adapter value path_map =
    visit (typed_path_fields adapter) (λ s. bind_deployment_path s path_map) none value

-- `deployment` of `to_physical`; the workspace is the given one, else the run's
unfoldable pub deployment : Places → Option String → Dict String String
deployment p workspace_path =
    ("/native-workspace", elim workspace_path [ none ↦ p.workspace | some w ↦ w ])
    ∷ ("/native-run", p.run_root)
    ∷ ("/native-repo", p.repo)
    ∷ []

unfoldable pub to_physical : Adapter → Value → Places → Option String → Value
to_physical adapter value p workspace_path =
    bind_typed_fields adapter value (deployment p workspace_path)

-- one text pair of `recorded_path_map`: `setdefault`, and an error where it held another name
unfoldable pub note_pair :
    List String → Option String → String → String → Dict String String → Result (Dict String String)
note_pair declared f native logical mapping =
    if declared_field declared f
    then (if native == logical then ok mapping else elim (lookup native mapping) [
      | none ↦ ok (insert native logical mapping)
      | some previous ↦ if previous == logical then ok mapping else raise value_error
    ])
    else ok mapping

-- The common keys are taken in the order of the native object; Python takes them from a set.
unfoldable mutual
  pub pair_up :
      List String → Option String → Value → Value → Dict String String → Result (Dict String String)
  pair_up declared f (obj d) (obj e) mapping = pair_fields declared d e mapping
  pair_up declared f (arr xs) (arr ys) mapping = pair_items declared f xs ys mapping
  pair_up declared f (str s) (str t) mapping = note_pair declared f s t mapping
  pair_up declared f _ _ mapping = ok mapping

  pub pair_items :
      List String → Option String → Items → Items → Dict String String → Result (Dict String String)
  pair_items declared f (cons x xs) (cons y ys) mapping =
      pair_up declared f x y mapping >>= pair_items declared f xs ys
  pair_items declared f _ _ mapping = ok mapping

  pub pair_fields : List String → Fields → Fields → Dict String String → Result (Dict String String)
  pair_fields declared end e mapping = ok mapping
  pair_fields declared (field k v rest) e mapping =
      (if has k e then pair_up declared (some k) v (get k e) mapping else ok mapping)
      >>= pair_fields declared rest e

unfoldable pub recorded_path_map : Adapter → Value → Value → Result (Dict String String)
recorded_path_map adapter native logical =
    pair_up (typed_path_fields adapter) none native logical []

-- `physical.endswith(suffix)`, where the suffix is what follows the logical root, its slash included
unfoldable pub note_root : String → String → Dict String String → Dict String String
note_root suffix physical mapping = elim (before_suffix ("/" ++ suffix) physical) [
  | none ↦ mapping
  | some root ↦ insert root "/native-workspace" mapping
]

-- the source roots that typed paths under "/native-workspace" prove
unfoldable pub workspace_roots : Dict String String → Dict String String → Dict String String
workspace_roots [] mapping = mapping
workspace_roots ((physical, logical) ∷ rest) mapping = workspace_roots rest (
    if logical == "/native-workspace"
    then insert physical "/native-workspace" mapping
    else elim (after_prefix "/native-workspace/" logical) [
      | none ↦ mapping
      | some suffix ↦ note_root suffix physical mapping
    ])

unfoldable pub recorded_workspace_path_map : Adapter → Value → Value → Result (Dict String String)
recorded_workspace_path_map adapter native logical =
    recorded_path_map adapter native logical >>= λ pairs. ok (workspace_roots pairs [])

-- `replacements` of `rebind_embedded_coral_paths`, before they are sorted
unfoldable pub replacements : Places → Option String → Dict String String → Dict String String
replacements p workspace_path [] = []
replacements p workspace_path ((physical, logical) ∷ rest) =
    let others = replacements p workspace_path rest in
    if logical == "/native-workspace"
    then (physical, elim workspace_path [ none ↦ p.workspace | some w ↦ w ]) ∷ others
    else if logical == "/native-run"
    then (physical, p.run_root) ∷ others
    else others

unfoldable pub replace_each : Dict String String → String → String
replace_each [] s = s
replace_each ((old, new) ∷ rest) s = replace_each rest (replace old new s)

unfoldable pub rebind_embedded_coral_paths :
    Value → Dict String String → Places → Option String → Value
rebind_embedded_coral_paths value source_path_map p workspace_path =
    visit ("command" ∷ [])
      (replace_each (longest_first (replacements p workspace_path source_path_map))) none value

-- the source roots of the workspace, longest first
unfoldable pub source_workspaces : Dict String String → Dict String String
source_workspaces [] = []
source_workspaces ((physical, logical) ∷ rest) =
    let others = source_workspaces rest in
    if logical == "/native-workspace" then place (physical, logical) others else others

unfoldable pub restore_embedded_coral_source_paths :
    Value → Dict String String → Places → Option String → Value
restore_embedded_coral_source_paths value source_path_map p workspace_path =
    elim (source_workspaces source_path_map) [
      | [] ↦ value
      | source ∷ _ ↦
          visit ("command" ∷ [])
            (replace (elim workspace_path [ none ↦ p.workspace | some w ↦ w ]) source.0) none value
    ]

unfoldable pub rebind_typed_fields : Adapter → Value → Dict String String → Places → Value
rebind_typed_fields adapter value source_path_map p =
    bind_typed_fields adapter (bind_typed_fields adapter value source_path_map)
      (("/native-workspace", p.workspace) ∷ ("/native-run", p.run_root) ∷ [])
