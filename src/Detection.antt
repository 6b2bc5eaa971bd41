-- ===== src/Detection.antt =====
-- packages/adapters-lang/src: types.ts, and what detectors.ts and service.ts read of a project. The
-- file system is the context.
pub mod Detectors
pub mod Service
pub mod Files
pub mod Observed
pub mod Javascript
pub mod Conditions
pub mod Capabilities
use Prim.Native.String.{◌++◌ as concat}
use verify_agent.Prelude.{
  ℕ, zero, suc, String, Bool, true, false, not, ◌&&◌, List, [], ◌∷◌, ◌++◌, Option, none, some,
  if◌then◌else◌, includes, is_some, is_empty, flat_map,
}
use verify_agent.Prelude.Text.{codes}
use verify_agent.Prelude.Sorting.{sort_by, str_le}
use verify_agent.Json.{Json, obj, Fields, end, field, prop}

pub data Confidence : Type 0 where
  high medium low : Confidence

pub data Value : Type 0 where
  text : String → Value
  flag : Bool → Value

pub record Observation : Type 0 where
  detector_id : String
  pub signal : String
  pub value : Value
  pub evidence : List String
  pub confidence : Confidence

-- `DetectionContext`. A path that is no directory has no entries.
pub record Context : Type 0 where
  pub exists : String → Bool
  pub read_file : String → Option String
  pub list_directory : String → List String

abbrev pub observe : String → String → Value → List String → Confidence → Observation
observe detector_id signal value evidence confidence = record {
  detector_id = detector_id;
  signal = signal;
  value = value;
  evidence = evidence;
  confidence = confidence;
}

abbrev pub max_detection_depth : ℕ
max_detection_depth = 8

abbrev pub skipped_directories : List String
skipped_directories =
    ".git" ∷ "node_modules" ∷ "target" ∷ ".next" ∷ "dist" ∷ "build" ∷ "coverage" ∷ []

abbrev pub child_path : String → String → String
child_path directory entry =
    if is_empty (codes directory) then entry else concat directory (concat "/" entry)

module _ (context : Context) where
  -- What one entry of a directory adds. `deeper` is the search of a directory, if it is not too deep.
  unfoldable pub visit : (String → List String) → List String → String → String → List String
  visit deeper names directory entry =
      let path = child_path directory entry in
      if includes skipped_directories entry
      then []
      else (if includes names entry && is_some (context.read_file path) then path ∷ [] else [])
        ++ (if is_empty (context.list_directory path) then [] else deeper path)

  -- `findFiles`, on the levels that are left below the directory.
  unfoldable pub find_within : ℕ → List String → String → List String
  unfolding visit sort_by str_le
  find_within zero names directory =
      sort_by str_le (flat_map (visit (λ _. []) names directory) (context.list_directory directory))
  find_within (suc levels) names directory = sort_by str_le (
      flat_map (visit (find_within levels names) names directory)
        (context.list_directory directory))

  unfoldable pub find_files : List String → List String
  unfolding find_within
  find_files names = find_within max_detection_depth names ""

abbrev pub field_names : Fields → List String
field_names end = []
field_names (field k v fs) = k ∷ field_names fs

abbrev pub object_keys : Option Json → List String
object_keys (some (obj fs)) = field_names fs
object_keys _ = []

-- The fields of `package.json`, if it is an object.
abbrev pub data_field : String → Option Json → Option Json
data_field key none = none
data_field key (some data_) = prop key data_

-- `packageNames`: the set as a list.
unfoldable pub package_names : Option Json → List String
package_names data_ =
    object_keys (data_field "dependencies" data_)
    ++ object_keys (data_field "devDependencies" data_)
    ++ object_keys (data_field "peerDependencies" data_)
    ++ object_keys (data_field "optionalDependencies" data_)

abbrev pub object_only : Option Json → Option Json
object_only (some (obj fs)) = some (obj fs)
object_only _ = none
