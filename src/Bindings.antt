-- ===== src/Bindings.antt =====
-- How the package finds its compiled module (src/ObscuraProto/__init__.py, the `try` statement that binds
-- `_bindings`): the package's own, else a library in the build directory of a source tree.
pub mod Search
use Prim.Native.String.{len, slice}
use text.Mathlib.Text.{starts_with}
use py_obscura_proto.Base.{
  ℕ, ◌-◌, String, str_eq, Bool, true, false, ◌&&◌, Option, none, some, List, [], ◌∷◌, leb,
  if◌then◌else◌,
}

-- What an `import` raises: an `ImportError`, with its reason, or something else, such as an exception of
-- the module's own code.
pub data Reason : Type 0 where
  not_importable : ℕ → Reason
  no_library no_build_directory : Reason
  not_built : Reason → Reason

pub data Failure : Type 0 where
  import_error : Reason → Failure
  other_failure : ℕ → Failure

-- The module that is bound: the package's own, or one that was executed from a file.
pub data Loaded : Type 0 where
  own_module : Loaded
  from_file : String → Loaded

pub data Outcome : Type 0 where
  bound : Loaded → Outcome
  failed : Failure → Outcome

-- What is there: how the import of the package's own module ends, the listing of the build directory if
-- there is one, and how the execution of a file ends.
pub record Site : Type 0 where
  pub own : Option Failure
  pub build_dir : Option (List String)
  pub execute : String → Option Failure

-- What the statement writes: whether the build directory is at the front of `sys.path`, and the entry of
-- `sys.modules`.
pub record Interpreter : Type 0 where
  pub path_extended : Bool
  pub registered : Option String

abbrev pub ends_with : String → String → Bool
ends_with s t = leb (len t) (len s) && str_eq (slice s (len s - len t) (len s)) t

-- `f.startswith("_obscuraproto") and f.endswith(".so")`
unfoldable pub is_library : String → Bool
is_library f = starts_with f "_obscuraproto" && ends_with f ".so"

-- The loop with its `else`.
unfoldable pub load_first : Site → List String → Interpreter → Outcome × Interpreter
unfolding is_library
load_first site [] i = (failed (import_error no_library), i)
load_first site (f ∷ fs) i =
    let rest = load_first site fs i in
    if is_library f
    then (elim (site.execute f) [
      | none ↦ (bound (from_file f), record i { registered = some f })
      | some e ↦ (failed e, i)
    ])
    else rest

-- `except ImportError as e: raise ImportError(...)`
unfoldable pub explain : Outcome → Outcome
explain (bound m) = bound m
explain (failed (import_error r)) = failed (import_error (not_built r))
explain (failed (other_failure n)) = failed (other_failure n)

-- The handler of the first `ImportError`.
unfoldable pub search_build_dir : Site → Interpreter → Outcome × Interpreter
unfolding load_first explain
search_build_dir site i = elim site.build_dir [
  | none ↦ (explain (failed (import_error no_build_directory)), i)
  | some files ↦
      let (o, j) = load_first site files (record i { path_extended = true }) in (explain o, j)
]

unfoldable pub import_bindings : Site → Interpreter → Outcome × Interpreter
unfolding search_build_dir
import_bindings site i = elim site.own [
  | none ↦ (bound own_module, i)
  | some (import_error r) ↦ search_build_dir site i
  | some (other_failure n) ↦ (failed (other_failure n), i)
]
