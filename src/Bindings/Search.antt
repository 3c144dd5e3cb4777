-- ===== src/Bindings/Search.antt =====
-- Which module is bound, and what a user is told if there is none.
use py_obscura_proto.Base.{
  ◌≡◌, refl, String, Bool, true, false, Option, none, some, List, [], ◌∷◌, ◌++◌, arith,
  if◌then◌else◌, inl, inr, Bool-cases, Option-cases,
}
use py_obscura_proto.Bindings.{
  Reason, no_build_directory, not_built, Failure, import_error, other_failure, from_file, Outcome,
  bound, failed, Site, Interpreter, is_library, load_first, explain, search_build_dir,
  import_bindings,
}

abbrev pub any_library : List String → Bool
any_library [] = false
any_library (f ∷ fs) = if is_library f then true else any_library fs

-- How the execution of the library `f` ends the import.
abbrev pub executed : String → Option Failure → Outcome
executed f none = bound (from_file f)
executed f (some (import_error r)) = failed (import_error (not_built r))
executed f (some (other_failure n)) = failed (other_failure n)

abbrev pub entered : String → Option Failure → Interpreter → Interpreter
entered f none i = record { path_extended = true; registered = some f }
entered f (some e) i = record i { path_extended = true }

load_first-skip :
    (site : Site) (before after : List String) (i : Interpreter)
    → any_library before ≡ false
    → load_first site (before ++ after) i ≡ load_first site after i
unfolding load_first
load_first-skip site [] after i h = refl
load_first-skip site (f ∷ before) after i h = elim (Bool-cases (is_library f)) [
  | inl is ↦ absurd (ground arith)
  | inr other ↦ rw other (load_first-skip site before after i (ground arith))
]

-- Without the package's own module, and with a build directory whose listing has `f` as its first
-- library: `f` is executed, whatever libraries come after it. If that works, it is bound and registered; an
-- `ImportError` of it becomes the one that says that the project is not built; anything else goes on. In
-- each case the build directory is on the path.
pub import_bindings_finds :
    (site : Site) (i : Interpreter) (r : Reason) (f : String) (before after : List String)
    → site.own ≡ some (import_error r)
    → site.build_dir ≡ some (before ++ f ∷ after)
    → any_library before ≡ false
    → is_library f ≡ true
    → import_bindings site i ≡ (executed f (site.execute f), entered f (site.execute f) i)
unfolding import_bindings
import_bindings_finds site i r f before after own dir none_before found =
    let start = record i { path_extended = true } in
    let skipped = load_first-skip site before (f ∷ after) start none_before in
    ground (arith, skipped)

explain-import_error :
    (o : Outcome) (r : Reason)
    → explain o ≡ failed (import_error r)
    → (r' : Reason) × (r ≡ not_built r')
unfolding explain
explain-import_error (bound m) r h = absurd (ground arith)
explain-import_error (failed (import_error q)) r h = (q, ground arith)
explain-import_error (failed (other_failure n)) r h = absurd (ground arith)

searched-import_error :
    (site : Site) (i : Interpreter) (r : Reason)
    → (search_build_dir site i).0 ≡ failed (import_error r)
    → (r' : Reason) × (r ≡ not_built r')
unfolding search_build_dir
searched-import_error site i r h = elim (Option-cases site.build_dir) [
  | inl e ↦ (no_build_directory, ground arith)
  | inr (files, e) ↦
      explain-import_error (load_first site files (record i { path_extended = true })).0 r
        (ground arith)
]

-- An `ImportError` that reaches the user always says that the project is not built.
pub import_error_explained :
    (site : Site) (i : Interpreter) (r : Reason)
    → (import_bindings site i).0 ≡ failed (import_error r)
    → (r' : Reason) × (r ≡ not_built r')
unfolding import_bindings
import_error_explained site i r h = elim (Option-cases site.own) [
  | inl e ↦ absurd (ground arith)
  | inr (x, e) ↦ go x e
]
  where
    go : (x : Failure) → site.own ≡ some x → (r' : Reason) × (r ≡ not_built r')
    go (import_error q) e = searched-import_error site i r (ground arith)
    go (other_failure n) e = absurd (ground arith)
