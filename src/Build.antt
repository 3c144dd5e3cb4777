-- ===== src/Build.antt =====
-- The build of the compiled module by CMake (setup.py, `CMakeExtension` and `CMakeBuild`): which programs
-- are run, with which arguments, in which order.
pub mod Order
use Prim.Native.String.{◌++◌ as ◌<>◌}
use mathlib.Core.Option
use py_obscura_proto.Base.{
  ℕ, String, str_eq, Bool, true, false, ◌&&◌, ◌||◌, Option, none, some, List, [], ◌∷◌, ◌++◌,
  if◌then◌else◌,
}

-- `CMakeExtension`: `sourcedir` is the absolute path of what was given.
pub record Extension : Type 0 where
  pub name : String
  pub sourcedir : String

abbrev pub cmake_extension : (String → String) → String → String → Extension
cmake_extension abspath name sourcedir = record { name = name; sourcedir = abspath sourcedir }

-- What `CMakeBuild` has from setuptools. `extdir` is the directory that the file of an extension goes to;
-- `vcruntime` is that of the compiler, where there is a compiler and it has one.
pub record Builder : Type 0 where
  pub extensions : List Extension
  pub debug : Bool
  pub vcruntime : Option String
  pub build_temp : String
  pub version : String
  pub extdir : String → String

-- What it has from the system and from Python: `variable` is `os.environ.get`, `strip`, `split` and `join`
-- are those of texts and paths.
pub record Machine : Type 0 where
  pub variable : String → Option String
  pub is_windows : Bool
  pub executable : String
  pub strip : String → String
  pub split : String → List String
  pub join : String → String → String

-- What is done outside, in the order of the source; `prepare` has the source directory, the arguments, the
-- directory it runs in and `CXXFLAGS`.
pub data Action : Type 0 where
  check_version : Action
  make_directory : String → Action
  prepare : String → List String → String → String → Action
  build : List String → String → Action

pub data BuildError : Type 0 where
  called_process_error : ℕ → BuildError
  file_not_found : BuildError
  other_error : ℕ → BuildError
  cmake_missing : List String → BuildError

-- A statement: from what was done before, oldest first, the exception if there is one, and what was done.
abbrev pub Statement : Type 0
Statement = List Action → Option BuildError × List Action

abbrev pub act : (Action → Option BuildError) → Action → Statement
act status a log = (status a, log ++ a ∷ [])

abbrev pub continue : Option BuildError → Statement → Statement
continue none k log = k log
continue (some e) k log = (some e, log)

infixl 5 ◌>>◌
abbrev pub ◌>>◌ : Statement → Statement → Statement
(m >> k) log = let (r, log') = m log in continue r k log'

-- `os.environ.get(name, default)`
abbrev pub variable_or : Machine → String → String → String
variable_or machine name default = elim (machine.variable name) [ none ↦ default | some v ↦ v ]

abbrev pub is_text : Option String → String → Bool
is_text none s = false
is_text (some v) s = str_eq v s

-- `[prefix + value]` if there is a value that is not empty.
abbrev pub optional_arg : String → Option String → List String
optional_arg prefix none = []
optional_arg prefix (some v) = if str_eq v "" then [] else (prefix <> v) ∷ []

abbrev pub extension_names : List Extension → List String
extension_names [] = []
extension_names (ext ∷ exts) = ext.name ∷ extension_names exts

module _ (machine : Machine) (self : Builder) where
  unfoldable pub configuration : String
  configuration =
      if str_eq (variable_or machine "DEBUG" "0") "1" || self.debug then "Debug" else "Release"

  unfoldable pub windows_args : List String
  windows_args =
      (if is_text (machine.variable "CC") "clang" then "-T" ∷ "ClangCL" ∷ [] else [])
      ++ (optional_arg "-DCMAKE_GENERATOR_TOOLSET=v" self.vcruntime
          ++ optional_arg "-A" (machine.variable "CMAKE_GENERATOR_PLATFORM"))

  unfoldable pub cmake_args : Extension → List String
  unfolding configuration windows_args
  cmake_args ext =
      let given = machine.strip (variable_or machine "CMAKE_ARGS" "") in
      ("-DCMAKE_LIBRARY_OUTPUT_DIRECTORY=" <> self.extdir ext.name)
      ∷ ("-DPYTHON_EXECUTABLE=" <> machine.executable)
      ∷ ("-DCMAKE_BUILD_TYPE=" <> configuration)
      ∷ ((if str_eq given "" then [] else machine.split given)
          ++ (optional_arg "-DCMAKE_TOOLCHAIN_FILE=" (machine.variable "CMAKE_TOOLCHAIN_FILE")
              ++ (optional_arg "-DCMAKE_PREFIX_PATH=" (machine.variable "CMAKE_PREFIX_PATH")
                  ++ (if machine.is_windows then windows_args else []))))

  unfoldable pub build_args : List String
  unfolding configuration
  build_args = "--config" ∷ configuration ∷ "--" ∷ (if machine.is_windows then "/m" else "-j4") ∷ []

  unfoldable pub cxx_flags : String
  cxx_flags = variable_or machine "CXXFLAGS" "" <> (" -DVERSION_INFO=\"" <> (self.version <> "\""))

  unfoldable pub explain_missing : BuildError → BuildError
  explain_missing (called_process_error n) = cmake_missing (extension_names self.extensions)
  explain_missing file_not_found = cmake_missing (extension_names self.extensions)
  explain_missing e = e

  module _ (status : Action → Option BuildError) where
    unfoldable pub build_extension : Extension → Statement
    build_extension ext =
        let directory = machine.join self.build_temp ext.name in
        act status (make_directory directory)
        >> act status (prepare ext.sourcedir (cmake_args ext) directory cxx_flags)
        >> act status (build build_args directory)

    unfoldable pub build_all : List Extension → Statement
    unfolding build_extension
    build_all [] log = (none, log)
    build_all (ext ∷ exts) log = (build_extension ext >> build_all exts) log

    -- `except (CalledProcessError, FileNotFoundError)` around the check of CMake.
    unfoldable pub check_cmake : Statement
    unfolding explain_missing
    check_cmake log =
        let (r, log') = act status check_version log in (Option.map explain_missing r, log')

    -- `CMakeBuild.run`
    unfoldable pub run : Statement
    unfolding build_all check_cmake
    run = check_cmake >> build_all self.extensions
