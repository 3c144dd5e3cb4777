-- ===== src/Tests/BuildRuns.antt =====
-- Examples for the import of the compiled module and its build.
use py_obscura_proto.Base.{◌≡◌, refl, Option, none, some, [], ◌∷◌, true, false}
use py_obscura_proto.Bindings.{
  Site, import_error, not_importable, bound, from_file, import_bindings, is_library,
}
use py_obscura_proto.Bindings.Search.{import_bindings_finds}
use py_obscura_proto.Build.{
  Builder, Machine, Action, check_version, BuildError, called_process_error, run, cmake_extension,
}
use py_obscura_proto.Build.Order.{Performs, all_steps, run-Performs}

abbrev site : Site
site = record {
  own = some (import_error (not_importable 0));
  build_dir =
      some ("Makefile" ∷ "_obscuraproto.cpython-312.so" ∷ "_obscuraproto.cpython-311.so" ∷ []);
  execute = λ _. none;
}

import_bindings_finds_example :
    import_bindings site (record { path_extended = false; registered = none }) ≡ (
      bound (from_file "_obscuraproto.cpython-312.so"),
      record { path_extended = true; registered = some "_obscuraproto.cpython-312.so" },
    )
unfolding is_library
import_bindings_finds_example =
    import_bindings_finds site (record { path_extended = false; registered = none })
      (not_importable 0) "_obscuraproto.cpython-312.so" ("Makefile" ∷ [])
      ("_obscuraproto.cpython-311.so" ∷ []) refl refl refl refl

abbrev builder : Builder
builder = record {
  extensions = cmake_extension (λ p. p) "ObscuraProto._obscuraproto" "/source" ∷ [];
  debug = false;
  vcruntime = none;
  build_temp = "/build";
  version = "0.1";
  extdir = λ _. "/out";
}

abbrev machine : Machine
machine = record {
  variable = λ _. none;
  is_windows = false;
  executable = "python";
  strip = λ s. s;
  split = λ s. s ∷ [];
  join = λ a b. a;
}

-- No CMake.
abbrev without_cmake : Action → Option BuildError
without_cmake check_version = some (called_process_error 1)
without_cmake _ = none

run-Performs_example :
    Performs without_cmake
      (check_version ∷ all_steps machine builder builder.extensions)
      (run machine builder without_cmake)
      []
run-Performs_example = run-Performs machine builder without_cmake
