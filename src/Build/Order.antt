-- ===== src/Build/Order.antt =====
-- The order of the build, and where it stops.
use mathlib.Core.List.{append_assoc, append-nil}
use py_obscura_proto.Base.{
  ◌≡◌, refl, sym, ap, ◌∙◌, Option, none, some, List, [], ◌∷◌, ◌++◌, ◌⊎◌, inl, inr, arith,
  Option-cases,
}
use py_obscura_proto.Build.{
  Extension, Builder, Machine, Action, check_version, make_directory, prepare, build, BuildError,
  Statement, act, continue, ◌>>◌, cmake_args, build_args, cxx_flags, build_extension, build_all,
  check_cmake, run, explain_missing,
}

module _ (status : Action → Option BuildError) where
  abbrev pub Succeed : List Action → Type 0
  Succeed [] = Unit
  Succeed (a ∷ more) = (status a ≡ none) × Succeed more

  -- From `log` on, all of the plan was done, with success and no exception; or the plan up to an action
  -- that failed, the ones before it with success, and there is an exception.
  abbrev pub Did : List Action → List Action → Option BuildError → List Action → Type 0
  Did plan log r log' =
      ((r ≡ none) × (log' ≡ log ++ plan) × Succeed plan)
      ⊎ ((before after : List Action) × (a : Action) × (cause e : BuildError) × (r ≡ some e)
          × (plan ≡ before ++ a ∷ after)
          × (log' ≡ log ++ (before ++ a ∷ []))
          × (status a ≡ some cause)
          × Succeed before)

  abbrev pub Performs : List Action → Statement → List Action → Type 0
  Performs plan m log = Did plan log (m log).0 (m log).1

  Succeed-append : (p q : List Action) → Succeed p → Succeed q → Succeed (p ++ q)
  Succeed-append [] q h k = k
  Succeed-append (a ∷ p) q h k = (h.0, Succeed-append p q h.1 k)

  Did-continue :
      (p q : List Action) (k : Statement) (log : List Action) (r : Option BuildError)
      (log' : List Action)
      → Did p log r log'
      → ((l : List Action) → Performs q k l)
      → Did (p ++ q) log (continue r k log').0 (continue r k log').1
  Did-continue p q k log none log' (inl (x, e, done)) next = elim (next log') [
    | inl (y, f, done') ↦
        inl (y, f ∙ ap (λ l. l ++ q) e ∙ append_assoc log p q, Succeed-append p q done done')
    | inr (b, c, a, cause, err, y, f, g, h, done') ↦ inr (
      p ++ b,
      c,
      a,
      cause,
      err,
      y,
      ap (λ l. p ++ l) f ∙ sym (append_assoc p b (a ∷ c)),
      g
          ∙ ap (λ l. l ++ (b ++ a ∷ [])) e
          ∙ append_assoc log p (b ++ a ∷ [])
          ∙ ap (λ l. log ++ l) (sym (append_assoc p b (a ∷ []))),
      h,
      Succeed-append p b done done',
    )
  ]
  Did-continue p q k log none log' (inr (b, c, a, cause, err, y, f, g, h, done)) next =
      absurd (ground arith)
  Did-continue p q k log (some e) log' (inl (x, f, done)) next = absurd (ground arith)
  Did-continue p q k log (some e) log' (inr (b, c, a, cause, err, y, f, g, h, done)) next =
      inr (b, c ++ q, a, cause, err, y, ap (λ l. l ++ q) f ∙ append_assoc b (a ∷ c) q, g, h, done)

  Performs->> :
      (p q : List Action) (m k : Statement) (log : List Action)
      → Performs p m log
      → ((l : List Action) → Performs q k l)
      → Performs (p ++ q) (m >> k) log
  Performs->> p q m k log h next = Did-continue p q k log (m log).0 (m log).1 h next

  Performs-act : (a : Action) (log : List Action) → Performs (a ∷ []) (act status a) log
  Performs-act a log = elim (Option-cases (status a)) [
    | inl h ↦ inl (h, refl, (h, tt))
    | inr (e, h) ↦ inr ([], [], a, e, e, h, refl, refl, h, tt)
  ]

module _ (machine : Machine) (self : Builder) where
  -- What is to be done for one extension: its directory, then CMake twice in it.
  abbrev pub steps : Extension → List Action
  steps ext =
      let directory = machine.join self.build_temp ext.name in
      make_directory directory
      ∷ prepare ext.sourcedir (cmake_args machine self ext) directory (cxx_flags machine self)
      ∷ build (build_args machine self) directory
      ∷ []

  abbrev pub all_steps : List Extension → List Action
  all_steps [] = []
  all_steps (ext ∷ exts) = steps ext ++ all_steps exts

  module _ (status : Action → Option BuildError) where
    build_extension-Performs :
        (ext : Extension) (log : List Action)
        → Performs status (steps ext) (build_extension machine self status ext) log
    unfolding build_extension
    build_extension-Performs ext log =
        let directory = machine.join self.build_temp ext.name in
        let prepares =
          prepare ext.sourcedir (cmake_args machine self ext) directory (cxx_flags machine self) in
        let made = act status (make_directory directory) in
        Performs->> status (make_directory directory ∷ prepares ∷ [])
          (build (build_args machine self) directory ∷ []) (made >> act status prepares)
          (act status (build (build_args machine self) directory)) log
          (Performs->> status (make_directory directory ∷ []) (prepares ∷ []) made
            (act status prepares) log (Performs-act status (make_directory directory) log)
            (Performs-act status prepares))
          (Performs-act status (build (build_args machine self) directory))

    build_all-Performs :
        (exts : List Extension) (log : List Action)
        → Performs status (all_steps exts) (build_all machine self status exts) log
    unfolding build_all
    build_all-Performs [] log = inl (refl, sym (append-nil log), tt)
    build_all-Performs (ext ∷ exts) log =
        Performs->> status (steps ext) (all_steps exts) (build_extension machine self status ext)
          (build_all machine self status exts) log (build_extension-Performs ext log)
          (build_all-Performs exts)

    check_cmake-Performs :
        (log : List Action)
        → Performs status (check_version ∷ []) (check_cmake machine self status) log
    unfolding check_cmake
    check_cmake-Performs log = elim (Option-cases (status check_version)) [
      | inl h ↦ inl (ground arith, refl, (h, tt))
      | inr (e, h) ↦ inr (
        [],
        [],
        check_version,
        e,
        explain_missing machine self e,
        ground arith,
        refl,
        refl,
        h,
        tt,
      )
    ]

    -- A build checks CMake, and then for each extension, in order, makes its directory, prepares it and
    -- builds it. It stops with an exception at the first of these that fails, and does all of them
    -- otherwise: no extension is built that was not prepared, and none at all without CMake.
    pub run-Performs :
        Performs status (check_version ∷ all_steps self.extensions) (run machine self status) []
    unfolding run
    run-Performs =
        Performs->> status (check_version ∷ []) (all_steps self.extensions)
          (check_cmake machine self status) (build_all machine self status self.extensions) []
          (check_cmake-Performs []) (build_all-Performs self.extensions)
