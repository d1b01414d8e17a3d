-- ===== src/Builder/Loader/Loaded.antt =====
-- Which modules are loaded (loader.go).
use aastro.Prelude.{
  Bool, true, false, List, [], ◌∷◌, ◌++◌, Option, some, String, if◌then◌else◌, map, ◌≡◌, refl, sym,
  ap, subst, ◌∙◌, arith, Bool-cases, inl, inr, contains,
}
use aastro.Prelude.Fallible.{WhenSome, WhenSome-eq, WhenSome-bind}
use aastro.Builder.Loader.{ModuleConfig, load_module, is_loaded, init_modules}

-- The names of a list behind those seen, each at its first place.
firsts : List String → List String → List String
firsts seen [] = seen
firsts seen (x ∷ xs) = firsts (if contains seen x then seen else seen ++ x ∷ []) xs

module _ {A : Type 0} (name_of : A → String) where
  is_loaded-contains :
      (name : String) (ms : List A) → is_loaded name_of name ms ≡ contains (map name_of ms) name
  unfolding is_loaded
  is_loaded-contains name [] = refl
  is_loaded-contains name (m ∷ ms) = ground (arith, is_loaded-contains name ms)

  map-append_one :
      (ms : List A) (m : A) → map name_of (ms ++ m ∷ []) ≡ map name_of ms ++ name_of m ∷ []
  map-append_one [] m = refl
  map-append_one (x ∷ ms) m = ap (λ t. name_of x ∷ t) (map-append_one ms m)

module _ {A : Type 0} (name_of : A → String) (builtin_path : String)
    (load : String → ModuleConfig → Option A)
    (honest : (cfg : ModuleConfig) (m : A)
      → load_module builtin_path load cfg ≡ some m
      → name_of m ≡ cfg.name) where
  init_modules_onto :
      (cfgs : List ModuleConfig) (ms : List A)
      → WhenSome
          (λ all. map name_of all ≡ firsts (map name_of ms) (map (λ c. c.name) cfgs))
          (init_modules name_of builtin_path load cfgs ms)
  unfolding init_modules firsts
  init_modules_onto [] ms = refl
  init_modules_onto (cfg ∷ cfgs) ms =
      let names = map (λ (c : ModuleConfig). c.name) cfgs in
      let before = map name_of ms in
      let Q = λ (l : List String) (all : List A). map name_of all ≡ l in
      let step = λ (b : Bool) (e : is_loaded name_of cfg.name ms ≡ b).
        ap (λ c. firsts (if c then before else before ++ cfg.name ∷ []) names)
          (sym (is_loaded-contains name_of cfg.name ms) ∙ e) in
      let ih = λ (l : List A). init_modules_onto cfgs l in
      elim (Bool-cases (is_loaded name_of cfg.name ms)) [
        | inl e ↦ rw e (
            subst
              (λ (l : List String). WhenSome (Q l) (init_modules name_of builtin_path load cfgs ms))
              (sym (step true e)) (ih ms))
        | inr e ↦ rw e (
            WhenSome-bind (Q (firsts before (cfg.name ∷ names))) (load_module builtin_path load cfg)
              _
              (λ m loaded.
                subst
                  (λ (l : List String).
                    WhenSome (Q l) (init_modules name_of builtin_path load cfgs (ms ++ m ∷ [])))
                  (ap (λ l. firsts l names)
                      (map-append_one name_of ms m
                        ∙ ap (λ n. before ++ n ∷ []) (honest cfg m loaded))
                    ∙ sym (step false e))
                  (ih (ms ++ m ∷ []))))
      ]

  -- The modules that are loaded have the configured names, each once, in the order of their first places. A module
  -- must have the name that it is configured by.
  init_modules-firsts :
      (cfgs : List ModuleConfig) (all : List A)
      → init_modules name_of builtin_path load cfgs [] ≡ some all
      → map name_of all ≡ firsts [] (map (λ c. c.name) cfgs)
  init_modules-firsts cfgs all h =
      WhenSome-eq
        (λ (l : List A). map name_of l ≡ firsts [] (map (λ (c : ModuleConfig). c.name) cfgs))
        (init_modules_onto cfgs []) h
