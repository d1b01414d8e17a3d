-- ===== src/Config/Params/Template.antt =====
-- The parameters of a path that is written as a template (config.go).
use Prim.Native.Char.{code}
use Prim.Native.String.{[] as empty_text, ◌∷◌ as char_then, ◌++◌ as text_append}
use text.Mathlib.TextLemmas.{nil-append, cons-append, append-nil, append_assoc}
use aastro.Prelude.{
  ℕ, ◌==◌, Bool, true, false, not, ◌&&◌, ◌||◌, List, [], ◌∷◌, none, some, String, str_eq, ◌≡◌, refl,
  ap, sym, ◌∙◌, arith,
}
use aastro.Config.Params.{find_params, extract_path_params}

-- A piece of a path: text as it is, or a parameter by its name.
pub data Piece : Type 0 where
  literal param : String → Piece

abbrev has_code : ℕ → String → Bool
has_code n empty_text = false
has_code n (char_then c s) = code c == n || has_code n s

pub render : List Piece → String
render [] = ""
render (literal s ∷ ps) = text_append s (render ps)
render (param name ∷ ps) = char_then "{" (text_append name (char_then "}" (render ps)))

pub names : List Piece → List String
names [] = []
names (literal s ∷ ps) = names ps
names (param name ∷ ps) = name ∷ names ps

-- No text has an opening brace, and no name is empty or has a closing one.
unfoldable pub is_template : List Piece → Bool
is_template [] = true
is_template (literal s ∷ ps) = not (has_code 123 s) && is_template ps
is_template (param name ∷ ps) = not (has_code 125 name) && (not (str_eq name "") && is_template ps)

find_params-literal :
    (s t : String)
    → has_code 123 s ≡ false
    → find_params none (text_append s t) ≡ find_params none t
unfolding find_params
find_params-literal empty_text t h = rw nil-append refl
find_params-literal (char_then c s) t h =
    let plain : (code c == 123) ≡ false = ground (arith, h) in
    rw cons-append (rw plain (find_params-literal s t (ground (arith, h))))

find_params-name :
    (name acc whole t : String)
    → has_code 125 name ≡ false
    → text_append acc name ≡ whole
    → str_eq whole "" ≡ false
    → find_params (some acc) (text_append name (char_then "}" t)) ≡ whole ∷ find_params none t
unfolding find_params
find_params-name empty_text acc whole t h e full =
    let same : acc ≡ whole = sym (append-nil acc) ∙ e in rw nil-append (rw same (rw full refl))
find_params-name (char_then c s) acc whole t h e full =
    let plain : (code c == 125) ≡ false = ground (arith, h) in
    rw cons-append (
      rw plain (
        find_params-name s (text_append acc (char_then c "")) whole t (ground (arith, h))
          (append_assoc acc (char_then c "") s
            ∙ ap (λ u. text_append acc u)
                (cons-append c "" s ∙ ap (λ u. char_then c u) (nil-append s))
            ∙ e)
          full))

-- A path that is a template has the parameters of the template, in its order.
pub extract_path_params-render :
    (ps : List Piece) → is_template ps ≡ true → extract_path_params (render ps) ≡ names ps
unfolding extract_path_params find_params render names is_template
extract_path_params-render [] h = refl
extract_path_params-render (literal s ∷ ps) h =
    find_params-literal s (render ps) (ground (arith, h))
    ∙ extract_path_params-render ps (ground (arith, h))
extract_path_params-render (param name ∷ ps) h =
    find_params-name name "" name (render ps) (ground (arith, h)) (nil-append name)
      (ground (arith, h))
    ∙ ap (λ l. name ∷ l) (extract_path_params-render ps (ground (arith, h)))
