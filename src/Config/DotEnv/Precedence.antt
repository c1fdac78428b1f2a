-- ===== src/Config/DotEnv/Precedence.antt =====
-- Which value a variable has once the .env file has been read.
use pulse_monitor.Config.DotEnv.{parse_line, assign, assign_lines, set_absent, scan, load_dot_env}
use pulse_monitor.Config.Env.{Env, lookup_env, refuses, lookup_env-set_env}
use pulse_monitor.Prelude.{
  ◌≡◌, refl, sym, ap, ◌∙◌, inl, inr, List, [], ◌∷◌, Option, none, some, arith, if◌then◌else◌,
  Bool-cases,
}
use pulse_monitor.Text.Split.{text_eq_iff}
use pulse_monitor.Text.{Text, text_eq}

abbrev pub or_else : Option Text → Option Text → Option Text
or_else none o = o
or_else (some v) o = some v

-- The value that one line offers for the variable `k`.
abbrev pub offer : Text → Option (Text × Text) → Option Text
offer k none = none
offer k (some (j, v)) = if refuses j v then none else if text_eq j k then some v else none

-- The first offer of a list of lines.
abbrev pub first_offer : Text → List Text → Option Text
first_offer k [] = none
first_offer k (l ∷ ls) = or_else (offer k (parse_line l)) (first_offer k ls)

-- The lines that `loadDotEnv` reads of a file.
abbrev pub lines_of : Option Text → List Text
lines_of none = []
lines_of (some file) = (scan file).lines

set_absent-lookup :
    (k j v : Text) (env : Env) (o : Option Text)
    → lookup_env j env ≡ o
    → lookup_env k (set_absent o j v env) ≡ or_else (lookup_env k env) (offer k (some (j, v)))
set_absent-lookup k j v env none e =
    rw (lookup_env-set_env j k v env) (elim (Bool-cases (text_eq j k)) [
      | inl h ↦
          let e' : lookup_env k env ≡ none =
            ap (λ x. lookup_env x env) (sym ((text_eq_iff j k).0 h)) ∙ e in
          rw (h, e') (ground arith)
      | inr h ↦ rw h (ground arith)
    ])
set_absent-lookup k j v env (some w) e = elim (Bool-cases (text_eq j k)) [
  | inl h ↦
      let e' : lookup_env k env ≡ some w =
        ap (λ x. lookup_env x env) (sym ((text_eq_iff j k).0 h)) ∙ e in
      rw e'
  | inr h ↦ rw h (ground arith)
]

assign-lookup :
    (k : Text) (p : Option (Text × Text)) (env : Env)
    → lookup_env k (assign p env) ≡ or_else (lookup_env k env) (offer k p)
unfolding assign
assign-lookup k none env = ground arith
assign-lookup k (some (j, v)) env = set_absent-lookup k j v env (lookup_env j env) refl

or_else_assoc : (a b c : Option Text) → or_else (or_else a b) c ≡ or_else a (or_else b c)
or_else_assoc none b c = refl
or_else_assoc (some v) b c = refl

assign_lines-lookup :
    (k : Text) (ls : List Text) (env : Env)
    → lookup_env k (assign_lines ls env) ≡ or_else (lookup_env k env) (first_offer k ls)
unfolding assign_lines
assign_lines-lookup k [] env = ground arith
assign_lines-lookup k (l ∷ ls) env =
    assign_lines-lookup k ls (assign (parse_line l) env)
    ∙ rw (assign-lookup k (parse_line l) env)
        (or_else_assoc (lookup_env k env) (offer k (parse_line l)) (first_offer k ls))

-- After loadDotEnv, whatever the file holds, a variable that the environment had keeps its value;
-- any other has the value of the first line read that assigns it (one that os.Setenv accepts), and
-- is unset if there is no such line.
pub load_dot_env-lookup :
    (k : Text) (file : Option Text) (env : Env)
    → lookup_env k (load_dot_env file env).0
      ≡ or_else (lookup_env k env) (first_offer k (lines_of file))
unfolding load_dot_env
load_dot_env-lookup k none env = ground arith
load_dot_env-lookup k (some file) env = assign_lines-lookup k (scan file).lines env
