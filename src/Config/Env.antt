-- ===== src/Config/Env.antt =====
-- The process environment, and what internal/config uses of the package os on it.
use pulse_monitor.Prelude.{
  ℕ, ◌≡◌, refl, Bool, true, false, ◌||◌, List, [], ◌∷◌, Option, none, some, arith, ◌==◌,
  if◌then◌else◌,
}
use pulse_monitor.Text.Split.{text_eq_iff}
use pulse_monitor.Text.{Text, text_eq}

abbrev pub Env : Type 0
Env = List (Text × Text)

unfoldable pub contains : ℕ → Text → Bool
contains c [] = false
contains c (d ∷ s) = d == c || contains c s

unfoldable pub lookup : Text → Env → Option Text
lookup k [] = none
lookup k ((j, v) ∷ env) = if text_eq j k then some v else lookup k env

unfoldable pub insert : Text → Text → Env → Env
insert k v [] = (k, v) ∷ []
insert k v ((j, w) ∷ env) = if text_eq j k then (k, v) ∷ env else (j, w) ∷ insert k v env

-- os.LookupEnv: the empty key is never found.
unfoldable pub lookup_env : Text → Env → Option Text
unfolding lookup
lookup_env [] env = none
lookup_env (c ∷ k) env = lookup (c ∷ k) env

-- os.Getenv.
unfoldable pub getenv : Text → Env → Text
unfolding lookup_env
getenv k env = elim (lookup_env k env) [ none ↦ [] | some v ↦ v ]

-- The names and values that os.Setenv refuses with EINVAL.
unfoldable pub refuses : Text → Text → Bool
unfolding contains
refuses [] v = true
refuses (c ∷ k) v = contains b'=' (c ∷ k) || contains 0 (c ∷ k) || contains 0 v

-- os.Setenv, its error ignored.
unfoldable pub set_env : Text → Text → Env → Env
unfolding refuses insert
set_env k v env = if refuses k v then env else insert k v env

lookup-insert :
    (k j v : Text) (env : Env)
    → lookup j (insert k v env) ≡ (if text_eq k j then some v else lookup j env)
unfolding lookup insert
lookup-insert k j v [] = refl
lookup-insert k j v ((i, w) ∷ env) =
    ground (arith, text_eq_iff k j, text_eq_iff i k, text_eq_iff i j, lookup-insert k j v env)

-- Setenv changes one variable, and none if it refuses.
pub lookup_env-set_env :
    (k j v : Text) (env : Env)
    → lookup_env j (set_env k v env)
      ≡ (if refuses k v then lookup_env j env else if text_eq k j then some v else lookup_env j env)
lookup_env-set_env [] j v env = unfold set_env refuses in refl
lookup_env-set_env (c ∷ k) [] v env = unfold lookup_env text_eq in ground arith
lookup_env-set_env (c ∷ k) (d ∷ j) v env =
    unfold set_env lookup_env in ground (arith, lookup-insert (c ∷ k) (d ∷ j) v env)
