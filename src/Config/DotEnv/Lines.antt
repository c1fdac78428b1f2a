-- ===== src/Config/DotEnv/Lines.antt =====
-- What a line of a .env file assigns.
use mathlib.Core.List.{reverse-append, reverse-cons, reverse-reverse, append_assoc}
use pulse_monitor.Config.DotEnv.{parse_line, assignment, unquote}
use pulse_monitor.Prelude.{ℕ, ◌≡◌, ◌⊎◌, false, ◌||◌, [], ◌∷◌, ◌++◌, reverse, some, arith}
use pulse_monitor.Text.Split.{Lacks, cut-append}
use pulse_monitor.Text.Trim.{IsTrimmed, trim_space-eq}
use pulse_monitor.Text.{Text, is_space, text_eq, starts_with}

-- A key that a line can start with: not empty, no space at an end, no `=`, and no comment.
pub record IsKey (k : Text) : Type 0 where
  pub ne_nil : text_eq k [] ≡ false
  pub no_comment : starts_with k (b'#' ∷ []) ≡ false
  pub trimmed : IsTrimmed k
  pub no_equals : Lacks b'=' k

abbrev pub IsQuote : ℕ → Type 0
IsQuote q = (q ≡ b'"') ⊎ (q ≡ b'\'')

is_space-IsQuote : (q : ℕ) → IsQuote q → is_space q ≡ false
unfolding is_space
is_space-IsQuote q h = ground arith

reverse-snoc : (s : Text) (c : ℕ) → reverse (s ++ c ∷ []) ≡ c ∷ reverse s
reverse-snoc s c = reverse-append s (c ∷ [])

-- The surrounding quotes are removed, whatever stands between them.
unquote-quoted : (q : ℕ) (v : Text) → IsQuote q → unquote (q ∷ (v ++ q ∷ [])) ≡ v
unfolding unquote
unquote-quoted q v h = rw (reverse-snoc v q) (ground (arith, reverse-reverse v))

quoted-IsTrimmed : (q : ℕ) (v : Text) → IsQuote q → IsTrimmed (q ∷ (v ++ q ∷ []))
quoted-IsTrimmed q v h = record {
  front = rw (is_space-IsQuote q h);
  back = rw (reverse-cons q (v ++ q ∷ []), reverse-snoc v q) (rw (is_space-IsQuote q h));
}

line-IsTrimmed : (k s : Text) (q : ℕ) → IsKey k → IsQuote q → IsTrimmed (k ++ (s ++ q ∷ []))
unfolding text_eq
line-IsTrimmed [] s q key h = cc (key.ne_nil)
line-IsTrimmed (c ∷ k) s q key h = record {
  front = key.trimmed.front;
  back =
      rw (← append_assoc (c ∷ k) s (q ∷ []), reverse-snoc ((c ∷ k) ++ s) q)
        (rw (is_space-IsQuote q h));
}

not_skipped :
    (k s : Text) → IsKey k → (text_eq (k ++ s) [] || starts_with (k ++ s) (b'#' ∷ [])) ≡ false
unfolding text_eq starts_with
not_skipped [] s key = cc (key.ne_nil)
not_skipped (c ∷ k) s key = key.no_comment

-- A line KEY="value", or with single quotes, assigns to KEY exactly the characters between the
-- quotes: spaces, `#`, `=` and further quotes among them are kept.
parse_line-quoted :
    (k v : Text) (q : ℕ)
    → IsKey k
    → IsQuote q
    → parse_line (k ++ b'=' ∷ q ∷ (v ++ q ∷ [])) ≡ some (k, v)
unfolding parse_line assignment
parse_line-quoted k v q key h = rw (
  trim_space-eq _ (line-IsTrimmed k (b'=' ∷ q ∷ v) q key h),
  not_skipped k (b'=' ∷ q ∷ (v ++ q ∷ [])) key,
  cut-append b'=' k (q ∷ (v ++ q ∷ [])) key.no_equals,
  trim_space-eq k key.trimmed,
  trim_space-eq _ (quoted-IsTrimmed q v h),
  unquote-quoted q v h,
)
