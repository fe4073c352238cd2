-- ===== src/Gateway/Conditions.antt =====
-- The text of a condition before it is evaluated: normalizeConditionForEvaluation and
-- rewriteSingleEqualsComparison of gateway_logic.go. The loop runs over characters, where Go runs
-- over bytes: every byte that it tests for is a character of its own, and no byte of a longer
-- character.
use Prim.Native.Char.{code}
use Prim.Native.String.{slice, len, ◌++◌}
use flow_go.Prelude.{
  ℕ, suc, String, ◌≡◌, refl, Bool, true, false, not, ◌&&◌, ◌||◌, Option, none, some, ◌==◌, nat_eq,
  if◌then◌else◌,
}
use flow_go.Prelude.Text.{trim_space}

-- The three flags of the loop.
pub record Quotes : Type 0 where
  pub in_single : Bool
  pub in_double : Bool
  pub escaped : Bool

abbrev pub no_quotes : Quotes
no_quotes = record { in_single = false; in_double = false; escaped = false }

abbrev quoted : Quotes → Bool
quoted q = q.in_single || q.in_double

-- The flags after a character: 92 is a backslash, 39 and 34 are the quotes.
unfoldable pub step_quotes : Quotes → ℕ → Quotes
step_quotes q ch =
    if q.escaped
    then record q { escaped = false }
    else if quoted q && ch == 92
    then record q { escaped = true }
    else if ch == 39 && not q.in_double
    then record q { in_single = not q.in_single }
    else if ch == 34 && not q.in_single
    then record q { in_double = not q.in_double }
    else q

-- An `=` (61) outside quotes that is no part of `==`, `===`, `!=`, `<=`, `>=` or `=>`.
unfoldable pub is_plain_equals : Quotes → ℕ → ℕ → ℕ → Bool
is_plain_equals q prev ch next =
    not q.escaped
    && not (quoted q)
    && ch == 61
    && not (prev == 61 || next == 61 || prev == 33 || prev == 60 || prev == 62 || next == 62)

abbrev first_code : String → ℕ
first_code String.[] = 0
first_code (String.◌∷◌ c s) = code c

-- How the loop ends: at a second plain `=`, or with the index of the only one, if there is one.
pub data Scan : Type 0 where
  second_equals : Scan
  scanned : Option ℕ → Scan

found_equals : Option ℕ → ℕ → Scan → Scan
found_equals none i rest = rest
found_equals (some j) i rest = second_equals

unfoldable pub scan : Quotes → ℕ → ℕ → Option ℕ → String → Scan
unfolding step_quotes is_plain_equals found_equals
scan q prev i found String.[] = scanned found
scan q prev i found (String.◌∷◌ c s) =
    let q' = step_quotes q (code c) in
    let rest = scan q' (code c) (suc i) found s in
    let rest_found = scan q' (code c) (suc i) (some i) s in
    if is_plain_equals q prev (code c) (first_code s) then found_equals found i rest_found else rest

rewritten : String → Scan → String × Bool
rewritten expr second_equals = (expr, false)
rewritten expr (scanned none) = (expr, false)
rewritten expr (scanned (some i)) = (slice expr 0 i ++ "==" ++ slice expr (suc i) (len expr), true)

unfoldable pub rewrite_single_equals_comparison : String → String × Bool
unfolding scan rewritten
rewrite_single_equals_comparison expr = rewritten expr (scan no_quotes 0 0 none expr)

unfoldable pub normalize_condition : String → String
unfolding rewrite_single_equals_comparison trim_space
normalize_condition condition = (rewrite_single_equals_comparison (trim_space condition)).0

normalize_condition_runs :
    (normalize_condition " a = 'x=y' " ≡ "a == 'x=y'")
    × (normalize_condition "a = b = c" ≡ "a = b = c")
    × (normalize_condition "a >= 1" ≡ "a >= 1")
unfolding normalize_condition
normalize_condition_runs = (refl, refl, refl)
