-- ===== src/Rules/Let.antt =====
-- `rule_eliminate_let` of src/optimizations/rules.cpp.
use spoq.Base.{String, Bool, true, false, ◌≡◌, refl}
use spoq.Ast.{SpecType, SpecNode, matching, symbol, arm, no_arms}
use spoq.Copy.Meaning.{CopySafe}
use spoq.Meaning.{Interpretation, Env, match_pattern, eval}
use spoq.Rules.{Rewrite}
use spoq.Subst.{subst}
use spoq.Subst.Meaning.{NoCapture, eval-subst}

abbrev unless_known : Bool → SpecNode → SpecNode → SpecNode × Bool
unless_known true n n' = (n, false)
unless_known false n n' = (n', true)

-- A match with one arm, whose pattern is a symbol that the project does not know: the only such
-- `Match` for which `is_let()` holds and the pattern is a `Symbol`.
unfoldable pub eliminate_let : (String → Bool) → Rewrite
eliminate_let known (matching src (arm (symbol x u) body no_arms) t) =
    unless_known (known x) (matching src (arm (symbol x u) body no_arms) t) (subst x src body)
eliminate_let known n = (n, false)

-- Putting the value of a `let` in place of its variable keeps the meaning, where the value is safe
-- to copy and no binder of the body captures.
pub eval-eliminate_let :
    (I : Interpretation) (src : SpecNode) (x : String) (body : SpecNode) (u t : SpecType)
    (r : Env I)
    → CopySafe src
    → NoCapture x src body
    → eval I (eliminate_let I.known (matching src (arm (symbol x u) body no_arms) t)).0 r
      ≡ eval I (matching src (arm (symbol x u) body no_arms) t) r
unfolding eliminate_let eval match_pattern
eval-eliminate_let I src x body u t r safe c = go (I.known x) refl
  where
    go :
        (k : Bool)
        → I.known x ≡ k
        → eval I
            (unless_known k (matching src (arm (symbol x u) body no_arms) t) (subst x src body)).0
            r
          ≡ eval I (matching src (arm (symbol x u) body no_arms) t) r
    go true e = refl
    go false e = rw e (eval-subst I x src body r e safe c)
