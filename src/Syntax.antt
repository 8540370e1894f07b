-- ===== src/Syntax.antt =====
-- Which class reads which node: the dispatch of statements, factors and expressions by their tags.
pub mod Statement
pub mod Expression
pub mod Rules
use whack.Prelude.{String, ◌==◌, Option, none, some, List, [], ◌∷◌, if◌then◌else◌}

-- A row of `OPT(RULE, CLASS)` lines, tried in order.
abbrev pub first_match : {K : Type 0} → List (String × K) → String → Option K
first_match [] tag = none
first_match ((rule, k) ∷ rows) tag = if tag == rule then some k else first_match rows tag
