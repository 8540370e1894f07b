-- ===== src/StringRef.antt =====
-- `llvm::StringRef`, which is no part of this repository: the calls that the compiler makes, and
-- what their documentation says of them. Positions are `size_t`: `npos` is 2 ^ 64 - 1.
use Prim.Native.Char.{code}
use Prim.Native.String.{len}
use whack.Prelude.{ℕ, ◌-◌, ◌^◌, String, ◌<>◌, ◌≡◌, ◌≢◌, Bool, false, ◌||◌, eqb}

-- Is the character `|` in the text?
abbrev pub has_bar : String → Bool
has_bar String.[] = false
has_bar (String.◌∷◌ c s) = eqb (code c) 124 || has_bar s

pub record StringRef : Type 0 where
  -- `take_until([](const char c) { return c == '|'; })`
  pub take_until_bar : String → String
  -- what is left of a text after `consume_back(suffix)`
  pub consume_back : String → String → String
  -- `find_last_of('|')`
  pub find_last_bar : String → ℕ
  pub drop_front : ℕ → String → String
  pub starts_with : String → String → Bool
  pub substr : String → ℕ → String
  pub take_until_bar-append :
      (s t : String) → has_bar s ≡ false → take_until_bar (s <> ("|" <> t)) ≡ s
  pub consume_back-append : (s t : String) → consume_back (s <> t) t ≡ s
  pub consume_back-other : (s t : String) → ((r : String) → s ≢ r <> t) → consume_back s t ≡ s
  pub find_last_bar-append :
      (s t : String) → has_bar t ≡ false → find_last_bar (s <> ("|" <> t)) ≡ len s
  pub find_last_bar-absent : (s : String) → has_bar s ≡ false → find_last_bar s ≡ 2 ^ 64 - 1
  pub drop_front-append : (s t : String) → drop_front (len s) (s <> t) ≡ t
  pub drop_front-zero : (s : String) → drop_front 0 s ≡ s
